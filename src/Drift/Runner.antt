-- ===== src/Drift/Runner.antt =====
-- monitoring/drift/runner.py and monitoring/scripts/run_drift_detector.py: a check of the recent
-- window against the reference window, the alerts that it writes, and the loop around it.
use fraud_ml_platform.Shared.{
  ℕ, ◌*◌, String, append_text, Bool, not, ◌&&◌, ◌||◌, Option, none, some, List, [], ◌∷◌, ◌++◌, map,
  str_eq, ltb, leb, if◌then◌else◌, insert_all, length, keep_if, FloatOps, runtime_error, Result, ok,
  ensure, ◌>>=◌, ◌>>◌,
}
use fraud_ml_platform.Database.{Time, hour, time_minus, Prediction}
use fraud_ml_platform.Drift.Detectors.{
  Numpy, KsResult, compute_psi, compute_ks, compute_js_on_hashes,
}

pub data Detail (F : Type 0) : Type 0 where
  -- n_reference and n_recent
  sample_sizes : ℕ → ℕ → Detail F
  -- ks_statistic and pvalue
  ks_test : F → F → Detail F
  -- n_reference_hashes and n_recent_hashes
  hash_counts : ℕ → ℕ → Detail F

pub record DriftAlert (F : Type 0) : Type 0 where
  pub alert_id : String
  pub detector_name : String
  pub metric_name : String
  pub metric_value : F
  pub threshold : F
  pub window_start : Time
  pub window_end : Time
  pub reference_window_start : Time
  pub reference_window_end : Time
  pub severity : String
  pub detail : Detail F

pub record DriftConfig (F : Type 0) : Type 0 where
  pub recent_window_hours : ℕ
  pub min_samples : ℕ
  pub psi_warning_threshold : F
  pub psi_critical_threshold : F
  pub ks_pvalue_threshold : F
  pub ks_statistic_threshold : F
  pub js_threshold : F

-- The key, of which md5 and UUID, both parameters, make the id.
unfoldable pub deterministic_alert_id :
    (Time → String) → (String → String) → String → Time → Time → String
deterministic_alert_id isoformat md5_uuid detector start end = md5_uuid (
    append_text detector
      (append_text "|" (append_text (isoformat start) (append_text "|" (isoformat end)))))

-- What the alerts of one check share.
pub record Windows : Type 0 where
  pub reference_start : Time
  pub reference_end : Time
  pub recent_start : Time
  pub recent_end : Time

module _ {F : Type 0} where
  abbrev pub in_window : Time → Time → Prediction F → Bool
  in_window start end p = leb start p.created_at && leb p.created_at end

  -- ORDER BY created_at
  unfoldable pub insert_oldest : Prediction F → List (Prediction F) → List (Prediction F)
  insert_oldest r [] = r ∷ []
  insert_oldest r (x ∷ xs) =
      if ltb x.created_at r.created_at then x ∷ insert_oldest r xs else r ∷ x ∷ xs

  unfoldable pub oldest_first : List (Prediction F) → List (Prediction F)
  oldest_first [] = []
  oldest_first (r ∷ rs) = insert_oldest r (oldest_first rs)

  unfoldable pub fetch_windows :
      Time → Time → Time → Time → List (Prediction F) → List (Prediction F)
  fetch_windows ref_start ref_end start end predictions =
      oldest_first
        (keep_if (λ p. in_window ref_start ref_end p || in_window start end p) predictions)

  abbrev pub samples : Windows → List (Prediction F) → List (Prediction F) × List (Prediction F)
  samples w predictions =
      let rows =
        fetch_windows w.reference_start w.reference_end w.recent_start w.recent_end predictions in
      (
        keep_if (in_window w.reference_start w.reference_end) rows,
        keep_if (in_window w.recent_start w.recent_end) rows,
      )

  abbrev pub probs_of : List (Prediction F) → List F
  probs_of = map (λ p. p.fraud_probability)

  abbrev pub hashes_of : List (Prediction F) → List String
  hashes_of = map (λ p. p.features_hash)

  abbrev pub too_few : ℕ → List (Prediction F) → List (Prediction F) → Bool
  too_few min_samples reference recent =
      ltb (length reference) min_samples || ltb (length recent) min_samples

  -- INSERT .. ON CONFLICT (alert_id) DO NOTHING, in one transaction.
  unfoldable pub write_alerts : List (DriftAlert F) → List (DriftAlert F) → List (DriftAlert F)
  write_alerts = insert_all (λ a. a.alert_id)

module _ {F : Type 0} (ops : FloatOps F) (np : Numpy F) (isoformat : Time → String)
    (md5_uuid : String → String) (cfg : DriftConfig F) where
  abbrev pub alert : Windows → String → String → F → F → String → Detail F → DriftAlert F
  alert w detector metric value limit level detail = record {
    alert_id = deterministic_alert_id isoformat md5_uuid detector w.recent_start w.recent_end;
    detector_name = detector;
    metric_name = metric;
    metric_value = value;
    threshold = limit;
    window_start = w.recent_start;
    window_end = w.recent_end;
    reference_window_start = w.reference_start;
    reference_window_end = w.reference_end;
    severity = level;
    detail = detail;
  }

  unfoldable pub psi_alerts : Windows → F → ℕ → ℕ → List (DriftAlert F)
  psi_alerts w psi_val n_reference n_recent =
      if ops.fle cfg.psi_warning_threshold psi_val
      then alert w "psi" "psi" psi_val cfg.psi_warning_threshold
          (if ops.fle cfg.psi_critical_threshold psi_val then "critical" else "warning")
          (sample_sizes n_reference n_recent)
        ∷ []
      else []

  unfoldable pub ks_alerts : Windows → KsResult F → List (DriftAlert F)
  ks_alerts w ks =
      if ks.is_flagged
      then alert w "ks" "ks_statistic" ks.statistic cfg.ks_statistic_threshold "warning"
          (ks_test ks.statistic ks.pvalue)
        ∷ []
      else []

  unfoldable pub js_alerts : Windows → F → ℕ → ℕ → List (DriftAlert F)
  js_alerts w js_val n_reference n_recent =
      if ops.flt cfg.js_threshold js_val
      then alert w "js" "js_divergence" js_val cfg.js_threshold "warning"
          (hash_counts n_reference n_recent)
        ∷ []
      else []

  -- The alerts for the two samples. `compute_psi` has ten bins by default.
  unfoldable pub detect :
      Windows → List (Prediction F) → List (Prediction F) → Result (List (DriftAlert F))
  detect w reference recent =
      compute_psi ops np (probs_of reference) (probs_of recent) 10 >>= λ psi_val.
      compute_ks ops np (probs_of reference) (probs_of recent) cfg.ks_pvalue_threshold
        cfg.ks_statistic_threshold
      >>= λ ks. compute_js_on_hashes ops np (hashes_of reference) (hashes_of recent) >>= λ js_val.
          ok (
            psi_alerts w psi_val (length reference) (length recent)
            ++ ks_alerts w ks
            ++ js_alerts w js_val (length reference) (length recent))

  -- What the check returns; none where it skips.
  unfoldable pub check_windows :
      Windows → List (Prediction F) → Result (Option (List (DriftAlert F)))
  check_windows w predictions =
      let (reference, recent) = samples w predictions in
      if too_few cfg.min_samples reference recent
      then ok none
      else (detect w reference recent >>= λ alerts. ok (some alerts))

  -- What the check returns, and the table drift_alerts behind it.
  unfoldable pub run_drift_check :
      Time
      → Time
      → Time
      → List (Prediction F)
      → List (DriftAlert F)
      → Result (Option (List (DriftAlert F))) × List (DriftAlert F)
  run_drift_check ref_start ref_end now predictions table =
      let result = time_minus now (cfg.recent_window_hours * hour) >>= λ start.
      check_windows
        (record {
          reference_start = ref_start;
          reference_end = ref_end;
          recent_start = start;
          recent_end = now;
        })
        predictions in
      (result, elim result [ ok (some alerts) ↦ write_alerts table alerts | _ ↦ table ])

  -- The endless loop of the detector, over the rounds that it has had: the time and the predictions
  -- of each. An exception is logged, and the loop goes on.
  unfoldable pub detector_rounds :
      Time → Time → List (Time × List (Prediction F)) → List (DriftAlert F) → List (DriftAlert F)
  detector_rounds ref_start ref_end [] table = table
  detector_rounds ref_start ref_end ((now, predictions) ∷ rounds) table =
      let (_, next) = run_drift_check ref_start ref_end now predictions table in
      detector_rounds ref_start ref_end rounds next

  -- The two environment variables and `datetime.fromisoformat`, a parameter.
  unfoldable pub main :
      (String → Result Time)
      → String
      → String
      → List (Time × List (Prediction F))
      → List (DriftAlert F)
      → Result (List (DriftAlert F))
  main fromisoformat start end rounds table =
      ensure (not (str_eq start "" || str_eq end "")) runtime_error
      >> (fromisoformat start >>= λ ref_start.
          fromisoformat end >>= λ ref_end. ok (detector_rounds ref_start ref_end rounds table))
