-- ===== src/Drift/Alerts.antt =====
-- When a drift check skips, and what checks do to the table drift_alerts.
use mathlib.Core.List.{append-nil, append_assoc}
use fraud_ml_platform.Shared.{
  ◌-◌, ◌*◌, ◌≤◌, ◌<◌, String, ◌≡◌, refl, sym, ap, ◌∙◌, subst, ◌↔◌, ◌⊎◌, inl, inr, true, Option,
  none, some, List, [], ◌∷◌, ◌++◌, arith, le→leb, Bool-cases, insert_all, HasUniqueKeys,
  insert_all-none, insert_all-extends, insert_all-again, insert_all-HasUniqueKeys, length, keep_if,
  FloatOps, Result, ok, >>=-eq-ok,
}
use fraud_ml_platform.Database.{Time, hour, time_minus, Prediction}
use fraud_ml_platform.Drift.Detectors.{Numpy}
use fraud_ml_platform.Drift.Runner.{
  in_window, DriftAlert, DriftConfig, Windows, samples, too_few, write_alerts, detect,
  check_windows, run_drift_check, detector_rounds,
}
use fraud_ml_platform.Drift.Sampling.{samples-windows}

module _ {F : Type 0} (ops : FloatOps F) (np : Numpy F) (isoformat : Time → String)
    (md5_uuid : String → String) (cfg : DriftConfig F) where
  abbrev pub check :
      Time
      → Time
      → Time
      → List (Prediction F)
      → List (DriftAlert F)
      → Result (Option (List (DriftAlert F))) × List (DriftAlert F)
  check = run_drift_check ops np isoformat md5_uuid cfg

  keep_if-everything : (ps : List (Prediction F)) → keep_if (λ _. true) ps ≡ ps
  keep_if-everything [] = refl
  keep_if-everything (p ∷ ps) = rw (keep_if-everything ps) refl

  sample-lengths :
      (w : Windows) (predictions : List (Prediction F))
      → (length (samples w predictions).0
          ≡ length (keep_if (in_window w.reference_start w.reference_end) predictions))
        × (length (samples w predictions).1
            ≡ length (keep_if (in_window w.recent_start w.recent_end) predictions))
  sample-lengths w predictions =
      let (a, b) = samples-windows (λ _. true) w predictions in
      (
        ap length (sym (keep_if-everything (samples w predictions).0))
            ∙ a
            ∙ ap length (keep_if-everything _),
        ap length (sym (keep_if-everything (samples w predictions).1))
            ∙ b
            ∙ ap length (keep_if-everything _),
      )

  check_windows-few :
      (w : Windows) (predictions : List (Prediction F))
      → too_few cfg.min_samples (samples w predictions).0 (samples w predictions).1 ≡ true
      → check_windows ops np isoformat md5_uuid cfg w predictions ≡ ok none
  unfolding check_windows
  check_windows-few w predictions h = ground (arith, h)

  check_windows-enough :
      (w : Windows) (predictions : List (Prediction F))
      → check_windows ops np isoformat md5_uuid cfg w predictions ≡ ok none
      → too_few cfg.min_samples (samples w predictions).0 (samples w predictions).1 ≡ true
  unfolding check_windows
  check_windows-enough w predictions h =
      elim (Bool-cases
        (too_few cfg.min_samples (samples w predictions).0 (samples w predictions).1)) [
          | inl few ↦ few
          | inr enough ↦
              let h2 = rw enough at h in
              let (found, hd, e) = >>=-eq-ok (detect ops np isoformat md5_uuid cfg w _ _) _ h2 in
              absurd (ground (arith, e))
        ]

  -- If the clock is past the window's length, a check skips exactly when the table has fewer
  -- predictions than the minimum in the reference window or in the recent one.
  pub run_drift_check-skips :
      (ref_start ref_end now : Time) (predictions : List (Prediction F))
      (table : List (DriftAlert F))
      → cfg.recent_window_hours * hour ≤ now
      → ((check ref_start ref_end now predictions table).0 ≡ ok none) ↔ (
          (length (keep_if (in_window ref_start ref_end) predictions) < cfg.min_samples)
          ⊎ (length (keep_if (in_window (now - cfg.recent_window_hours * hour) now) predictions)
              < cfg.min_samples))
  unfolding run_drift_check time_minus
  run_drift_check-skips ref_start ref_end now predictions table h =
      let w : Windows = record {
        reference_start = ref_start;
        reference_end = ref_end;
        recent_start = now - cfg.recent_window_hours * hour;
        recent_end = now;
      } in
      let (a, b) = sample-lengths w predictions in
      let late = le→leb _ _ h in
      (
        λ e.
            let few = check_windows-enough w predictions (rw late at e) in
            ground (arith, few, a, b),
        λ few.
            let small : too_few cfg.min_samples (samples w predictions).0 (samples w predictions).1
                ≡ true =
              ground (arith, few, a, b) in
            rw late (check_windows-few w predictions small),
      )

  check-result :
      (ref_start ref_end now : Time) (predictions : List (Prediction F))
      (table other : List (DriftAlert F))
      → (check ref_start ref_end now predictions table).0
        ≡ (check ref_start ref_end now predictions other).0
  unfolding run_drift_check
  check-result ref_start ref_end now predictions table other = refl

  -- What a check does to the table: it inserts the alerts of its result.
  abbrev alerts_of : Result (Option (List (DriftAlert F))) → List (DriftAlert F)
  alerts_of (ok (some alerts)) = alerts
  alerts_of _ = []

  check-table :
      (ref_start ref_end now : Time) (predictions : List (Prediction F))
      (table : List (DriftAlert F))
      → (check ref_start ref_end now predictions table).1
        ≡ insert_all
            (λ a. a.alert_id)
            table
            (alerts_of (check ref_start ref_end now predictions table).0)
  unfolding run_drift_check write_alerts
  check-table ref_start ref_end now predictions table =
      ground (arith, insert_all-none (λ a. a.alert_id) table)

  -- A second check at the same time over the same predictions gives the same result and leaves the
  -- table as the first one left it.
  pub run_drift_check-again :
      (ref_start ref_end now : Time) (predictions : List (Prediction F))
      (table : List (DriftAlert F))
      → run_drift_check ops np isoformat md5_uuid cfg ref_start ref_end now predictions
          (run_drift_check ops np isoformat md5_uuid cfg ref_start ref_end now predictions table).1
        ≡ run_drift_check ops np isoformat md5_uuid cfg ref_start ref_end now predictions table
  run_drift_check-again ref_start ref_end now predictions table =
      let once = check ref_start ref_end now predictions table in
      let same = check-result ref_start ref_end now predictions once.1 table in
      let tables =
        check-table ref_start ref_end now predictions once.1
        ∙ ap (λ r. insert_all (λ a. a.alert_id) once.1 (alerts_of r)) same
        ∙ ap (λ t. insert_all (λ a. a.alert_id) t (alerts_of once.0))
            (check-table ref_start ref_end now predictions table)
        ∙ insert_all-again (λ a. a.alert_id) table (alerts_of once.0)
        ∙ sym (check-table ref_start ref_end now predictions table) in
      cc

  -- The rounds of the detector only add rows to the table, behind those that are there, and keep the
  -- ids of the alerts different.
  pub detector_rounds-grows :
      (ref_start ref_end : Time) (rounds : List (Time × List (Prediction F)))
      (table : List (DriftAlert F))
      → HasUniqueKeys (λ a. a.alert_id) table
      → ((new : List (DriftAlert F)) × (detector_rounds ops np isoformat md5_uuid cfg ref_start
              ref_end rounds table
            ≡ table ++ new))
        × HasUniqueKeys
            (λ a. a.alert_id)
            (detector_rounds ops np isoformat md5_uuid cfg ref_start ref_end rounds table)
  unfolding detector_rounds
  detector_rounds-grows ref_start ref_end [] table u = (([], sym (append-nil table)), u)
  detector_rounds-grows ref_start ref_end ((now, predictions) ∷ rounds) table u =
      let once = check ref_start ref_end now predictions table in
      let e = check-table ref_start ref_end now predictions table in
      let (new, extends) = insert_all-extends (λ a. a.alert_id) table (alerts_of once.0) in
      let unique =
        subst (HasUniqueKeys (λ a. a.alert_id)) (sym e)
          (insert_all-HasUniqueKeys (λ a. a.alert_id) table (alerts_of once.0) u) in
      let ((more, behind), u') = detector_rounds-grows ref_start ref_end rounds once.1 unique in
      ((new ++ more, behind ∙ ap (λ t. t ++ more) (e ∙ extends) ∙ append_assoc table new more), u')
