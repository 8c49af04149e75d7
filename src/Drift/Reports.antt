-- ===== src/Drift/Reports.antt =====
-- When a drift check skips, and which alerts it reports.
use fraud_ml_platform.Shared.{
  ℕ, String, ◌≡◌, Bool, ◌&&◌, List, [], ◌∷◌, ◌++◌, map, str_eq, if◌then◌else◌, any_of, All,
  FloatOps, ok,
}
use fraud_ml_platform.Database.{Time, Prediction}
use fraud_ml_platform.Drift.Detectors.{
  Numpy, KsResult, compute_psi, compute_ks, compute_js_on_hashes,
}
use fraud_ml_platform.Drift.Runner.{
  DriftAlert, DriftConfig, Windows, probs_of, hashes_of, psi_alerts, ks_alerts, js_alerts,
}

module _ {F : Type 0} (ops : FloatOps F) (np : Numpy F) (isoformat : Time → String)
    (md5_uuid : String → String) (cfg : DriftConfig F) where
  abbrev pub listed_if : Bool → String → List String
  listed_if b name = if b then name ∷ [] else []

  abbrev pub HasWindows : Windows → DriftAlert F → Type 0
  HasWindows w a =
      (a.window_start ≡ w.recent_start)
      × (a.window_end ≡ w.recent_end)
      × (a.reference_window_start ≡ w.reference_start)
      × (a.reference_window_end ≡ w.reference_end)

  -- The alerts are about the values that the detectors computed on the two samples: first psi, at
  -- or above its threshold, then ks, beyond both of its own, then js, above its own.
  pub record IsReport (w : Windows) (reference recent : List (Prediction F))
      (alerts : List (DriftAlert F)) : Type 0 where
    pub psi_val : F
    pub ks : KsResult F
    pub js_val : F
    pub psi_computed : compute_psi ops np (probs_of reference) (probs_of recent) 10 ≡ ok psi_val
    pub ks_computed :
        compute_ks ops np
          (probs_of reference)
          (probs_of recent)
          cfg.ks_pvalue_threshold
          cfg.ks_statistic_threshold
        ≡ ok ks
    pub js_computed :
        compute_js_on_hashes ops np (hashes_of reference) (hashes_of recent) ≡ ok js_val
    pub detectors :
        map (λ a. a.detector_name) alerts
        ≡ listed_if (ops.fle cfg.psi_warning_threshold psi_val) "psi"
          ++ listed_if
              (ops.flt ks.pvalue cfg.ks_pvalue_threshold
                && ops.flt cfg.ks_statistic_threshold ks.statistic)
              "ks"
          ++ listed_if (ops.flt cfg.js_threshold js_val) "js"
    pub values :
        map (λ a. a.metric_value) alerts
        ≡ (if ops.fle cfg.psi_warning_threshold psi_val then psi_val ∷ [] else [])
          ++ (if ks.is_flagged then ks.statistic ∷ [] else [])
          ++ (if ops.flt cfg.js_threshold js_val then js_val ∷ [] else [])
    pub critical :
        any_of (λ a. str_eq a.severity "critical") alerts
        ≡ (ops.fle cfg.psi_warning_threshold psi_val && ops.fle cfg.psi_critical_threshold psi_val)
    pub windows : All (HasWindows w) alerts

  abbrev all_alerts : Windows → F → KsResult F → F → ℕ → ℕ → List (DriftAlert F)
  all_alerts w psi_val ks js_val n m =
      psi_alerts ops np isoformat md5_uuid cfg w psi_val n m
      ++ ks_alerts ops np isoformat md5_uuid cfg w ks
      ++ js_alerts ops np isoformat md5_uuid cfg w js_val n m
