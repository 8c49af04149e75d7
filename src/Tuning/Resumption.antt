-- ===== src/Tuning/Resumption.antt =====
-- A study that is resumed comes to its number of completed trials, and does not pass it.
use fraud_ml_platform.Shared.{
  ℕ, zero, suc, ◌+◌, ◌-◌, ◌*◌, ◌≤◌, ◌≡◌, refl, ap, ◌⊎◌, inl, inr, List, arith, ltb, ltb→lt,
  Bool-cases, length,
}
use fraud_ml_platform.Tuning.Study.{
  TrialState, RunEnd, n_complete, n_remaining, run_remaining, resume,
}
use fraud_ml_platform.Tuning.Trials.{Outcome, completes, completes-add, completes-le, IsExtended}

-- Of the trials from any number on, each row of so many has one that is completed.
abbrev pub HasProgress : (ℕ → Outcome) → ℕ → Type 0
HasProgress objective window = (i : ℕ) → 1 ≤ completes objective window i

-- `study.optimize` does as documented with the objective.
abbrev pub IsOptimizer : (ℕ → Outcome) → (ℕ → List TrialState → RunEnd × List TrialState) → Type 0
IsOptimizer objective optimize =
    (n : ℕ) (study : List TrialState) → IsExtended objective n study (optimize n study)

completes-progress :
    (objective : ℕ → Outcome) (window : ℕ)
    → HasProgress objective window
    → (q i : ℕ) → q ≤ completes objective (q * window) i
completes-progress objective window progress zero i = omega arith
completes-progress objective window progress (suc q) i =
    let e : suc q * window ≡ window + q * window = omega arith in
    let parts = completes-add objective window (q * window) i in
    let here = progress i in
    let later = completes-progress objective window progress q (i + window) in
    rw e (omega (arith, parts, here, later))

completes-enough :
    (objective : ℕ → Outcome) (window : ℕ)
    → HasProgress objective window
    → (q k i : ℕ) → q * window ≤ k
    → q ≤ completes objective k i
completes-enough objective window progress q k i enough =
    let e : (q * window) + (k - q * window) ≡ k = omega (arith, enough) in
    let parts = completes-add objective (q * window) (k - q * window) i in
    let first = completes-progress objective window progress q i in
    let parts' = rw e at parts in omega (arith, parts', first)

-- What one run of the script does to a study that has at most its number of completed trials: it is
-- left alone when it has all of them, else it gets some trials and does not pass the number.
data IsAdvanced (objective : ℕ → Outcome) (n_trials : ℕ) (study after : List TrialState)
    : Type 0 where
  all_done : n_complete study ≡ n_trials → after ≡ study → IsAdvanced objective n_trials study after
  some_more :
      (new : ℕ)
      → 1 ≤ new
      → length after ≡ length study + new
      → n_complete after ≡ n_complete study + completes objective new (length study)
      → n_complete after ≤ n_trials
      → IsAdvanced objective n_trials study after

module _ (objective : ℕ → Outcome) (optimize : ℕ → List TrialState → RunEnd × List TrialState)
    (documented : IsOptimizer objective optimize) (n_trials : ℕ) where
  run_remaining-IsAdvanced :
      (study : List TrialState)
      → n_complete study ≤ n_trials
      → IsAdvanced objective n_trials study (run_remaining optimize n_trials study).1
  unfolding run_remaining n_remaining
  run_remaining-IsAdvanced study bound = elim (Bool-cases (ltb 0 (n_trials - n_complete study))) [
    | inl e ↦
        let left = ltb→lt 0 (n_trials - n_complete study) e in
        let h = documented (n_trials - n_complete study) study in
        let few = completes-le objective h.new (length study) in
        rw e (
          some_more h.new (h.some_new left) h.size h.completed
            (omega (arith, left, h.completed, few, h.at_most, bound)))
    | inr e ↦ let done : n_complete study ≡ n_trials = ground arith in rw e (all_done done refl)
  ]

  -- After so many runs, all is done or so many trials have been added at least.
  resume-progress :
      (runs : ℕ) (study : List TrialState)
      → n_complete study ≤ n_trials
      → let after = resume optimize n_trials runs study in
        (n_complete after ≤ n_trials)
        × ((n_complete after ≡ n_trials)
            ⊎ ((k : ℕ) × (runs ≤ k)
                × (n_complete after ≡ n_complete study + completes objective k (length study))))
  unfolding resume
  resume-progress zero study bound = (bound, inr (0, omega arith, omega arith))
  resume-progress (suc runs) study bound = elim (run_remaining-IsAdvanced study bound) [
    | all_done done same ↦
        let h = resume-progress runs (run_remaining optimize n_trials study).1 (rw same bound) in
        let same' = ap n_complete same in
        (h.0, elim h.1 [ inl e ↦ inl e | inr (k, _, e) ↦ inl (omega (arith, h.0, e, same', done)) ])
    | some_more new positive size completed bound' ↦
        let h = resume-progress runs (run_remaining optimize n_trials study).1 bound' in
        (
          h.0,
          elim h.1 [
            | inl e ↦ inl e
            | inr (k, many, e) ↦
                let parts = completes-add objective new k (length study) in
                let e' = rw size at e in
                inr (new + k, omega (arith, many, positive), omega (arith, e', completed, parts))
          ],
        )
  ]

-- If `study.optimize` does as documented, each row of `window` trials has one that ends with a value,
-- and the study has no more completed trials than it is to have, then running the script
-- `n_trials * window` times or more, however the runs end, leaves exactly `n_trials` completed ones.
pub resume_complete :
    (objective : ℕ → Outcome) (optimize : ℕ → List TrialState → RunEnd × List TrialState)
    → IsOptimizer objective optimize
    → (window : ℕ) → HasProgress objective window
    → (n_trials : ℕ) (study : List TrialState) → n_complete study ≤ n_trials
    → (runs : ℕ) → n_trials * window ≤ runs
    → n_complete (resume optimize n_trials runs study) ≡ n_trials
resume_complete objective optimize documented window progress n_trials study bound runs enough =
    let h = resume-progress objective optimize documented n_trials runs study bound in
    elim h.1 [
      | inl e ↦ e
      | inr (k, many, e) ↦
          let all =
            completes-enough objective window progress n_trials k (length study)
              (omega (arith, many, enough)) in
          omega (arith, h.0, e, all)
    ]
