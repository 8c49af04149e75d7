-- ===== src/Canary/Audit.antt =====
-- What a round, and a run of the loop, leave in the tables and in the list of requests.
use mathlib.Core.List.{append-nil, append_assoc}
use fraud_ml_platform.Shared.{
  ◌≤◌, ◌≡◌, refl, sym, ap, ◌∙◌, subst, ◌⊎◌, inl, inr, true, false, none, List, [], ◌∷◌, ◌++◌, arith,
  Bool-cases, length, All, length-append, FloatOps, ok, Result-cases,
}
use fraud_ml_platform.Canary.Evaluator.{evaluate_canary}
use fraud_ml_platform.Canary.Rollout.{
  Job, RolloutConfig, Tick, canary_active, inactive_decision, apply_decision, next_decision,
  record_and_apply, iterate, run_loop,
}
use fraud_ml_platform.Canary.Types.{
  Decision, promote, continue, promoted, CanaryDecision, CanaryRow, MetricFunctions,
}
use fraud_ml_platform.Canary.Verdicts.{Agrees, evaluate_canary-outcome}

module _ {F : Type 0} (fl : FloatOps F) (sk : MetricFunctions F) (cfg : RolloutConfig F) where
  abbrev pub row_of : Tick F → CanaryDecision F → CanaryRow F
  row_of t d = record {
    champion_version = cfg.canary.champion_version;
    challenger_version = cfg.canary.challenger_version;
    verdict = d;
    created_at = t.now;
  }

  decisions-apply_decision :
      (t : Tick F) (d : Decision) (job : Job F)
      → (apply_decision fl sk cfg t d job).1.decisions ≡ job.decisions
  unfolding apply_decision
  decisions-apply_decision t promote job = ground arith
  decisions-apply_decision t d job = ground arith

  abbrev pub with_row : Tick F → CanaryDecision F → Job F → Job F
  with_row t d job = record job { decisions = job.decisions ++ row_of t d ∷ [] }

  pub iterate-saved :
      (t : Tick F) (job : Job F) (d : CanaryDecision F)
      → next_decision fl sk cfg t job ≡ ok d
      → t.decision_saved ≡ true
      → iterate fl sk cfg t job ≡ (apply_decision fl sk cfg t d.decision (with_row t d job)).1
  unfolding iterate record_and_apply
  iterate-saved t job d e saved = ground (arith, e, saved)

  pub iterate-cases :
      (t : Tick F) (job : Job F)
      → (iterate fl sk cfg t job ≡ job)
        ⊎ ((d : CanaryDecision F) × (next_decision fl sk cfg t job ≡ ok d)
            × (t.decision_saved ≡ true)
            × (iterate fl sk cfg t job
                ≡ (apply_decision fl sk cfg t d.decision (with_row t d job)).1))
  unfolding iterate record_and_apply
  iterate-cases t job = elim (Result-cases (next_decision fl sk cfg t job)) [
    | inr (x, e) ↦ inl (ground (arith, e))
    | inl (d, e) ↦ elim (Bool-cases t.decision_saved) [
      | inr lost ↦ inl (ground (arith, e, lost))
      | inl saved ↦ inr (d, e, saved, iterate-saved t job d e saved)
    ]
  ]

  apply_decision-continue :
      (t : Tick F) (d : Decision) (job : Job F)
      → d ≡ continue
      → (apply_decision fl sk cfg t d job).1 ≡ job
  unfolding apply_decision
  apply_decision-continue t d job e = ground (arith, e)

  pub next_decision-promote :
      (t : Tick F) (job : Job F) {d : CanaryDecision F}
      → next_decision fl sk cfg t job ≡ ok d
      → d.decision ≡ promote
      → evaluate_canary fl sk cfg.canary t.predictions t.labels job.decisions none t.now t.fresh_id
        ≡ ok d
  unfolding next_decision inactive_decision
  next_decision-promote t job h e = elim (Bool-cases (canary_active t.router_answer)) [
    | inl active ↦ rw active at h
    | inr off ↦ ground (arith, off)
  ]

  -- The outcome of a decision to promote.
  pub next_decision-promoted :
      (t : Tick F) (job : Job F) (d : CanaryDecision F)
      → next_decision fl sk cfg t job ≡ ok d
      → d.decision ≡ promote
      → d.outcome ≡ promoted
  next_decision-promoted t job d h e =
      let asked = next_decision-promote t job h e in
      let agrees =
        (evaluate_canary-outcome fl sk cfg.canary t.predictions t.labels job.decisions none t.now
          t.fresh_id asked).0 in
      subst (λ c. Agrees c d.outcome) e agrees

  -- A round that changes anything has appended the row of its own decision, at its own time, and
  -- nothing else, to the decisions. If that decision is to continue, this is all that it changed: the
  -- registry and the list of requests stay as they were.
  pub iterate-audit :
      (t : Tick F) (job : Job F)
      → (iterate fl sk cfg t job ≡ job)
        ⊎ ((d : CanaryDecision F) × (next_decision fl sk cfg t job ≡ ok d)
            × ((iterate fl sk cfg t job).decisions ≡ job.decisions ++ row_of t d ∷ [])
            × (d.decision ≡ continue → iterate fl sk cfg t job ≡ with_row t d job))
  iterate-audit t job = elim (iterate-cases t job) [
    | inl same ↦ inl same
    | inr (d, e, saved, done) ↦ inr (
      d,
      e,
      ap (λ (j : Job F). j.decisions) done
          ∙ decisions-apply_decision t d.decision (with_row t d job),
      λ c. done ∙ apply_decision-continue t d.decision (with_row t d job) c,
    )
  ]

  iterate-extends :
      (t : Tick F) (job : Job F)
      → (rows : List (CanaryRow F)) × ((iterate fl sk cfg t job).decisions ≡ job.decisions ++ rows)
        × (length rows ≤ 1)
        × All (λ r. r.created_at ≡ t.now) rows
  iterate-extends t job = elim (iterate-audit t job) [
    | inl same ↦
        ([], ap (λ (j : Job F). j.decisions) same ∙ sym (append-nil job.decisions), omega arith, tt)
    | inr (d, e, rows, _) ↦ (row_of t d ∷ [], rows, omega arith, (refl, tt))
  ]

  -- A signal ends the loop after the round in which it arrives.
  pub run_loop-stopped :
      (t : Tick F) (ts : List (Tick F)) (job : Job F)
      → t.stopped ≡ true
      → run_loop fl sk cfg (t ∷ ts) job ≡ iterate fl sk cfg t job
  unfolding run_loop
  run_loop-stopped t ts job h = ground (arith, h)

  pub run_loop-next :
      (t : Tick F) (ts : List (Tick F)) (job : Job F)
      → t.stopped ≡ false
      → run_loop fl sk cfg (t ∷ ts) job ≡ run_loop fl sk cfg ts (iterate fl sk cfg t job)
  unfolding run_loop
  run_loop-next t ts job h = ground (arith, h)

  -- The loop only appends to the decisions, at most one row for each round.
  pub run_loop-appends :
      (ts : List (Tick F)) (job : Job F)
      → (rows : List (CanaryRow F)) × ((run_loop fl sk cfg ts job).decisions
          ≡ job.decisions ++ rows)
        × (length rows ≤ length ts)
  unfolding run_loop
  run_loop-appends [] job = ([], sym (append-nil job.decisions), omega arith)
  run_loop-appends (t ∷ ts) job =
      let (first, e, one, _) = iterate-extends t job in
      let (others, e', most) = run_loop-appends ts (iterate fl sk cfg t job) in
      elim (Bool-cases t.stopped) [
        | inl stop ↦ (
          first,
          ap (λ (j : Job F). j.decisions) (run_loop-stopped t ts job stop) ∙ e,
          omega arith,
        )
        | inr go ↦ (
          first ++ others,
          ap (λ (j : Job F). j.decisions) (run_loop-next t ts job go)
              ∙ e'
              ∙ ap (λ (l : List (CanaryRow F)). l ++ others) e
              ∙ append_assoc job.decisions first others,
          omega (arith, length-append first others),
        )
      ]
