-- ===== src/Pipeline/Runs.antt =====
-- How a run of the chosen steps goes.
use fraud_ml_platform.Shared.{
  String, ◌≡◌, refl, ap, ◌∙◌, ◌⊎◌, inl, inr, List, [], ◌∷◌, ◌++◌, map, arith, All, Exception,
  Result, ok, raise, Result-cases,
}
use fraud_ml_platform.Pipeline.Steps.{Step, Exit, complete, failed_at, run_steps}

module _ (run_module : String → Result (Unit {0})) where
  abbrev pub Succeeds : Step → Type 0
  Succeeds s = run_module s.1 ≡ ok tt

  abbrev pub modules_of : List Step → List String
  modules_of = map (λ s. s.1)

  -- Every step ran and succeeded.
  pub record IsFinished (steps : List Step) (called : List String) : Type 0 where
    pub all : All Succeeds steps
    pub in_order : called ≡ modules_of steps

  -- The first failing step is `failing`; the steps before it succeeded, and those behind it were not
  -- called.
  pub record IsStopped (steps : List Step) (called : List String) (name : String) : Type 0 where
    pub done : List Step
    pub failing : Step
    pub left : List Step
    pub error : Exception
    pub split : steps ≡ done ++ failing ∷ left
    pub succeeded : All Succeeds done
    pub failed : run_module failing.1 ≡ raise error
    pub named : failing.0 ≡ name
    pub in_order : called ≡ modules_of done ++ failing.1 ∷ []

  run_steps-ok :
      (s : Step) (rest : List Step) (u : Unit {0})
      → run_module s.1 ≡ ok u
      → run_steps run_module (s ∷ rest)
        ≡ (s.1 ∷ (run_steps run_module rest).0, (run_steps run_module rest).1)
  unfolding run_steps
  run_steps-ok s rest u h = ground (arith, h)

  run_steps-raise :
      (s : Step) (rest : List Step) (e : Exception)
      → run_module s.1 ≡ raise e
      → run_steps run_module (s ∷ rest) ≡ (s.1 ∷ [], failed_at s.0)
  unfolding run_steps
  run_steps-raise s rest e h = ground (arith, h)

  -- A run calls the modules of its steps in order and reports completion exactly when all of them
  -- succeed; otherwise it stops at the first step that fails and reports that step's name.
  pub run_steps-cases :
      (steps : List Step)
      → (((run_steps run_module steps).1 ≡ complete)
          × IsFinished steps (run_steps run_module steps).0)
        ⊎ ((name : String) × ((run_steps run_module steps).1 ≡ failed_at name)
            × IsStopped steps (run_steps run_module steps).0 name)
  run_steps-cases [] = unfold run_steps in inl (refl, record { all = tt; in_order = refl })
  run_steps-cases (s ∷ rest) = elim (Result-cases (run_module s.1)) [
    | inr (e, h) ↦
        let stop = run_steps-raise s rest e h in
        inr (
          s.0,
          ap (λ (r : List String × Exit). r.1) stop,
          record {
            done = [];
            failing = s;
            left = rest;
            error = e;
            split = refl;
            succeeded = tt;
            failed = h;
            named = refl;
            in_order = ap (λ (r : List String × Exit). r.0) stop;
          },
        )
    | inl (u, h) ↦
        let next = run_steps-ok s rest u h in
        let calls = ap (λ (r : List String × Exit). r.0) next in
        let exit = ap (λ (r : List String × Exit). r.1) next in
        elim (run_steps-cases rest) [
          | inl (e, f) ↦ inl (
            exit ∙ e,
            record { all = (h, f.all); in_order = calls ∙ ap (λ l. s.1 ∷ l) f.in_order },
          )
          | inr (name, e, f) ↦ inr (
            name,
            exit ∙ e,
            record {
              done = s ∷ f.done;
              failing = f.failing;
              left = f.left;
              error = f.error;
              split = ap (λ l. s ∷ l) f.split;
              succeeded = (h, f.succeeded);
              failed = f.failed;
              named = f.named;
              in_order = calls ∙ ap (λ l. s.1 ∷ l) f.in_order;
            },
          )
        ]
  ]
