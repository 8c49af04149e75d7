-- ===== src/Tuning/Trials.antt =====
-- What a run of `study.optimize` adds to a study, as far as optuna documents it, and a run that tries
-- one trial after the other, which does.
use fraud_ml_platform.Shared.{
  ℕ, zero, suc, ◌+◌, ◌≤◌, ◌≡◌, refl, ap, ◌∙◌, ◌≢◌, List, [], ◌∷◌, ◌++◌, arith, length, keep_if,
  length-append, keep_if-append, Exception,
}
use fraud_ml_platform.Tuning.Study.{
  complete, TrialState, pruned, fail, running, RunEnd, finished, interrupted, stopped, is_complete,
  n_complete,
}

-- How the objective ends on a trial: with a value, with one that is not a number, with
-- `optuna.TrialPruned`, with another exception, or never, because the process is killed.
pub data Outcome : Type 0 where
  returned not_a_number trial_pruned killed : Outcome
  raised : Exception → Outcome

-- 1 for an outcome that leaves the trial complete.
abbrev pub counted : Outcome → ℕ
counted returned = 1
counted _ = 0

pub n_complete-append :
    (study more : List TrialState) → n_complete (study ++ more) ≡ n_complete study + n_complete more
unfolding n_complete
n_complete-append study more =
    ap length (keep_if-append is_complete study more)
    ∙ length-append (keep_if is_complete study) (keep_if is_complete more)

-- The completed trials among so many numbers, from one on.
abbrev pub completes : (ℕ → Outcome) → ℕ → ℕ → ℕ
completes objective zero i = 0
completes objective (suc n) i = counted (objective i) + completes objective n (i + 1)

pub completes-add :
    (objective : ℕ → Outcome) (a b i : ℕ)
    → completes objective (a + b) i ≡ completes objective a i + completes objective b (i + a)
completes-add objective zero b i =
    let e : 0 + b ≡ b = omega arith in let e' : i + 0 ≡ i = omega arith in rw (e, e') (omega arith)
completes-add objective (suc a) b i =
    let rest = completes-add objective a b (i + 1) in
    let e : suc a + b ≡ suc (a + b) = omega arith in
    let e' : (i + 1) + a ≡ i + suc a = omega arith in rw (e, ← e') (omega (arith, rest))

pub completes-le : (objective : ℕ → Outcome) (a i : ℕ) → completes objective a i ≤ a
completes-le objective zero i = omega arith
completes-le objective (suc a) i = ground (arith, completes-le objective a (i + 1))

-- A run adds some trials, at most as many as it is to, all of them if it finishes, and at least one;
-- the completed ones are those of their numbers.
pub record IsExtended (objective : ℕ → Outcome) (n : ℕ) (before : List TrialState)
    (run : RunEnd × List TrialState) : Type 0 where
  pub new : ℕ
  pub at_most : new ≤ n
  pub whole : run.0 ≡ finished → new ≡ n
  pub some_new : 1 ≤ n → 1 ≤ new
  pub size : length run.1 ≡ length before + new
  pub completed : n_complete run.1 ≡ n_complete before + completes objective new (length before)

-- The trials are run one after the other, each with its number in the study; the exception that
-- prunes a trial is caught, any other one ends the run.
unfoldable pub in_order : (ℕ → Outcome) → ℕ → List TrialState → RunEnd × List TrialState
in_order objective zero study = (finished, study)
in_order objective (suc n) study =
    let tried = λ (state : TrialState). in_order objective n (study ++ state ∷ []) in
    elim (objective (length study)) [
      | returned ↦ tried complete
      | not_a_number ↦ tried fail
      | trial_pruned ↦ tried pruned
      | killed ↦ (interrupted, study ++ running ∷ [])
      | raised e ↦ (stopped e, study ++ fail ∷ [])
    ]

in_order-step :
    (objective : ℕ → Outcome) (n : ℕ) (study : List TrialState) (state : TrialState)
    → n_complete (state ∷ []) ≡ counted (objective (length study))
    → IsExtended objective n (study ++ state ∷ []) (in_order objective n (study ++ state ∷ []))
    → IsExtended objective (suc n) study (in_order objective n (study ++ state ∷ []))
in_order-step objective n study state one h =
    let l = length-append study (state ∷ []) in
    let c = n_complete-append study (state ∷ []) in
    let l' : length (study ++ state ∷ []) ≡ length study + 1 = omega (arith, l) in
    let done = rw l' at h.completed in
    record {
      new = suc h.new;
      at_most = omega (arith, h.at_most);
      whole = λ e. omega (arith, h.whole e);
      some_new = λ _. omega arith;
      size = omega (arith, h.size, l);
      completed = omega (arith, done, c, one);
    }

-- A trial that ends the run.
in_order-last :
    (objective : ℕ → Outcome) (n : ℕ) (study : List TrialState) (state : TrialState) (end : RunEnd)
    → n_complete (state ∷ []) ≡ 0
    → counted (objective (length study)) ≡ 0
    → end ≢ finished
    → IsExtended objective (suc n) study (end, study ++ state ∷ [])
in_order-last objective n study state end one zero_new unfinished = record {
  new = 1;
  at_most = omega arith;
  whole = λ e. absurd (unfinished e);
  some_new = λ _. omega arith;
  size = omega (arith, length-append study (state ∷ []));
  completed = omega (arith, n_complete-append study (state ∷ []), one, zero_new);
}

-- The case of each outcome, given what the rest of the run does.
in_order-outcome :
    (objective : ℕ → Outcome) (n : ℕ) (study : List TrialState)
    → ((state : TrialState)
        → IsExtended objective n (study ++ state ∷ []) (in_order objective n (study ++ state ∷ [])))
    → (o : Outcome) → objective (length study) ≡ o
    → IsExtended objective (suc n) study (elim o as (λ _. RunEnd × List TrialState) [
      | returned ↦ in_order objective n (study ++ complete ∷ [])
      | not_a_number ↦ in_order objective n (study ++ fail ∷ [])
      | trial_pruned ↦ in_order objective n (study ++ pruned ∷ [])
      | killed ↦ (interrupted, study ++ running ∷ [])
      | raised e ↦ (stopped e, study ++ fail ∷ [])
    ])
unfolding n_complete
in_order-outcome objective n study rest returned h =
    in_order-step objective n study complete (rw h refl) (rest complete)
in_order-outcome objective n study rest not_a_number h =
    in_order-step objective n study fail (rw h refl) (rest fail)
in_order-outcome objective n study rest trial_pruned h =
    in_order-step objective n study pruned (rw h refl) (rest pruned)
in_order-outcome objective n study rest killed h =
    in_order-last objective n study running interrupted refl (rw h refl) (λ e. cc)
in_order-outcome objective n study rest (raised x) h =
    in_order-last objective n study fail (stopped x) refl (rw h refl) (λ e. cc)

pub in_order-IsExtended :
    (objective : ℕ → Outcome) (n : ℕ) (study : List TrialState)
    → IsExtended objective n study (in_order objective n study)
unfolding in_order
in_order-IsExtended objective zero study = record {
  new = 0;
  at_most = omega arith;
  whole = λ e. refl;
  some_new = λ h. absurd (omega arith);
  size = omega arith;
  completed = omega arith;
}
in_order-IsExtended objective (suc n) study =
    in_order-outcome objective n study
      (λ state. in_order-IsExtended objective n (study ++ state ∷ [])) (objective (length study))
      refl
