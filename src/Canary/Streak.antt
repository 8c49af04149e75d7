-- ===== src/Canary/Streak.antt =====
-- monitoring/canary/evaluator.py: the count of consecutive improving runs.
use mathlib.Core.List.{reverse}
use fraud_ml_platform.Shared.{
  ℕ, suc, String, Bool, ◌&&◌, Option, none, some, List, [], ◌∷◌, map, str_eq, ltb, if◌then◌else◌,
  take, keep_if,
}
use fraud_ml_platform.Canary.Types.{Outcome, improving, CanaryRow}

-- The `for ... break` loop over outcomes.
unfoldable pub count_improving : List Outcome → ℕ
count_improving (improving ∷ os) = suc (count_improving os)
count_improving _ = 0

module _ {F : Type 0} where
  -- ORDER BY created_at DESC
  unfoldable pub insert_newest : CanaryRow F → List (CanaryRow F) → List (CanaryRow F)
  insert_newest r [] = r ∷ []
  insert_newest r (x ∷ xs) =
      if ltb r.created_at x.created_at then x ∷ insert_newest r xs else r ∷ x ∷ xs

  unfoldable pub newest_first : List (CanaryRow F) → List (CanaryRow F)
  unfolding insert_newest
  newest_first [] = []
  newest_first (r ∷ rs) = insert_newest r (newest_first rs)

  -- `WHERE champion_version = .. AND challenger_version = ..`
  abbrev pub of_pair : String → String → CanaryRow F → Bool
  of_pair champ chall r = str_eq r.champion_version champ && str_eq r.challenger_version chall

  abbrev pub outcome_of : CanaryRow F → Outcome
  outcome_of r = r.verdict.outcome

  -- LIMIT 10
  unfoldable pub recent_outcomes : String → String → List (CanaryRow F) → List Outcome
  recent_outcomes champ chall table =
      map outcome_of (take 10 (newest_first (keep_if (of_pair champ chall) table)))

  -- The argument `prior_outcomes`, oldest first, replaces the query if it is given.
  unfoldable pub count_consecutive_improvements :
      String → String → Option (List Outcome) → List (CanaryRow F) → ℕ
  count_consecutive_improvements champ chall (some prior) table = count_improving (reverse prior)
  count_consecutive_improvements champ chall none table =
      count_improving (recent_outcomes champ chall table)
