-- ===== src/Tuning/Space.antt =====
-- training/src/tune.py and monitoring/scripts/train_challenger.py: parameters and the values that a
-- trial suggests for them. A dict is the list of its items, in their order.
use fraud_ml_platform.Shared.{ℕ, String, Bool, List, [], ◌∷◌, str_eq, if◌then◌else◌, FloatOps, ℤ}

pub data ParamValue (F : Type 0) : Type 0 where
  text : String → ParamValue F
  integer : ℤ → ParamValue F
  number : F → ParamValue F

abbrev pub Params : Type 0 → Type 0
Params F = List (String × ParamValue F)

-- `{**params, key: value}`
unfoldable pub assign : {F : Type 0} → String → ParamValue F → Params F → Params F
assign key value [] = (key, value) ∷ []
assign key value ((k, v) ∷ params) =
    if str_eq k key then (k, value) ∷ params else (k, v) ∷ assign key value params

-- What a trial is asked for with a name: `suggest_int` with its bounds, and a step, and `suggest_float` with its
-- bounds and `log`.
pub data Suggestion (F : Type 0) : Type 0 where
  suggest_int : ℕ → ℕ → Suggestion F
  suggest_int_step : ℕ → ℕ → ℕ → Suggestion F
  suggest_float : F → F → Bool → Suggestion F

-- A quotient of two integers; a decimal literal is rounded to the same number.
abbrev pub ratio : {F : Type 0} → FloatOps F → ℕ → ℕ → F
ratio ops a b = ops.fdiv (ops.of_nat a) (ops.of_nat b)
