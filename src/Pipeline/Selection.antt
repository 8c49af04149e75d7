-- ===== src/Pipeline/Selection.antt =====
-- Which steps the flags choose.
use fraud_ml_platform.Shared.{
  ℕ, zero, suc, String, ◌≡◌, refl, sym, ap, ◌∙◌, ◌≢◌, inl, inr, Bool, true, false, not, ◌&&◌,
  Option, none, some, List, [], ◌∷◌, arith, str_eq, str_eq_iff, ltb, Bool-cases, length, take, drop,
  keep_if, any_of, All, take-all,
}
use fraud_ml_platform.Pipeline.Steps.{Step, step_names, Flags, index, select_steps}

-- The names of the steps are different.
abbrev pub HasDistinctNames : List Step → Type 0
HasDistinctNames [] = Unit
HasDistinctNames (s ∷ ss) = All (λ t. t.0 ≢ s.0) ss × HasDistinctNames ss

abbrev pub distinct_names : List Step → Bool
distinct_names [] = true
distinct_names (s ∷ ss) = not (any_of (λ t. str_eq t.0 s.0) ss) && distinct_names ss

any_of-no_name :
    (n : String) (ss : List Step) → any_of (λ t. str_eq t.0 n) ss ≡ false → All (λ t. t.0 ≢ n) ss
any_of-no_name n [] h = tt
any_of-no_name n (s ∷ ss) h = (
  λ e. ground (arith, h, e, str_eq_iff s.0 n),
  any_of-no_name n ss (ground (arith, h, Bool-cases (str_eq s.0 n))),
)

pub distinct_names-HasDistinctNames :
    (ss : List Step) → distinct_names ss ≡ true → HasDistinctNames ss
distinct_names-HasDistinctNames [] h = tt
distinct_names-HasDistinctNames (s ∷ ss) h = (
  any_of-no_name s.0 ss (ground (arith, h, Bool-cases (any_of (λ t. str_eq t.0 s.0) ss))),
  distinct_names-HasDistinctNames ss
      (ground (arith, h, Bool-cases (any_of (λ t. str_eq t.0 s.0) ss))),
)

abbrev before : List Step → ℕ → Step → Bool
before steps end s = ltb (index (step_names steps) s.0) end

keep_if-none : (ss : List Step) (names : List Step) → keep_if (before names 0) ss ≡ []
keep_if-none [] names = refl
keep_if-none (s ∷ ss) names = ground (arith, keep_if-none ss names)

keep_if-behind :
    (x : Step) (xs ss : List Step) (end : ℕ)
    → All (λ t. t.0 ≢ x.0) ss
    → keep_if (before (x ∷ xs) (suc end)) ss ≡ keep_if (before xs end) ss
keep_if-behind x xs [] end h = refl
keep_if-behind x xs (s ∷ ss) end h =
    ground (arith, h.0, str_eq_iff x.0 s.0, keep_if-behind x xs ss end h.1)

All-drop : (P : Step → Type 0) (n : ℕ) (ss : List Step) → All P ss → All P (drop n ss)
All-drop P zero ss h = h
All-drop P (suc n) [] h = tt
All-drop P (suc n) (s ∷ ss) h = All-drop P n ss h.1

drop-nil : (n : ℕ) → drop {A = Step} n [] ≡ []
drop-nil zero = refl
drop-nil (suc n) = refl

-- The filter on positions takes a prefix.
keep_if-before :
    (start end : ℕ) (steps : List Step)
    → HasDistinctNames steps
    → keep_if (before steps end) (drop start steps) ≡ drop start (take end steps)
keep_if-before start zero steps d = keep_if-none (drop start steps) steps ∙ sym (drop-nil start)
keep_if-before zero (suc end) [] d = refl
keep_if-before (suc start) (suc end) [] d = refl
keep_if-before zero (suc end) (x ∷ xs) d =
    ground
      (arith, str_eq_iff x.0 x.0, keep_if-behind x xs xs end d.0, keep_if-before zero end xs d.1)
keep_if-before (suc start) (suc end) (x ∷ xs) d =
    keep_if-behind x xs (drop start xs) end (All-drop (λ t. t.0 ≢ x.0) start xs d.0)
    ∙ keep_if-before start end xs d.1

keep_if-absent :
    (n : String) (ss : List Step) → All (λ t. t.0 ≢ n) ss → keep_if (λ s. str_eq s.0 n) ss ≡ []
keep_if-absent n [] h = refl
keep_if-absent n (s ∷ ss) h = ground (arith, h.0, str_eq_iff s.0 n, keep_if-absent n ss h.1)

-- The filter on a name takes one place.
keep_if-only :
    (n : String) (steps : List Step)
    → HasDistinctNames steps
    → keep_if (λ s. str_eq s.0 n) steps
      ≡ drop (index (step_names steps) n) (take (suc (index (step_names steps) n)) steps)
keep_if-only n [] d = refl
keep_if-only n (x ∷ xs) d = elim (Bool-cases (str_eq x.0 n)) [
  | inl same ↦
      let absent : All (λ t. t.0 ≢ n) xs = rw (← (str_eq_iff x.0 n).0 same) d.0 in
      rw same (ap (λ l. x ∷ l) (keep_if-absent n xs absent))
  | inr other ↦ rw other (keep_if-only n xs d.1)
]

-- The first position that is run, and the first behind it that is not.
abbrev pub first_position : List Step → Flags → ℕ
first_position steps flags = elim flags.only_step [
  | some n ↦ index (step_names steps) n
  | none ↦ elim flags.from_step [ some n ↦ index (step_names steps) n | none ↦ 0 ]
]

abbrev pub past_position : List Step → Flags → ℕ
past_position steps flags = elim flags.only_step [
  | some n ↦ suc (index (step_names steps) n)
  | none ↦ elim flags.to_step [ some n ↦ suc (index (step_names steps) n) | none ↦ length steps ]
]

-- With different names for the steps, the flags choose one stretch of the list: from the position of
-- --from, or the beginning, through that of --to, or the end. The flag --only chooses the one
-- position of its name, whatever the other two flags say. The stretch is empty if --to comes first.
pub select_steps-range :
    (steps : List Step) (flags : Flags)
    → HasDistinctNames steps
    → select_steps steps flags
      ≡ drop (first_position steps flags) (take (past_position steps flags) steps)
unfolding select_steps
select_steps-range steps flags d = go flags.from_step flags.to_step flags.only_step
  where
    go :
        (f t o : Option String)
        → select_steps steps (record { from_step = f; to_step = t; only_step = o })
          ≡ drop (first_position steps (record { from_step = f; to_step = t; only_step = o })) (
              take
                (past_position steps (record { from_step = f; to_step = t; only_step = o }))
                steps)
    go f t (some n) = keep_if-only n steps d
    go none none none = sym (take-all (length steps) steps (omega arith))
    go (some n) none none =
        ap (drop (index (step_names steps) n)) (sym (take-all (length steps) steps (omega arith)))
    go none (some n) none = keep_if-before 0 (suc (index (step_names steps) n)) steps d
    go (some m) (some n) none =
        keep_if-before (index (step_names steps) m) (suc (index (step_names steps) n)) steps d
