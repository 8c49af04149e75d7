-- ===== src/Training/Features.antt =====
-- training/src/features.py: the features of the clock and of the two e-mail domains, for one row.
-- TransactionDT is a number of seconds that is not negative; a missing text is none.
use mathlib.Core.List.{append-nil, append_assoc}
use fraud_ml_platform.Shared.{
  ℕ, ◌+◌, ◌*◌, ◌/◌, ◌%◌, ◌≤◌, ◌<◌, String, ◌≡◌, refl, sym, ap, ◌∙◌, ◌≢◌, ◌↔◌, ◌⊎◌, inl, inr, Bool,
  true, false, ◌||◌, Option, none, some, List, [], ◌∷◌, ◌++◌, arith, str_eq, str_eq_iff, ◌==◌,
  if◌then◌else◌, ==_iff, Bool-cases, All, All-append,
}

pub record TimeFeatures : Type 0 where
  pub hour : ℕ
  pub day_of_week : ℕ
  pub day : ℕ

unfoldable pub engineer_time_features : ℕ → TimeFeatures
engineer_time_features dt = record {
  hour = (dt / 3600) % 24;
  day_of_week = (dt / 86400) % 7;
  day = dt / 86400;
}

-- The features determine the hour of the transaction: the day, the hour of the day and the day of
-- the week are those of its second, and the first two give the second up to less than an hour.
pub engineer_time_features-clock :
    (dt : ℕ)
    → let f = engineer_time_features dt in
      (f.hour < 24)
      × (f.day_of_week < 7)
      × (f.day_of_week ≡ f.day % 7)
      × (f.day * 86400 + f.hour * 3600 ≤ dt)
      × (dt < f.day * 86400 + f.hour * 3600 + 3600)
unfolding engineer_time_features
engineer_time_features-clock dt = (omega arith, omega arith, refl, omega arith, omega arith)

-- `s.split(".")[-1]`, on code points: what stands behind the last full stop.
unfoldable pub tld_from : List ℕ → List ℕ → List ℕ
tld_from part [] = part
tld_from part (c ∷ cs) = if c == b'.' then tld_from [] cs else tld_from (part ++ c ∷ []) cs

abbrev pub tld : List ℕ → List ℕ
tld = tld_from []

-- What stands behind the last full stop has none itself.
abbrev pub HasNoStop : List ℕ → Type 0
HasNoStop = All (λ c. c ≢ b'.')

tld_from-HasNoStop : (part cs : List ℕ) → HasNoStop part → HasNoStop (tld_from part cs)
unfolding tld_from
tld_from-HasNoStop part [] h = h
tld_from-HasNoStop part (c ∷ cs) h = elim (Bool-cases (c == b'.')) [
  | inl e ↦ rw e (tld_from-HasNoStop [] cs tt)
  | inr e ↦ rw e (
      tld_from-HasNoStop (part ++ c ∷ []) cs
        (All-append (λ x. x ≢ b'.') part (c ∷ []) h (ground (arith, e), tt)))
]

tld_from-suffix :
    (part cs : List ℕ)
    → (front : List ℕ) × ((part ++ cs ≡ tld_from part cs)
        ⊎ (part ++ cs ≡ front ++ b'.' ∷ tld_from part cs))
unfolding tld_from
tld_from-suffix part [] = ([], inl (append-nil part))
tld_from-suffix part (c ∷ cs) = elim (Bool-cases (c == b'.')) [
  | inl e ↦
      let dot : c ≡ b'.' = (==_iff c b'.').0 e in
      let (front, s) = tld_from-suffix [] cs in
      elim s [
        | inl whole ↦
            (part, inr (rw e (ap (λ x. part ++ x ∷ cs) dot ∙ ap (λ l. part ++ b'.' ∷ l) whole)))
        | inr behind ↦ (
          part ++ b'.' ∷ front,
          inr (
              rw e (
                ap (λ x. part ++ x ∷ cs) dot
                ∙ ap (λ l. part ++ b'.' ∷ l) behind
                ∙ sym (append_assoc part (b'.' ∷ front) (b'.' ∷ tld_from [] cs)))),
        )
      ]
  | inr e ↦
      let (front, s) = tld_from-suffix (part ++ c ∷ []) cs in
      let shift = append_assoc part (c ∷ []) cs in
      elim s [
        | inl whole ↦ (front, inl (rw e (sym shift ∙ whole)))
        | inr behind ↦ (front, inr (rw e (sym shift ∙ behind)))
      ]
]

-- The top-level domain has no full stop, and the domain is it alone or ends in a full stop and it.
pub tld-suffix :
    (cs : List ℕ)
    → HasNoStop (tld cs) × ((front : List ℕ) × ((cs ≡ tld cs) ⊎ (cs ≡ front ++ b'.' ∷ tld cs)))
tld-suffix cs = (tld_from-HasNoStop [] cs tt, tld_from-suffix [] cs)

abbrev pub fill_missing : Option String → String
fill_missing none = "__missing__"
fill_missing (some s) = s

abbrev pub is_null : Option String → Bool
is_null none = true
is_null (some s) = false

-- The second domain is none where the table has no column R_emaildomain.
unfoldable pub email_match : Option String → Option (Option String) → ℕ
email_match p none =
    let same = if str_eq (fill_missing p) "__missing__" then 1 else 0 in
    if is_null p then 0 else same
email_match p (some r) =
    let same = if str_eq (fill_missing p) (fill_missing r) then 1 else 0 in
    if is_null p || is_null r then 0 else same

-- With both columns, the feature is 1 exactly when both domains are there and are the same text, and
-- 0 otherwise.
pub email_match_iff :
    (p r : Option String)
    → ((email_match p (some r) ≡ 1) ↔ ((s : String) × (p ≡ some s) × (r ≡ some s)))
      × ((email_match p (some r) ≡ 0) ⊎ (email_match p (some r) ≡ 1))
unfolding email_match
email_match_iff none r =
    ((λ e. absurd (omega arith), λ (s, a, b). absurd (ground (arith, a))), inl refl)
email_match_iff (some p) none =
    ((λ e. absurd (omega arith), λ (s, a, b). absurd (ground (arith, b))), inl refl)
email_match_iff (some p) (some r) = elim (Bool-cases (str_eq p r)) [
  | inl e ↦ rw e ((λ _. (p, refl, ap some (sym ((str_eq_iff p r).0 e))), λ _. refl), inr refl)
  | inr e ↦ rw e (
    (λ z. absurd (omega arith), λ (s, a, b). absurd (ground (arith, e, a, b, str_eq_iff p r))),
    inl refl,
  )
]
