-- ===== src/Drift/Counts.antt =====
-- What the buckets of hashes count.
use fraud_ml_platform.Shared.{
  ℕ, ◌+◌, ◌<◌, String, ◌≡◌, refl, sym, ◌∙◌, ◌≢◌, inl, inr, none, some, List, [], ◌∷◌, arith, ◌==◌,
  ==_iff, Bool-cases, Option-cases, length, keep_if, replicate, length-replicate, sum, item,
  increment, length-increment, sum-increment, item-increment_same, item-increment_other, sum-zeros,
  item-zeros, codes, Exception, ok, raise,
}
use fraud_ml_platform.Drift.Buckets.{
  n_buckets, first_two, bucket_of, count_hashes, bucket_counts, falls_in, is_counted, bucket-bounds,
}

abbrev pub IsTally : List String → List ℕ → List ℕ → Type 0
IsTally hashes before after =
    (length after ≡ length before)
    × (sum after ≡ length (keep_if is_counted hashes) + sum before)
    × ((i : ℕ) → item i after ≡ length (keep_if (falls_in i) hashes) + item i before)

count_hashes-skip :
    (h : String) (hashes : List String) (tally : List ℕ)
    → bucket_of h ≡ none
    → count_hashes (h ∷ hashes) tally ≡ count_hashes hashes tally
unfolding count_hashes
count_hashes-skip h hashes tally e = ground (arith, e)

count_hashes-count :
    (h : String) (hashes : List String) (tally : List ℕ) (i : ℕ)
    → bucket_of h ≡ some (ok i)
    → count_hashes (h ∷ hashes) tally ≡ count_hashes hashes (increment i tally)
unfolding count_hashes
count_hashes-count h hashes tally i e = ground (arith, e)

count_hashes-raise :
    (h : String) (hashes : List String) (tally : List ℕ) (e : Exception)
    → bucket_of h ≡ some (raise e)
    → count_hashes (h ∷ hashes) tally ≡ raise e
unfolding count_hashes
count_hashes-raise h hashes tally e eq = ground (arith, eq)

bucket_of-bounds : (h : String) (i : ℕ) → bucket_of h ≡ some (ok i) → i < n_buckets
bucket_of-bounds h i e = elim (Option-cases (first_two (codes h))) [
  | inl a ↦ ground (arith, e, a)
  | inr ((c, d), a) ↦ bucket-bounds c d i (ground (arith, e, a))
]

-- One more hash, counted in one bucket.
IsTally-count :
    (h : String) (hashes : List String) (tally after : List ℕ) (i : ℕ)
    → bucket_of h ≡ some (ok i)
    → i < length tally
    → IsTally hashes (increment i tally) after
    → IsTally (h ∷ hashes) tally after
IsTally-count h hashes tally after i e short (l, s, each) = (
  omega (arith, l, length-increment i tally),
  ground (arith, s, sum-increment i tally short, e),
  λ j. elim (Bool-cases (j == i)) [
    | inl same ↦
        let eq : j ≡ i = (==_iff j i).0 same in
        ground (arith, each j, e, eq, item-increment_same i tally short)
    | inr other ↦
        let ne : j ≢ i = ground (arith, other) in
        ground (arith, each j, e, other, item-increment_other j i tally ne)
  ],
)

count_hashes-nil : (tally after : List ℕ) → count_hashes [] tally ≡ ok after → tally ≡ after
unfolding count_hashes
count_hashes-nil tally after h = cc

count_hashes-IsTally :
    (hashes : List String) (tally after : List ℕ)
    → length tally ≡ n_buckets
    → count_hashes hashes tally ≡ ok after
    → IsTally hashes tally after
count_hashes-IsTally [] tally after l h =
    let e = count_hashes-nil tally after h in
    (rw e refl, rw e (omega arith), λ i. rw e (omega arith))
count_hashes-IsTally (x ∷ hashes) tally after l h = elim (Option-cases (bucket_of x)) [
  | inl a ↦
      let (m, s, each) =
        count_hashes-IsTally hashes tally after l (sym (count_hashes-skip x hashes tally a) ∙ h) in
      (m, ground (arith, s, a), λ i. ground (arith, each i, a))
  | inr (raise e, a) ↦ absurd (ground (arith, count_hashes-raise x hashes tally e a, h))
  | inr (ok i, a) ↦
      let short = bucket_of-bounds x i a in
      IsTally-count x hashes tally after i a (omega arith) (
        count_hashes-IsTally hashes (increment i tally) after (length-increment i tally ∙ l)
          (sym (count_hashes-count x hashes tally i a) ∙ h))
]

-- If every hash that is counted starts with what `int` reads, there are 256 counts: each is the
-- number of the hashes that fall in its bucket, and together they are the number of those that are
-- counted.
pub bucket_counts-tally :
    (hashes : List String) (tally : List ℕ)
    → bucket_counts hashes ≡ ok tally
    → (length tally ≡ 256)
      × (sum tally ≡ length (keep_if is_counted hashes))
      × ((i : ℕ) → item i tally ≡ length (keep_if (falls_in i) hashes))
unfolding bucket_counts
bucket_counts-tally hashes tally h =
    let full = length-replicate {A = ℕ} n_buckets 0 in
    let (l, s, each) = count_hashes-IsTally hashes (replicate n_buckets 0) tally full h in
    (
      l ∙ full,
      omega (arith, s, sum-zeros n_buckets),
      λ i. omega (arith, each i, item-zeros i n_buckets),
    )
