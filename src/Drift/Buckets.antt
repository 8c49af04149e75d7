-- ===== src/Drift/Buckets.antt =====
-- monitoring/drift/js.py: the count of hashes by their first byte.
-- The 256 buckets.
use fraud_ml_platform.Shared.{
  ℕ, ◌+◌, ◌-◌, ◌*◌, ◌%◌, ◌<◌, String, ◌≡◌, inl, inr, Bool, true, false, ◌&&◌, ◌||◌, Option, none,
  some, List, [], ◌∷◌, arith, leb, ◌==◌, if◌then◌else◌, Option-cases, replicate, increment, codes,
  value_error, Result, ok, raise, ◌>>=◌,
}

abbrev pub n_buckets : ℕ
n_buckets = 256

abbrev pub between : ℕ → ℕ → ℕ → Bool
between lo hi c = leb lo c && leb c hi

abbrev pub hex_digit : ℕ → Option ℕ
hex_digit c =
    if between b'0' b'9' c
    then some (c - b'0')
    else if between b'a' b'f' c
    then some (c - b'a' + 10)
    else if between b'A' b'F' c
    then some (c - b'A' + 10)
    else none

-- The white space that `int` strips, in ASCII.
abbrev pub is_space : ℕ → Bool
is_space c = between 9 13 c || between 28 32 c

-- The place of `counts[int(h[:2], 16)]`, by the two characters of `h[:2]`. Besides two digits, `int`
-- reads one digit with a sign or a space, and a negative index tally from the end.
unfoldable pub bucket : ℕ → ℕ → Result ℕ
bucket c d = elim (hex_digit c) [
  | some x ↦ elim (hex_digit d) [
    | some y ↦ ok (16 * x + y)
    | none ↦ if is_space d then ok x else raise value_error
  ]
  | none ↦ elim (hex_digit d) [
    | some y ↦
        if is_space c || c == b'+'
        then ok y
        else if c == b'-'
        then ok ((n_buckets - y) % n_buckets)
        else raise value_error
    | none ↦ raise value_error
  ]
]

-- The two characters, where `h and len(h) >= 2`.
abbrev pub first_two : List ℕ → Option (ℕ × ℕ)
first_two (c ∷ d ∷ _) = some (c, d)
first_two _ = none

-- The bucket of a hash, if it is counted; none where the loop passes over it.
abbrev pub bucket_of : String → Option (Result ℕ)
bucket_of h = elim (first_two (codes h)) [ some (c, d) ↦ some (bucket c d) | none ↦ none ]

-- The `for` loop.
unfoldable pub count_hashes : List String → List ℕ → Result (List ℕ)
count_hashes [] tally = ok tally
count_hashes (h ∷ hashes) tally = elim (bucket_of h) [
  | some b ↦ b >>= λ i. count_hashes hashes (increment i tally)
  | none ↦ count_hashes hashes tally
]

unfoldable pub bucket_counts : List String → Result (List ℕ)
bucket_counts hashes = count_hashes hashes (replicate n_buckets 0)

-- Whether a hash is counted in a bucket, and whether it is counted at all.
abbrev pub falls_in : ℕ → String → Bool
falls_in i h = elim (bucket_of h) [ some (ok j) ↦ i == j | _ ↦ false ]

abbrev pub is_counted : String → Bool
is_counted h = elim (bucket_of h) [ some _ ↦ true | none ↦ false ]

hex_digit-bounds : (c x : ℕ) → hex_digit c ≡ some x → x < 16
hex_digit-bounds c x h = ground (arith, h)

pub bucket-bounds : (c d i : ℕ) → bucket c d ≡ ok i → i < n_buckets
unfolding bucket
bucket-bounds c d i h = elim (Option-cases (hex_digit c)) [
  | inl a ↦ elim (Option-cases (hex_digit d)) [
    | inl b ↦ ground (arith, h, a, b)
    | inr (y, b) ↦ ground (arith, h, a, b, hex_digit-bounds d y b)
  ]
  | inr (x, a) ↦ elim (Option-cases (hex_digit d)) [
    | inl b ↦ ground (arith, h, a, b, hex_digit-bounds c x a)
    | inr (y, b) ↦ ground (arith, h, a, b, hex_digit-bounds c x a, hex_digit-bounds d y b)
  ]
]
