-- ===== src/Drift/Detectors.antt =====
-- monitoring/drift/psi.py, ks.py and js.py. The operations of numpy and scipy are parameters, as the
-- arithmetic of floats is.
-- The functions of numpy and scipy that the detectors call. Those that raise on an empty array give
-- a `Result`.
use fraud_ml_platform.Shared.{
  ℕ, ◌+◌, String, Bool, ◌&&◌, List, [], ◌∷◌, map, ltb, ◌==◌, if◌then◌else◌, length, replicate, sum,
  FloatOps, Result, ok, ◌>>=◌,
}
use fraud_ml_platform.Drift.Buckets.{n_buckets, bucket_counts}

pub record Numpy (F : Type 0) : Type 0 where
  pub percentile : List F → List F → Result (List F)
  pub linspace : F → F → ℕ → List F
  pub unique : List F → List F
  pub histogram : List F → List F → List ℕ
  pub log : F → F
  pub fsum : List F → F
  pub ks_2samp : List F → List F → Result (F × F)
  pub jensenshannon : List F → List F → F

pub record KsResult (F : Type 0) : Type 0 where
  pub statistic : F
  pub pvalue : F
  pub is_flagged : Bool

-- `edges[-1] = f(edges[-1])`
abbrev pub map_last : {A : Type 0} → (A → A) → List A → List A
map_last f [] = []
map_last f (x ∷ []) = f x ∷ []
map_last f (x ∷ y ∷ xs) = x ∷ map_last f (y ∷ xs)

-- `edges[0] = f(edges[0])`
abbrev pub map_first : {A : Type 0} → (A → A) → List A → List A
map_first f [] = []
map_first f (x ∷ xs) = f x ∷ xs

abbrev pub zip_with : {A B C : Type 0} → (A → B → C) → List A → List B → List C
zip_with f (x ∷ xs) (y ∷ ys) = f x y ∷ zip_with f xs ys
zip_with f _ _ = []

module _ {F : Type 0} (ops : FloatOps F) (np : Numpy F) where
  abbrev pub zero_f : F
  zero_f = ops.of_nat 0

  abbrev pub one_f : F
  one_f = ops.of_nat 1

  -- 1e-6
  abbrev pub eps : F
  eps = ops.fdiv (ops.of_nat 1) (ops.of_nat 1000000)

  -- `min(x, y)` and `max(x, y)` of Python, which give x unless the other is strictly before it.
  abbrev pub min_f : F → F → F
  min_f x y = if ops.flt y x then y else x

  abbrev pub max_f : F → F → F
  max_f x y = if ops.flt x y then y else x

  -- The `edges` of the quantile bins.
  unfoldable pub widen_edges : ℕ → List F → List F
  widen_edges n_bins edges =
      if ltb (length edges) 2
      then np.linspace zero_f one_f (n_bins + 1)
      else map_last (λ x. max_f x one_f) (map_first (λ x. min_f x zero_f) edges)

  -- `np.where(xs == 0, eps, xs)`
  abbrev pub floor_zeros : List F → List F
  floor_zeros = map (λ x. if ops.feq x zero_f then eps else x)

  abbrev pub fractions : List ℕ → ℕ → List F
  fractions tally n = map (λ c. ops.fdiv (ops.of_nat c) (ops.of_nat n)) tally

  unfoldable pub compute_psi : List F → List F → ℕ → Result F
  compute_psi reference recent n_bins =
      np.percentile reference (np.linspace zero_f (ops.of_nat 100) (n_bins + 1)) >>= λ quantiles.
      let edges = widen_edges n_bins (np.unique quantiles) in
      let ref_pct = floor_zeros (fractions (np.histogram reference edges) (length reference)) in
      let rec_pct = floor_zeros (fractions (np.histogram recent edges) (length recent)) in
      ok (
        np.fsum (zip_with (λ r p. ops.fmul (ops.fsub r p) (np.log (ops.fdiv r p))) rec_pct ref_pct))

  unfoldable pub compute_ks : List F → List F → F → F → Result (KsResult F)
  compute_ks reference recent pvalue_threshold statistic_threshold =
      np.ks_2samp reference recent >>= λ (statistic, pvalue). ok (record {
        statistic = statistic;
        pvalue = pvalue;
        is_flagged = ops.flt pvalue pvalue_threshold && ops.flt statistic_threshold statistic;
      })

  -- The end of `bucket_counts`.
  abbrev pub distribution : List ℕ → List F
  distribution tally =
      if sum tally == 0
      then replicate n_buckets (ops.fdiv one_f (ops.of_nat n_buckets))
      else fractions tally (sum tally)

  abbrev pub normalize : List F → List F
  normalize xs = map (λ x. ops.fdiv x (np.fsum xs)) xs

  unfoldable pub compute_js_on_hashes : List String → List String → Result F
  compute_js_on_hashes reference_hashes recent_hashes =
      bucket_counts reference_hashes >>= λ ref_tally. bucket_counts recent_hashes >>= λ rec_tally.
      ok (
        np.jensenshannon (normalize (floor_zeros (distribution ref_tally)))
          (normalize (floor_zeros (distribution rec_tally))))
