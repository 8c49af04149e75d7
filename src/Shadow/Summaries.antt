-- ===== src/Shadow/Summaries.antt =====
-- What the comparator returns and what it writes.
use mathlib.Core.List.{append-nil, append_assoc}
use fraud_ml_platform.Shared.{
  ℕ, ◌+◌, ◌*◌, ◌≤◌, String, ◌≡◌, refl, sym, ap, ◌∙◌, subst, ◌↔◌, inl, inr, Bool, true, Option, none,
  some, List, [], ◌∷◌, ◌++◌, map, arith, ltb, ◌==◌, Bool-cases, insert_new, insert_all,
  HasUniqueKeys, insert_all-one, insert_all-none, insert_all-extends, insert_all-again,
  insert_all-HasUniqueKeys, length, keep_if, length-map, FloatOps, Result, ok, raise, >>=-eq-ok,
}
use fraud_ml_platform.Database.{Time, hour, time_minus}
use fraud_ml_platform.Shadow.Comparator.{
  Comparison, Summary, Statistics, in_window, insert_summary, correlation_of, summarize, summary_of,
  compute_shadow_summary, comparator_rounds,
}
use fraud_ml_platform.Shadow.Confusion.{IsConfusion, confusion_of-IsConfusion}

module _ {F : Type 0} (ops : FloatOps F) (np : Statistics F) (isoformat : Time → String)
    (md5_uuid : String → String) where
  abbrev pub has_spread : (Comparison F → F) → List (Comparison F) → Bool
  has_spread f rows = ops.flt (ops.of_nat 0) (np.std (map f rows))

  -- A summary of rows: their number, the matrix of their flags, the share of rows that disagree, and
  -- a correlation just when there are two rows or more and both probabilities vary.
  pub record IsSummary (start end : Time) (rows : List (Comparison F)) (s : Summary F)
      : Type 0 where
    pub starts : s.window_start ≡ start
    pub ends : s.window_end ≡ end
    pub nonempty : 1 ≤ s.n_comparisons
    pub number : s.n_comparisons ≡ length rows
    pub matrix : IsConfusion rows s.confusion
    pub rate :
        s.disagreement_rate
        ≡ ops.fdiv (ops.of_nat (s.confusion.fp + s.confusion.fn)) (ops.of_nat s.n_comparisons)
    pub correlated : ((c : F) × (s.correlation ≡ some c)) ↔ (
        (2 ≤ length rows)
        × (has_spread (λ r. r.champion_probability) rows ≡ true)
        × (has_spread (λ r. r.challenger_probability) rows ≡ true))

  correlation_of-some :
      (rows : List (Comparison F))
      → ((c : F) × (correlation_of ops np isoformat md5_uuid
              (map (λ r. r.champion_probability) rows)
              (map (λ r. r.challenger_probability) rows)
            ≡ some c))
        ↔ ((2 ≤ length rows)
            × (has_spread (λ r. r.champion_probability) rows ≡ true)
            × (has_spread (λ r. r.challenger_probability) rows ≡ true))
  unfolding correlation_of
  correlation_of-some rows =
      let n = length-map (λ (r : Comparison F). r.champion_probability) rows in
      (
        λ (c, e). ground (arith, e, n),
        λ (two, a, b).
            let many : ltb 1 (length (map (λ r. r.champion_probability) rows)) ≡ true =
              ground (arith, two, n) in
            (
              np.corrcoef (map (λ r. r.champion_probability) rows)
                  (map (λ r. r.challenger_probability) rows),
              rw (many, a, b) refl,
            ),
      )

  summarize-IsSummary :
      (start end : Time) (rows : List (Comparison F))
      → 1 ≤ length rows
      → IsSummary start end rows (summarize ops np isoformat md5_uuid start end rows)
  unfolding summarize
  summarize-IsSummary start end rows h =
      let m = confusion_of-IsConfusion rows in
      record {
        starts = refl;
        ends = refl;
        nonempty = h;
        number = refl;
        matrix = m;
        rate = ap (λ k. ops.fdiv (ops.of_nat k) (ops.of_nat (length rows))) (sym m.disagreement);
        correlated = correlation_of-some rows;
      }

  -- If a run returns a summary, it is one of the rows, at least one, of the window that ends at the
  -- run's time and has the given number of hours. The four counts of its matrix add up to the number
  -- of rows and, by model, to the rows that the model flags; the disagreement rate is the share of
  -- the two counts of disagreement; there is a correlation exactly when there are two rows or more
  -- and both probabilities vary.
  pub compute_shadow_summary-IsSummary :
      (window_hours : ℕ) (now : Time) (comparisons : List (Comparison F)) (table : List (Summary F))
      (s : Summary F)
      → (compute_shadow_summary ops np isoformat md5_uuid window_hours now comparisons table).0
        ≡ ok (some s)
      → (start : Time) × (start + window_hours * hour ≡ now)
        × IsSummary start now (keep_if (in_window start now) comparisons) s
  unfolding compute_shadow_summary summary_of time_minus
  compute_shadow_summary-IsSummary window_hours now comparisons table s h =
      let (start, hs, h1) = >>=-eq-ok (time_minus now (window_hours * hour)) _ h in
      let rows = keep_if (in_window start now) comparisons in
      elim (Bool-cases (length rows == 0)) [
        | inl empty ↦ absurd (ground (arith, h1, empty))
        | inr some_rows ↦
            let e : summarize ops np isoformat md5_uuid start now rows ≡ s =
              ground (arith, h1, some_rows) in
            (
              start,
              ground (arith, hs),
              subst (IsSummary start now rows) e
                  (summarize-IsSummary start now rows (ground (arith, some_rows))),
            )
      ]

  abbrev run :
      ℕ
      → Time
      → List (Comparison F)
      → List (Summary F)
      → Result (Option (Summary F)) × List (Summary F)
  run = compute_shadow_summary ops np isoformat md5_uuid

  abbrev written : Result (Option (Summary F)) → List (Summary F)
  written (ok (some s)) = s ∷ []
  written _ = []

  written-table :
      (table : List (Summary F)) (r : Result (Option (Summary F)))
      → elim r as (λ _. List (Summary F)) [
        | ok (some s) ↦ insert_new (λ x. x.summary_id) table s
        | _ ↦ table
      ]
        ≡ insert_all (λ s. s.summary_id) table (written r)
  written-table table (ok (some s)) = sym (insert_all-one (λ s. s.summary_id) table s)
  written-table table (ok none) = sym (insert_all-none (λ s. s.summary_id) table)
  written-table table (raise e) = sym (insert_all-none (λ s. s.summary_id) table)

  run-result :
      (window_hours : ℕ) (now : Time) (comparisons : List (Comparison F))
      (table other : List (Summary F))
      → (run window_hours now comparisons table).0 ≡ (run window_hours now comparisons other).0
  unfolding compute_shadow_summary
  run-result window_hours now comparisons table other = refl

  run-table :
      (window_hours : ℕ) (now : Time) (comparisons : List (Comparison F)) (table : List (Summary F))
      → (run window_hours now comparisons table).1
        ≡ insert_all (λ s. s.summary_id) table (written (run window_hours now comparisons table).0)
  unfolding compute_shadow_summary insert_summary
  run-table window_hours now comparisons table =
      written-table table (run window_hours now comparisons table).0

  -- A second run at the same time over the same comparisons gives the same result and leaves the
  -- table as the first one left it.
  pub compute_shadow_summary-again :
      (window_hours : ℕ) (now : Time) (comparisons : List (Comparison F)) (table : List (Summary F))
      → compute_shadow_summary ops np isoformat md5_uuid window_hours now comparisons
          (compute_shadow_summary ops np isoformat md5_uuid window_hours now comparisons table).1
        ≡ compute_shadow_summary ops np isoformat md5_uuid window_hours now comparisons table
  compute_shadow_summary-again window_hours now comparisons table =
      let once = run window_hours now comparisons table in
      let same = run-result window_hours now comparisons once.1 table in
      let tables =
        run-table window_hours now comparisons once.1
        ∙ ap (λ r. insert_all (λ s. s.summary_id) once.1 (written r)) same
        ∙ ap (λ t. insert_all (λ s. s.summary_id) t (written once.0))
            (run-table window_hours now comparisons table)
        ∙ insert_all-again (λ s. s.summary_id) table (written once.0)
        ∙ sym (run-table window_hours now comparisons table) in
      cc

  -- The rounds of the comparator only add rows to the table, behind those that are there, and keep
  -- the ids of the summaries different.
  pub comparator_rounds-grows :
      (window_hours : ℕ) (rounds : List (Time × List (Comparison F))) (table : List (Summary F))
      → HasUniqueKeys (λ s. s.summary_id) table
      → ((new : List (Summary F)) × (comparator_rounds ops np isoformat md5_uuid window_hours rounds
              table
            ≡ table ++ new))
        × HasUniqueKeys
            (λ s. s.summary_id)
            (comparator_rounds ops np isoformat md5_uuid window_hours rounds table)
  unfolding comparator_rounds
  comparator_rounds-grows window_hours [] table u = (([], sym (append-nil table)), u)
  comparator_rounds-grows window_hours ((now, comparisons) ∷ rounds) table u =
      let once = run window_hours now comparisons table in
      let e = run-table window_hours now comparisons table in
      let (new, extends) = insert_all-extends (λ s. s.summary_id) table (written once.0) in
      let unique =
        subst (HasUniqueKeys (λ s. s.summary_id)) (sym e)
          (insert_all-HasUniqueKeys (λ s. s.summary_id) table (written once.0) u) in
      let ((more, behind), u') = comparator_rounds-grows window_hours rounds once.1 unique in
      ((new ++ more, behind ∙ ap (λ t. t ++ more) (e ∙ extends) ∙ append_assoc table new more), u')
