-- ===== src/Shadow/Comparator.antt =====
-- monitoring/shadow/comparator.py: the summary of the comparisons of one window, and the loop of
-- monitoring/scripts/run_shadow_comparator.py.
use fraud_ml_platform.Shared.{
  ℕ, ◌*◌, String, append_text, Bool, not, ◌&&◌, ◌||◌, Option, none, some, List, [], ◌∷◌, map, ltb,
  leb, ◌==◌, if◌then◌else◌, insert_new, length, keep_if, FloatOps, Result, ok, ◌>>=◌,
}
use fraud_ml_platform.Database.{Time, hour, time_minus}

pub record Comparison (F : Type 0) : Type 0 where
  pub champion_probability : F
  pub challenger_probability : F
  pub champion_flagged : Bool
  pub challenger_flagged : Bool
  pub created_at : Time

pub record Confusion : Type 0 where
  pub tp : ℕ
  pub fp : ℕ
  pub fn : ℕ
  pub tn : ℕ

pub record Summary (F : Type 0) : Type 0 where
  pub summary_id : String
  pub window_start : Time
  pub window_end : Time
  pub n_comparisons : ℕ
  pub correlation : Option F
  pub disagreement_rate : F
  pub abs_diff_p50 : F
  pub abs_diff_p95 : F
  pub abs_diff_p99 : F
  pub confusion : Confusion

-- numpy's functions, on arrays that are not empty.
pub record Statistics (F : Type 0) : Type 0 where
  pub std : List F → F
  pub corrcoef : List F → List F → F
  pub percentile : List F → F → F

unfoldable pub deterministic_summary_id : (Time → String) → (String → String) → Time → Time → String
deterministic_summary_id isoformat md5_uuid start end =
    md5_uuid (append_text (isoformat start) (append_text "|" (isoformat end)))

-- `np.sum` over an array of Booleans.
abbrev pub count_if : {A : Type 0} → (A → Bool) → List A → ℕ
count_if p rows = length (keep_if p rows)

module _ {F : Type 0} where
  -- `created_at BETWEEN .. AND ..`
  abbrev pub in_window : Time → Time → Comparison F → Bool
  in_window start end r = leb start r.created_at && leb r.created_at end

  abbrev pub differ : Comparison F → Bool
  differ r =
      (r.champion_flagged && not r.challenger_flagged)
      || (not r.champion_flagged && r.challenger_flagged)

  unfoldable pub confusion_of : List (Comparison F) → Confusion
  confusion_of rows = record {
    tp = count_if (λ r. r.champion_flagged && r.challenger_flagged) rows;
    fp = count_if (λ r. not r.champion_flagged && r.challenger_flagged) rows;
    fn = count_if (λ r. r.champion_flagged && not r.challenger_flagged) rows;
    tn = count_if (λ r. not r.champion_flagged && not r.challenger_flagged) rows;
  }

  -- INSERT .. ON CONFLICT (summary_id) DO NOTHING
  unfoldable pub insert_summary : List (Summary F) → Summary F → List (Summary F)
  insert_summary = insert_new (λ s. s.summary_id)

module _ {F : Type 0} (ops : FloatOps F) (np : Statistics F) (isoformat : Time → String)
    (md5_uuid : String → String) where
  unfoldable pub correlation_of : List F → List F → Option F
  correlation_of champ_probs chall_probs =
      if ltb 1 (length champ_probs)
        && ops.flt (ops.of_nat 0) (np.std champ_probs)
        && ops.flt (ops.of_nat 0) (np.std chall_probs)
      then some (np.corrcoef champ_probs chall_probs)
      else none

  unfoldable pub summarize : Time → Time → List (Comparison F) → Summary F
  summarize start end rows =
      let champ_probs = map (λ r. r.champion_probability) rows in
      let chall_probs = map (λ r. r.challenger_probability) rows in
      let abs_diffs =
        map (λ r. ops.fabs (ops.fsub r.champion_probability r.challenger_probability)) rows in
      record {
        summary_id = deterministic_summary_id isoformat md5_uuid start end;
        window_start = start;
        window_end = end;
        n_comparisons = length rows;
        correlation = correlation_of champ_probs chall_probs;
        disagreement_rate = ops.fdiv (ops.of_nat (count_if differ rows)) (ops.of_nat (length rows));
        abs_diff_p50 = np.percentile abs_diffs (ops.of_nat 50);
        abs_diff_p95 = np.percentile abs_diffs (ops.of_nat 95);
        abs_diff_p99 = np.percentile abs_diffs (ops.of_nat 99);
        confusion = confusion_of rows;
      }

  -- What is returned; none if the window has no rows.
  unfoldable pub summary_of : Time → Time → List (Comparison F) → Option (Summary F)
  summary_of start end comparisons =
      let rows = keep_if (in_window start end) comparisons in
      if length rows == 0 then none else some (summarize start end rows)

  -- What is returned, and the table shadow_summaries behind it.
  unfoldable pub compute_shadow_summary :
      ℕ
      → Time
      → List (Comparison F)
      → List (Summary F)
      → Result (Option (Summary F)) × List (Summary F)
  compute_shadow_summary window_hours now comparisons table =
      let result =
        time_minus now (window_hours * hour) >>= λ start. ok (summary_of start now comparisons) in
      (result, elim result [ ok (some summary) ↦ insert_summary table summary | _ ↦ table ])

  -- The endless loop, over the rounds that it has had. An exception is logged, and it goes on.
  unfoldable pub comparator_rounds :
      ℕ → List (Time × List (Comparison F)) → List (Summary F) → List (Summary F)
  comparator_rounds window_hours [] table = table
  comparator_rounds window_hours ((now, comparisons) ∷ rounds) table =
      let (_, next) = compute_shadow_summary window_hours now comparisons table in
      comparator_rounds window_hours rounds next
