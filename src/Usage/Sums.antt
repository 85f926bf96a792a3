-- ===== src/Usage/Sums.antt =====
-- Totals added up, defaults filled in, and the list of the newest observations.
use agy_identity_bridge.Base.{
  ◌≡◌, sym, ap, ap₂, ◌∙◌, inl, inr, Bool, ◌&&◌, ◌||◌, List, [], ◌∷◌, ◌++◌, reverse, append-nil,
  append_assoc, arith, eqb, if◌then◌else◌, Bool-cases, is_nil,
}
use agy_identity_bridge.Text.{Text}
use agy_identity_bridge.Int64.{Int64, add64, is_positive}
use agy_identity_bridge.Registry.Ring.{last_of, append_bounded-last_of}
use agy_identity_bridge.Usage.{
  UsageTotals, UsageRecord, max_usage_records, is_zero, record_usage_observation,
  recent_usage_records, complete_totals, or_if_zero,
}

-- The observations recorded one after another, each with the time of its call.
abbrev pub observe : List (Text × UsageRecord) → List UsageRecord → List UsageRecord
observe [] records = records
observe ((now, obs) ∷ later) records = observe later (record_usage_observation now obs records)

abbrev stamped : Text → UsageRecord → UsageRecord
stamped now obs = record obs { at = if is_nil obs.at then now else obs.at }

-- The observations that count something, each with a time.
abbrev pub counted : List (Text × UsageRecord) → List UsageRecord
counted [] = []
counted ((now, obs) ∷ later) =
    if is_zero obs.totals then counted later else stamped now obs ∷ counted later

observe-last_of :
    (calls : List (Text × UsageRecord)) (past : List UsageRecord)
    → observe calls (last_of max_usage_records past)
      ≡ last_of max_usage_records (past ++ counted calls)
unfolding record_usage_observation
observe-last_of [] past = ap (last_of max_usage_records) (sym (append-nil past))
observe-last_of ((now, obs) ∷ calls) past = elim (Bool-cases (is_zero obs.totals)) [
  | inl empty ↦ rw empty (observe-last_of calls past)
  | inr some_count ↦ rw some_count (
      ap (observe calls) (append_bounded-last_of max_usage_records past (stamped now obs))
      ∙ observe-last_of calls (past ++ stamped now obs ∷ [])
      ∙ ap (last_of max_usage_records) (append_assoc past (stamped now obs ∷ []) (counted calls)))
]

-- After any observations the dashboard has the last 2048 of those that count something, the
-- newest first, and each has a time.
pub recent_usage_records-observe :
    (calls : List (Text × UsageRecord))
    → recent_usage_records (observe calls []) ≡ reverse (last_of 2048 (counted calls))
unfolding recent_usage_records
recent_usage_records-observe calls = ap reverse (observe-last_of calls [])

or_if_zero_idem : (a b : Int64) → or_if_zero (or_if_zero a b) b ≡ or_if_zero a b
or_if_zero_idem a b = ground arith

-- The two defaults of the total, for the sums and whether they apply.
either_sum : Bool → Bool → Int64 → Int64 → Int64 → Int64
either_sum first second s s' total =
    let total' = if eqb total 0 && first then s else total in
    if eqb total' 0 && second then s' else total'

either_sum_idem :
    (first second : Bool) (s s' total : Int64)
    → either_sum first second s s' (either_sum first second s s' total)
      ≡ either_sum first second s s' total
unfolding either_sum
either_sum_idem first second s s' total = ground arith

-- Filling in the counts that a provider left out a second time changes nothing, sums that wrap
-- to zero included.
complete_totals_idem : (t : UsageTotals) → complete_totals (complete_totals t) ≡ complete_totals t
unfolding complete_totals either_sum
complete_totals_idem t =
    let input = or_if_zero t.input_tokens t.prompt_tokens in
    let output = or_if_zero t.output_tokens t.completion_tokens in
    let total : Int64 → Int64 → Int64 → Int64 = λ i o n.
      either_sum (is_positive t.prompt_tokens || is_positive t.completion_tokens)
        (is_positive i || is_positive o) (add64 t.prompt_tokens t.completion_tokens) (add64 i o)
        n in
    let i_idem = or_if_zero_idem t.input_tokens t.prompt_tokens in
    let o_idem = or_if_zero_idem t.output_tokens t.completion_tokens in
    let total_idem : total (or_if_zero input t.prompt_tokens)
          (or_if_zero output t.completion_tokens) (total input output t.total_tokens)
        ≡ total input output t.total_tokens =
      ap₂ (λ i o. total i o (total input output t.total_tokens)) i_idem o_idem
      ∙ either_sum_idem (is_positive t.prompt_tokens || is_positive t.completion_tokens)
          (is_positive input || is_positive output) (add64 t.prompt_tokens t.completion_tokens)
          (add64 input output) t.total_tokens in
    λ k. record (complete_totals t) {
      input_tokens = i_idem k;
      output_tokens = o_idem k;
      total_tokens = total_idem k;
    }
