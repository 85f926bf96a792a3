-- ===== src/Usage/Conservation.antt =====
-- src/usage.go: what the summary, the buckets and the groups of records count.
use agy_identity_bridge.Base.{
  ◌≡◌, refl, sym, ap, ap₂, ◌∙◌, subst, inl, inr, Bool, true, false, List, [], ◌∷◌, arith,
  if◌then◌else◌, Bool-cases,
}
use agy_identity_bridge.Text.{Text, ◌==◌}
use mathlib.Core.List.{Permᴰ}
use agy_identity_bridge.Int64.{Int64, add64}
use agy_identity_bridge.Usage.{UsageRecord}
use agy_identity_bridge.Usage.Summary.{
  UsageCounts, no_counts, count_in_bucket, count_in_group, UsageSummary, no_summary,
  summarize_record, summarize_loop, summarize_usage_records, Groups, add_to_group, group_loop,
  group_usage_groups, group_usage_buckets,
}
use agy_identity_bridge.Usage.Counts.{
  add_counts, counts-eq, sum64, counts_of, one, swap-counts, counts_of-reduced, IsReduced,
  add_counts-IsReduced, no_counts-IsReduced, add_counts-cons,
}

-- The sum over all groups.
abbrev pub sum_groups : Groups → UsageCounts
sum_groups [] = no_counts
sum_groups ((_, c) ∷ groups) = add_counts c (sum_groups groups)

sum_groups-IsReduced : (groups : Groups) → IsReduced (sum_groups groups)
sum_groups-IsReduced [] = no_counts-IsReduced
sum_groups-IsReduced ((l, c) ∷ groups) = add_counts-IsReduced c (sum_groups groups)

-- What a loop does to counts is to add one record.
AddsOne : (UsageRecord → UsageCounts → UsageCounts) → Type 0
AddsOne count =
    (r : UsageRecord) (c d : UsageCounts)
    → add_counts (count r c) d ≡ add_counts (one r) (add_counts c d)

add64_one : (a b d : Int64) → add64 (add64 a b) d ≡ add64 b (add64 a d)
unfolding add64
add64_one a b d = omega arith

add64_hit :
    (hit : Bool) (h d : Int64)
    → add64 (if hit then add64 h 1 else h) d ≡ add64 (if hit then 1 else 0) (add64 h d)
unfolding add64
add64_hit true h d = omega arith
add64_hit false h d = omega arith

AddsOne-count_in_bucket : AddsOne count_in_bucket
unfolding AddsOne count_in_bucket
AddsOne-count_in_bucket r c d =
    counts-eq (add_counts (count_in_bucket r c) d) (add_counts (one r) (add_counts c d))
      (add64_one _ _ _) (add64_one _ _ _) (add64_one _ _ _) (add64_one _ _ _) (add64_one _ _ _)
      (add64_hit r.totals.cache_hit _ _)

AddsOne-count_in_group : AddsOne count_in_group
unfolding AddsOne count_in_group
AddsOne-count_in_group r c d =
    counts-eq (add_counts (count_in_group r c) d) (add_counts (one r) (add_counts c d))
      (add64_one _ _ _) (add64_one _ _ _) (add64_one _ _ _) (add64_one _ _ _) (add64_one _ _ _)
      (add64_hit r.totals.cache_hit _ _)

sum_groups-perm : {gs hs : Groups} → Permᴰ gs hs → sum_groups gs ≡ sum_groups hs
sum_groups-perm Permᴰ.nil = refl
sum_groups-perm (Permᴰ.cons e d) = ap₂ (λ g s. add_counts g.1 s) e (sum_groups-perm d)
sum_groups-perm (Permᴰ.swap {a} {b} {a'} {b'} {l} e f) =
    swap-counts a.1 b.1 (sum_groups l)
    ∙ ap₂ (λ x y. add_counts x.1 (add_counts y.1 (sum_groups l))) f e
sum_groups-perm (Permᴰ.trans d d') = sum_groups-perm d ∙ sum_groups-perm d'

module _ (count : UsageRecord → UsageCounts → UsageCounts) (adds : AddsOne count) where
  sum_groups-add_to_group :
      (label : Text) (r : UsageRecord) (groups : Groups)
      → sum_groups (add_to_group count label r groups) ≡ add_counts (one r) (sum_groups groups)
  unfolding AddsOne add_to_group
  sum_groups-add_to_group label r [] = adds r no_counts no_counts ∙ (unfold add64 in refl)
  sum_groups-add_to_group label r ((l, c) ∷ groups) = elim (Bool-cases (l == label)) [
    | inl h ↦ rw h (adds r c (sum_groups groups))
    | inr h ↦ rw h (
        ap (add_counts c) (sum_groups-add_to_group label r groups)
        ∙ swap-counts c (one r) (sum_groups groups))
  ]

  sum_groups-group_loop :
      (label_of : UsageRecord → Text) (records : List UsageRecord) (groups : Groups)
      → sum_groups (group_loop count label_of records groups)
        ≡ add_counts (counts_of records) (sum_groups groups)
  unfolding group_loop sum64 IsReduced
  sum_groups-group_loop label_of [] groups = sym (sum_groups-IsReduced groups)
  sum_groups-group_loop label_of (r ∷ records) groups =
      sum_groups-group_loop label_of records (add_to_group count (label_of r) r groups)
      ∙ ap (add_counts (counts_of records)) (sum_groups-add_to_group (label_of r) r groups)
      ∙ add_counts-cons r records (sum_groups groups)

  sum_groups-arranged :
      (arrange : Groups → Groups) (label_of : UsageRecord → Text) (records : List UsageRecord)
      → Permᴰ
          (group_loop count label_of records [])
          (arrange (group_loop count label_of records []))
      → sum_groups (arrange (group_loop count label_of records [])) ≡ counts_of records
  sum_groups-arranged arrange label_of records perm =
      sym (sum_groups-perm perm)
      ∙ sum_groups-group_loop label_of records []
      ∙ counts_of-reduced records

summed_hit :
    (hit : Bool) (h : Int64)
    → add64 0 h ≡ h
    → (if hit then add64 h 1 else h) ≡ add64 (if hit then 1 else 0) h
unfolding add64
summed_hit true h e = omega arith
summed_hit false h e = sym e

add64_flip : (a b : Int64) → add64 a b ≡ add64 b a
unfolding add64
add64_flip a b = omega arith

summarize_record-counts :
    (r : UsageRecord) (s : UsageSummary)
    → IsReduced s.counts
    → (summarize_record r s).counts ≡ add_counts (one r) s.counts
unfolding summarize_record IsReduced
summarize_record-counts r s h =
    counts-eq (summarize_record r s).counts (add_counts (one r) s.counts) (add64_flip _ _)
      (add64_flip _ _) (add64_flip _ _) (add64_flip _ _) (add64_flip _ _)
      (summed_hit r.totals.cache_hit s.counts.cache_hits (ap (λ c. c.cache_hits) h))

summarize_loop-counts :
    (records : List UsageRecord) (s : UsageSummary)
    → IsReduced s.counts
    → (summarize_loop records s).counts ≡ add_counts (counts_of records) s.counts
unfolding summarize_loop sum64 IsReduced
summarize_loop-counts [] s h = sym h
summarize_loop-counts (r ∷ records) s h =
    let here = summarize_record-counts r s h in
    summarize_loop-counts records (summarize_record r s)
      (subst IsReduced (sym here) (add_counts-IsReduced (one r) s.counts))
    ∙ ap (add_counts (counts_of records)) here
    ∙ add_counts-cons r records s.counts

-- Whatever the labels are, the groups of some records together, the buckets together, and the
-- summary each count every record once: the requests are the number of the records, the prompt,
-- completion, total and cached tokens are the sums of those of the records, and the cache hits are
-- the number of the records that are hits. Counts and sums wrap around at 2 ^ 64. The groups and
-- the buckets are shown in any order.
pub group_usage_groups-summary :
    (arrange : Groups → Groups) (label_fn bucket_label : UsageRecord → Text)
    (records : List UsageRecord)
    → ((groups : Groups) → Permᴰ groups (arrange groups))
    → (sum_groups (group_usage_groups arrange label_fn records) ≡ counts_of records)
      × (sum_groups (group_usage_buckets arrange bucket_label records) ≡ counts_of records)
      × ((summarize_usage_records records).counts ≡ counts_of records)
unfolding group_usage_groups group_usage_buckets summarize_usage_records
group_usage_groups-summary arrange label_fn bucket_label records perm = (
  sum_groups-arranged count_in_group AddsOne-count_in_group arrange _ records (perm _),
  sum_groups-arranged count_in_bucket AddsOne-count_in_bucket arrange bucket_label records (perm _),
  summarize_loop-counts records no_summary no_counts-IsReduced ∙ counts_of-reduced records,
)
