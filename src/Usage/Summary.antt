-- ===== src/Usage/Summary.antt =====
-- src/usage.go: the summary of records, and their groups. Sorting and the labels of buckets are
-- parameters.
use agy_identity_bridge.Base.{◌||◌, List, [], ◌∷◌, if◌then◌else◌, is_nil, any}
use agy_identity_bridge.Text.{Text, text, ◌==◌, trim_space}
use agy_identity_bridge.Int64.{Int64, add64}
use agy_identity_bridge.Usage.{UsageRecord}

-- The six counts that a group, a bucket and the summary have in common.
pub record UsageCounts : Type 0 where
  pub requests : Int64
  pub prompt_tokens : Int64
  pub completion_tokens : Int64
  pub total_tokens : Int64
  pub cached_tokens : Int64
  pub cache_hits : Int64

abbrev pub no_counts : UsageCounts
no_counts = record {
  requests = 0;
  prompt_tokens = 0;
  completion_tokens = 0;
  total_tokens = 0;
  cached_tokens = 0;
  cache_hits = 0;
}

pub record UsageSummary : Type 0 where
  pub counts : UsageCounts
  pub input_tokens : Int64
  pub output_tokens : Int64
  pub principals : List Text
  pub models : List Text
  pub sources : List Text

abbrev pub no_summary : UsageSummary
no_summary = record {
  counts = no_counts;
  input_tokens = 0;
  output_tokens = 0;
  principals = [];
  models = [];
  sources = [];
}

-- A set of texts; a blank one is not added.
abbrev pub add_name : Text → List Text → List Text
add_name name names =
    if is_nil (trim_space name) || any (λ n. n == name) names then names else name ∷ names

-- The body of the loop of the summary.
unfoldable pub summarize_record : UsageRecord → UsageSummary → UsageSummary
summarize_record r s = record {
  counts = record {
    requests = add64 s.counts.requests 1;
    prompt_tokens = add64 s.counts.prompt_tokens r.totals.prompt_tokens;
    completion_tokens = add64 s.counts.completion_tokens r.totals.completion_tokens;
    total_tokens = add64 s.counts.total_tokens r.totals.total_tokens;
    cached_tokens = add64 s.counts.cached_tokens r.totals.cached_tokens;
    cache_hits = if r.totals.cache_hit then add64 s.counts.cache_hits 1 else s.counts.cache_hits;
  };
  input_tokens = add64 s.input_tokens r.totals.input_tokens;
  output_tokens = add64 s.output_tokens r.totals.output_tokens;
  principals = add_name r.principal s.principals;
  models = add_name r.model s.models;
  sources = add_name r.client_app s.sources;
}

-- The counts of principals, models and sources are the lengths of the sets.
unfoldable pub summarize_loop : List UsageRecord → UsageSummary → UsageSummary
unfolding summarize_record
summarize_loop [] s = s
summarize_loop (r ∷ records) s = summarize_loop records (summarize_record r s)

unfoldable pub summarize_usage_records : List UsageRecord → UsageSummary
unfolding summarize_loop
summarize_usage_records records = summarize_loop records no_summary

-- A group is a label with its counts, and the groups are a map by label.
abbrev pub Groups : Type 0
Groups = List (Text × UsageCounts)

-- `item.Requests++` and the sums after it in the loop of the buckets,
unfoldable pub count_in_bucket : UsageRecord → UsageCounts → UsageCounts
count_in_bucket r item = record {
  requests = add64 item.requests 1;
  prompt_tokens = add64 item.prompt_tokens r.totals.prompt_tokens;
  completion_tokens = add64 item.completion_tokens r.totals.completion_tokens;
  total_tokens = add64 item.total_tokens r.totals.total_tokens;
  cached_tokens = add64 item.cached_tokens r.totals.cached_tokens;
  cache_hits = if r.totals.cache_hit then add64 item.cache_hits 1 else item.cache_hits;
}

-- and in the loop of the groups.
unfoldable pub count_in_group : UsageRecord → UsageCounts → UsageCounts
count_in_group r item = record {
  requests = add64 item.requests 1;
  prompt_tokens = add64 item.prompt_tokens r.totals.prompt_tokens;
  completion_tokens = add64 item.completion_tokens r.totals.completion_tokens;
  total_tokens = add64 item.total_tokens r.totals.total_tokens;
  cached_tokens = add64 item.cached_tokens r.totals.cached_tokens;
  cache_hits = if r.totals.cache_hit then add64 item.cache_hits 1 else item.cache_hits;
}

abbrev pub or_unknown : Text → Text
or_unknown label = if is_nil (trim_space label) then text "unknown" else trim_space label

-- The two loops look a label up and add an item for one that is missing; `count` is what they
-- then do to the item.
module _ (count : UsageRecord → UsageCounts → UsageCounts) where
  unfoldable pub add_to_group : Text → UsageRecord → Groups → Groups
  add_to_group label r [] = (label, count r no_counts) ∷ []
  add_to_group label r ((l, c) ∷ groups) =
      let rest = add_to_group label r groups in
      if l == label then (l, count r c) ∷ groups else (l, c) ∷ rest

  unfoldable pub group_loop : (UsageRecord → Text) → List UsageRecord → Groups → Groups
  unfolding add_to_group
  group_loop label_of [] groups = groups
  group_loop label_of (r ∷ records) groups =
      group_loop label_of records (add_to_group (label_of r) r groups)

-- The order of `range` over the map, and then of the sort.
module _ (arrange : Groups → Groups) where
  unfoldable pub group_usage_groups : (UsageRecord → Text) → List UsageRecord → Groups
  unfolding group_loop count_in_group
  group_usage_groups label_fn records =
      arrange (group_loop count_in_group (λ r. or_unknown (label_fn r)) records [])

  -- `label` is `usageBucketLabel` for the bucket of the filter.
  unfoldable pub group_usage_buckets : (UsageRecord → Text) → List UsageRecord → Groups
  unfolding group_loop count_in_bucket
  group_usage_buckets label records = arrange (group_loop count_in_bucket label records [])
