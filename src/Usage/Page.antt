-- ===== src/Usage/Page.antt =====
-- src/usage.go `usageDashboardData`: what the usage page shows. Times and sorting are parameters.
use agy_identity_bridge.Base.{List, [], ◌∷◌, map, if◌then◌else◌, take, any, keep}
use agy_identity_bridge.Text.{Text, text, ◌==◌, trim_space, trim_suffix}
use agy_identity_bridge.Headers.{first_non_empty}
use agy_identity_bridge.Config.Keys.{normalize_executor_provider_key}
use agy_identity_bridge.Usage.{UsageTotals, UsageRecord, recent_usage_records, mask_principal}
use agy_identity_bridge.Usage.Filter.{UsageFilter, Age, record_matches_usage_filter}
use agy_identity_bridge.Usage.Summary.{
  UsageSummary, Groups, or_unknown, summarize_usage_records, group_usage_groups,
  group_usage_buckets,
}

abbrev usage_source : UsageRecord → Text
usage_source r = or_unknown r.client_app

-- Every source once, sorted by `sort.Strings`.
abbrev sources_loop : List Text → List UsageRecord → List Text
sources_loop seen [] = []
sources_loop seen (r ∷ records) =
    let skipped = sources_loop seen records in
    let kept = usage_source r ∷ sources_loop (usage_source r ∷ seen) records in
    if any (λ s. s == usage_source r) seen then skipped else kept

unfoldable pub observed_usage_sources : (List Text → List Text) → List UsageRecord → List Text
observed_usage_sources sort_texts records = sort_texts (sources_loop [] records)

unfoldable pub canonical_usage_provider_name : Text → Text
canonical_usage_provider_name value =
    normalize_executor_provider_key (trim_suffix (trim_space value) (text " executor"))

pub record UsageViewRecord : Type 0 where
  pub at : Text
  pub provider : Text
  pub model : Text
  pub client_app : Text
  pub principal : Text
  pub mode : Text
  pub totals : UsageTotals

-- `show_time` prints a time.
abbrev view_of : (Text → Text) → UsageRecord → UsageViewRecord
view_of show_time r = record {
  at = show_time r.at;
  provider = r.provider;
  model = r.model;
  client_app = r.client_app;
  principal = mask_principal r.principal;
  mode = r.mode;
  totals = r.totals;
}

-- The diagnostics of the page are those of the caller, and are left out.
pub record UsagePageData : Type 0 where
  pub version : Text
  pub filters : UsageFilter
  pub summary : UsageSummary
  pub buckets : Groups
  pub top_models : Groups
  pub top_sources : Groups
  pub recent : List UsageViewRecord
  pub available_source : List Text

module _ (age_of : UsageRecord → Age) (bucket_label : Text → UsageRecord → Text)
    (show_time : Text → Text) (sort_texts : List Text → List Text) (sort_buckets : Groups → Groups)
    (sort_groups : Groups → Groups) where
  unfoldable pub usage_dashboard_data : Text → UsageFilter → List UsageRecord → UsagePageData
  unfolding record_matches_usage_filter summarize_usage_records group_usage_groups
      group_usage_buckets observed_usage_sources recent_usage_records
  usage_dashboard_data version filter records =
      let filtered =
        keep (λ r. record_matches_usage_filter (age_of r) r filter)
          (recent_usage_records records) in
      record {
        version = version;
        filters = filter;
        summary = summarize_usage_records filtered;
        buckets = group_usage_buckets sort_buckets (bucket_label filter.bucket) filtered;
        top_models =
            group_usage_groups sort_groups (λ r. first_non_empty (r.model ∷ text "unknown" ∷ []))
              filtered;
        top_sources =
            group_usage_groups sort_groups
              (λ r. first_non_empty (r.client_app ∷ text "unknown" ∷ [])) filtered;
        recent = map (view_of show_time) (take 24 filtered);
        available_source = observed_usage_sources sort_texts filtered;
      }
