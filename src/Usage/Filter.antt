-- ===== src/Usage/Filter.antt =====
-- src/usage.go: the filter of the usage page. What the calendar says of a time is a parameter.
use agy_identity_bridge.Base.{Bool, true, false, not, ◌&&◌, ◌||◌, if◌then◌else◌, is_nil}
use agy_identity_bridge.Text.{Text, text, ◌==◌, trim_space, to_lower, equal_fold}
use agy_identity_bridge.Usage.{UsageRecord}

pub record UsageFilter : Type 0 where
  pub period : Text
  pub bucket : Text
  pub source : Text

abbrev pub period_of : Text → Text
period_of period =
    if period == text "current_month" || period == text "month"
    then text "current_month"
    else if is_nil period || period == text "last_30_days" || period == text "30d"
    then text "last_30_days"
    else if period == text "last_5_hours" || period == text "5h"
    then text "last_5_hours"
    else if period == text "last_7_days" || period == text "7d"
    then text "last_7_days"
    else if period == text "all" || period == text "all_time"
    then text "all_time"
    else text "last_30_days"

abbrev pub bucket_of : Text → Text
bucket_of bucket =
    if bucket == text "hour"
    then text "hour"
    else if is_nil bucket || bucket == text "day"
    then text "day"
    else if bucket == text "minute"
    then text "minute"
    else if bucket == text "week"
    then text "week"
    else if bucket == text "month"
    then text "month"
    else text "day"

-- `value` is `url.Values.Get`.
unfoldable pub normalize_usage_filter : (Text → Text) → UsageFilter
normalize_usage_filter value =
    let source = trim_space (value (text "source")) in
    record {
      period = period_of (to_lower (trim_space (value (text "period"))));
      bucket = bucket_of (to_lower (trim_space (value (text "bucket"))));
      source = if is_nil source then text "all" else source;
    }

-- What the calendar says of a record at present.
pub record Age : Type 0 where
  pub before_5_hours : Bool
  pub before_7_days : Bool
  pub before_30_days : Bool
  pub other_month : Bool

abbrev pub is_old : Text → Age → Bool
is_old period age =
    if period == text "last_5_hours"
    then age.before_5_hours
    else if period == text "last_7_days"
    then age.before_7_days
    else if period == text "last_30_days"
    then age.before_30_days
    else if period == text "current_month"
    then age.other_month
    else false

unfoldable pub record_matches_usage_filter : Age → UsageRecord → UsageFilter → Bool
record_matches_usage_filter age r filter =
    if is_old filter.period age
    then false
    else if not (is_nil filter.source) && not (filter.source == text "all")
    then equal_fold r.client_app filter.source
    else true
