-- ===== src/Usage.antt =====
-- src/usage.go: token totals, the bounded list of observations and their summary.
-- A count is an int64: sums wrap around. Times are parameters.
pub mod Sums
pub mod Filter
pub mod Summary
pub mod Page
pub mod Conservation
pub mod Counts
pub mod Parser
use agy_identity_bridge.Base.{
  ℕ, Bool, false, not, ◌&&◌, ◌||◌, Option, none, some, List, [], ◌∷◌, reverse, eqb, if◌then◌else◌,
  is_nil,
}
use agy_identity_bridge.Text.{Text, text, ◌==◌, trim_space, to_lower}
use agy_identity_bridge.Int64.{Int64, add64, is_positive, lt64}
use agy_identity_bridge.Int64.{parse_int}
use agy_identity_bridge.Value.{int, float64, string, boolean, Value, Map, as_map, bind}
use agy_identity_bridge.Headers.{Headers, first_header_value}
use agy_identity_bridge.Identity.{abbreviated}
use agy_identity_bridge.Registry.{append_bounded}
use agy_identity_bridge.Routes.{get_key}

pub record UsageTotals : Type 0 where
  pub prompt_tokens : Int64
  pub completion_tokens : Int64
  pub total_tokens : Int64
  pub input_tokens : Int64
  pub output_tokens : Int64
  pub cached_tokens : Int64
  pub cache_hit : Bool

-- The seven counts of the source's record are one `UsageTotals`.
pub record UsageRecord : Type 0 where
  pub at : Text
  pub provider : Text
  pub model : Text
  pub client_app : Text
  pub principal : Text
  pub mode : Text
  pub totals : UsageTotals

abbrev pub max_usage_records : ℕ
max_usage_records = 2048

abbrev pub no_totals : UsageTotals
no_totals = record {
  prompt_tokens = 0;
  completion_tokens = 0;
  total_tokens = 0;
  input_tokens = 0;
  output_tokens = 0;
  cached_tokens = 0;
  cache_hit = false;
}

abbrev pub is_zero : UsageTotals → Bool
is_zero t =
    eqb t.prompt_tokens 0
    && eqb t.completion_tokens 0
    && eqb t.total_tokens 0
    && eqb t.input_tokens 0
    && eqb t.output_tokens 0
    && eqb t.cached_tokens 0
    && not t.cache_hit

-- The zero time is the empty text; the state is written to a file after each change.
unfoldable pub record_usage_observation : Text → UsageRecord → List UsageRecord → List UsageRecord
unfolding append_bounded
record_usage_observation now obs records =
    if is_zero obs.totals
    then records
    else append_bounded max_usage_records records
        (record obs { at = if is_nil obs.at then now else obs.at })

unfoldable pub merge_usage_totals : UsageTotals → UsageTotals → UsageTotals
merge_usage_totals left right = record {
  prompt_tokens = add64 left.prompt_tokens right.prompt_tokens;
  completion_tokens = add64 left.completion_tokens right.completion_tokens;
  total_tokens = add64 left.total_tokens right.total_tokens;
  input_tokens = add64 left.input_tokens right.input_tokens;
  output_tokens = add64 left.output_tokens right.output_tokens;
  cached_tokens = add64 left.cached_tokens right.cached_tokens;
  cache_hit = left.cache_hit || right.cache_hit;
}

-- `a` unless it is zero.
abbrev pub or_if_zero : Int64 → Int64 → Int64
or_if_zero a b = if eqb a 0 then b else a

-- The defaults of the counts that a usage object leaves out.
unfoldable pub complete_totals : UsageTotals → UsageTotals
unfolding add64 is_positive
complete_totals t =
    let input = or_if_zero t.input_tokens t.prompt_tokens in
    let output = or_if_zero t.output_tokens t.completion_tokens in
    let total =
      if eqb t.total_tokens 0 && (is_positive t.prompt_tokens || is_positive t.completion_tokens)
      then add64 t.prompt_tokens t.completion_tokens
      else t.total_tokens in
    let total' =
      if eqb total 0 && (is_positive input || is_positive output)
      then add64 input output
      else total in
    record t { input_tokens = input; output_tokens = output; total_tokens = total' }

unfoldable pub int64_from_string : Text → Int64
int64_from_string value = parse_int (trim_space value)

-- Decoded JSON has floats and strings; an int is kept, and a missing key is a nil value.
unfoldable pub int64_from_any : Option Value → Int64
unfolding int64_from_string
int64_from_any (some (int n)) = n
int64_from_any (some (float64 x)) = x.truncated
int64_from_any (some (string s)) = int64_from_string s
int64_from_any _ = 0

unfoldable pub bool_from_string : Text → Bool
bool_from_string value =
    let v = to_lower (trim_space value) in
    v == text "true"
    || v == text "yes"
    || v == text "on"
    || v == text "1"
    || v == text "hit"
    || v == text "cache_hit"

unfoldable pub bool_from_any : Option Value → Bool
unfolding bool_from_string
bool_from_any (some (boolean b)) = b
bool_from_any (some (string s)) = bool_from_string s
bool_from_any (some (int n)) = not (eqb n 0)
bool_from_any (some (float64 x)) = not x.is_zero
bool_from_any _ = false

abbrev pub read_totals : Map → UsageTotals
read_totals raw = record {
  prompt_tokens = int64_from_any (get_key (text "prompt_tokens") raw);
  completion_tokens = int64_from_any (get_key (text "completion_tokens") raw);
  total_tokens = int64_from_any (get_key (text "total_tokens") raw);
  input_tokens = int64_from_any (get_key (text "input_tokens") raw);
  output_tokens = int64_from_any (get_key (text "output_tokens") raw);
  cached_tokens = int64_from_any (get_key (text "cached_tokens") raw);
  cache_hit = bool_from_any (get_key (text "cache_hit") raw);
}

-- What a details object adds: a larger cached count, and a hit.
unfoldable pub add_details : Option Map → UsageTotals → UsageTotals
unfolding int64_from_any bool_from_any lt64
add_details none t = t
add_details (some details) t =
    let cached = int64_from_any (get_key (text "cached_tokens") details) in
    record t {
      cached_tokens = if lt64 t.cached_tokens cached then cached else t.cached_tokens;
      cache_hit = bool_from_any (get_key (text "cache_hit") details) || t.cache_hit;
    }

abbrev pub details_of : Text → Map → Option Map
details_of key raw = bind (get_key key raw) as_map

-- `none` for an object without any count.
unfoldable pub usage_totals_from_usage_object : Map → Option UsageTotals
unfolding add_details complete_totals int64_from_any bool_from_any
usage_totals_from_usage_object raw =
    let t = complete_totals (
      add_details (details_of (text "completion_tokens_details") raw)
        (add_details (details_of (text "prompt_tokens_details") raw) (read_totals raw))) in
    if is_zero t then none else some t

unfoldable pub recent_usage_records : List UsageRecord → List UsageRecord
recent_usage_records records = reverse records

-- The mark is three dots.
unfoldable pub mask_principal : Text → Text
unfolding abbreviated
mask_principal value = abbreviated (text "...") value

-- The `switch` on one header.
unfoldable pub put_header : Text → Text → UsageTotals → UsageTotals
unfolding int64_from_string bool_from_string
put_header key value t =
    let k = to_lower (trim_space key) in
    if k == text "x-usage-prompt-tokens"
    then record t { prompt_tokens = int64_from_string value }
    else if k == text "x-usage-completion-tokens"
    then record t { completion_tokens = int64_from_string value }
    else if k == text "x-usage-total-tokens"
    then record t { total_tokens = int64_from_string value }
    else if k == text "x-usage-input-tokens"
    then record t { input_tokens = int64_from_string value }
    else if k == text "x-usage-output-tokens"
    then record t { output_tokens = int64_from_string value }
    else if k == text "x-usage-cached-tokens"
    then record t { cached_tokens = int64_from_string value }
    else if k == text "x-usage-cache-hit" || k == text "x-cache-hit"
    then record t { cache_hit = bool_from_string value }
    else t

-- The loop over the headers, in the order in which `range` visits them.
unfoldable pub put_headers : Headers → UsageTotals → UsageTotals
unfolding put_header
put_headers [] t = t
put_headers ((key, values) ∷ headers) t =
    let value = first_header_value ((key, values) ∷ []) (key ∷ []) in
    put_headers headers (if is_nil value then t else put_header key value t)

unfoldable pub parse_usage_totals_from_headers : Headers → Option UsageTotals
unfolding put_headers complete_totals
parse_usage_totals_from_headers headers =
    let t = complete_totals (put_headers headers no_totals) in
    if is_nil headers then none else if is_zero t then none else some t
