-- ===== src/Scan.antt =====
-- src/providers.go: the loop of `scanProviderDiagnostics` over the records that were discovered.
pub mod Owned
use agy_identity_bridge.Base.{
  ℕ, suc, Bool, true, false, not, ◌&&◌, ◌||◌, Option, none, some, List, [], ◌∷◌, ◌++◌, ltb, eqb,
  if◌then◌else◌, length, is_nil, any,
}
use agy_identity_bridge.Text.{Text, text, ◌==◌, trim_space, to_lower}
use agy_identity_bridge.Value.{put}
use agy_identity_bridge.Headers.{display_provider_name}
use agy_identity_bridge.Config.{PluginSettings}
use agy_identity_bridge.Registry.{MatchedProviderRecord}
use agy_identity_bridge.Discovery.{DiscoveredProvider, match_discovered_provider}
use agy_identity_bridge.Spec.{trim_right_slashes}

-- What `url.Parse` makes of a text; `rest` is all that the code leaves as it is.
pub record ParsedUrl : Type 0 where
  pub user : Option Text
  pub raw_query : Text
  pub force_query : Bool
  pub fragment : Text
  pub rest : Text

pub record ProviderStatus : Type 0 where
  pub name : Text
  pub label : Text
  pub provider_key : Text
  pub url : Text
  pub prefix : Text
  pub source : Text
  pub auth_index : Text
  pub native : Bool
  pub active : Bool
  pub disabled : Bool
  pub matched : Bool
  pub api_key_configured : Bool
  pub api_key_count : ℕ
  pub matched_by : List Text

-- The text before the first `?` or `#`.
unfoldable pub before_query : Text → Text
before_query [] = []
before_query (c ∷ s) = if eqb c b'?' || eqb c b'#' then [] else c ∷ before_query s

-- The parser of URLs, and `URL.String`.
module _ (parse_url : Text → Option ParsedUrl) (print_url : ParsedUrl → Text) where
  abbrev print_redacted : Text → Option ParsedUrl → Text
  print_redacted raw (some parsed) = trim_right_slashes (
      print_url (record parsed { user = none; raw_query = []; force_query = false; fragment = [] }))
  print_redacted raw none = trim_right_slashes (before_query raw)

  unfoldable pub redact_url : Text → Text
  unfolding before_query
  redact_url raw =
      if is_nil (trim_space raw)
      then []
      else print_redacted (trim_space raw) (parse_url (trim_space raw))

  unfoldable pub provider_identity_key : DiscoveredProvider → Text
  unfolding redact_url
  provider_identity_key item =
      let key = to_lower (trim_space item.provider_key) in
      let name = to_lower (trim_space item.name) in
      if not (is_nil key)
      then key
      else if not (is_nil name)
      then name
      else to_lower (trim_space (redact_url item.url))

  unfoldable pub provider_status : DiscoveredProvider → Bool × List Text → ProviderStatus
  unfolding redact_url
  provider_status item (matched, matched_by) = record {
    name = display_provider_name (item.name ∷ item.provider_key ∷ [] ∷ []);
    label = item.label;
    provider_key = item.provider_key;
    url = redact_url item.url;
    prefix = item.prefix;
    source = item.source;
    auth_index = item.auth_index;
    native = item.native;
    active = item.active && not item.disabled;
    disabled = item.disabled;
    matched = matched;
    api_key_configured = ltb 0 (length item.api_keys);
    api_key_count = length item.api_keys;
    matched_by = matched_by;
  }

-- The record of a matched item and one of its keys, and its key in `matchedRecordsSeen`.
abbrev pub matched_record : DiscoveredProvider → Text → MatchedProviderRecord
matched_record item api_key = record {
  name = display_provider_name (item.name ∷ item.provider_key ∷ [] ∷ []);
  prefix = item.prefix;
  url = item.url;
  api_key = api_key;
}

abbrev pub seen_key : MatchedProviderRecord → Text
seen_key r = to_lower r.prefix ++ 0 ∷ r.api_key

abbrev pub Seen : Type 0
Seen = List (Text × MatchedProviderRecord)

abbrev pub put_records : DiscoveredProvider → List Text → Seen → Seen
put_records item [] seen = seen
put_records item (key ∷ keys) seen =
    put_records item keys (put (seen_key (matched_record item key)) (matched_record item key) seen)

abbrev pub is_configured : DiscoveredProvider → Bool
is_configured item = item.source == text "openai-compatibility"

unfoldable pub see_records : DiscoveredProvider → Seen → Seen
unfolding put
see_records item seen =
    if not (is_configured item)
    then seen
    else if is_nil item.api_keys
    then put_records item ([] ∷ []) seen
    else put_records item item.api_keys seen

-- The counters and lists of the loop.
pub record ScanState : Type 0 where
  pub configured : ℕ
  pub runtime : ℕ
  pub matched : ℕ
  pub unmatched : ℕ
  pub matched_keys : List Text
  pub scanned_providers : List ProviderStatus
  pub providers : List ProviderStatus
  pub seen : Seen

abbrev pub no_scan : ScanState
no_scan = record {
  configured = 0;
  runtime = 0;
  matched = 0;
  unmatched = 0;
  matched_keys = [];
  scanned_providers = [];
  providers = [];
  seen = [];
}

abbrev pub count_if : Bool → ℕ → ℕ
count_if b n = if b then suc n else n

-- An item is counted by its source and listed.
abbrev pub listed : DiscoveredProvider → ProviderStatus → ScanState → ScanState
listed item status st = record st {
  configured = count_if (is_configured item) st.configured;
  runtime = count_if (item.source == text "runtime-auth") st.runtime;
  scanned_providers = st.scanned_providers ++ status ∷ [];
}

-- `key` is the provider's own key, a member of a set.
abbrev pub count_match : Bool → Text → DiscoveredProvider → ProviderStatus → ScanState → ScanState
count_match false key item status st = record st { unmatched = suc st.unmatched }
count_match true key item status st = record st {
  matched = suc st.matched;
  matched_keys =
      if any (λ k. k == key) st.matched_keys then st.matched_keys else key ∷ st.matched_keys;
  providers = st.providers ++ status ∷ [];
  seen = see_records item st.seen;
}

module _ (parse_url : Text → Option ParsedUrl) (print_url : ParsedUrl → Text)
    (settings : PluginSettings) where
  unfoldable pub scan_item : DiscoveredProvider → ScanState → ScanState
  unfolding see_records
  scan_item item st =
      let status =
        provider_status parse_url print_url item (match_discovered_provider settings item) in
      count_match (match_discovered_provider settings item).0
        (provider_identity_key parse_url print_url item) item status (listed item status st)

  unfoldable pub scan_items : List DiscoveredProvider → ScanState → ScanState
  unfolding scan_item
  scan_items [] st = st
  scan_items (item ∷ items) st = scan_items items (scan_item item st)
