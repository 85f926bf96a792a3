-- ===== src/Config/Selectors.antt =====
-- src/config.go: `shouldInterceptCandidate`, `configuredSelectorCount`, `constantTimeEqual` and
-- `isNativeAntigravity`.
pub mod Laws
use agy_identity_bridge.Base.{
  ℕ, ◌+◌, Bool, true, false, not, ◌||◌, List, [], ◌∷◌, ◌++◌, ltb, eqb, if◌then◌else◌, length,
  is_nil,
}
use agy_identity_bridge.Text.{Text, text, ◌==◌, trim_space, equal_fold}
use agy_identity_bridge.Candidate.{ProviderCandidate}
use agy_identity_bridge.Unique.{unique_strings}
use agy_identity_bridge.Config.{PluginSettings, normalize_settings}
use agy_identity_bridge.Config.Glob.{match_text, any_text_match}

unfoldable pub constant_time_equal : Text → Text → Bool
constant_time_equal left right = if is_nil left || is_nil right then false else left == right

-- `criteriaCount`, `matchedCount` and `matchedBy`.
pub record Tally : Type 0 where
  pub criteria_count : ℕ
  pub matched_count : ℕ
  pub matched_by : List Text

unfoldable pub criterion : Bool → Text → Tally → Tally
criterion matched label t =
    if matched
    then record t {
      criteria_count = t.criteria_count + 1;
      matched_count = t.matched_count + 1;
      matched_by = t.matched_by ++ label ∷ [];
    }
    else record t { criteria_count = t.criteria_count + 1 }

-- A selector that is not set is no criterion.
unfoldable pub optional_criterion : Text → Bool → Text → Tally → Tally
unfolding criterion
optional_criterion selector matched label t =
    if is_nil selector then t else criterion matched label t

-- The loops over `MatchProviders` and `MatchModels`.
unfoldable pub pattern_criteria : List Text → Text → List Text → Tally → Tally
unfolding criterion
pattern_criteria values label [] t = t
pattern_criteria values label (pattern ∷ patterns) t =
    pattern_criteria values label patterns
      (criterion (any_text_match (pattern ∷ []) values) label t)

abbrev pub name_values : ProviderCandidate → List Text
name_values c = c.name ∷ c.provider_key ∷ c.to_format ∷ []

abbrev pub model_values : ProviderCandidate → List Text
model_values c = c.requested_model ∷ c.model ∷ []

abbrev pub no_criteria : Tally
no_criteria = record { criteria_count = 0; matched_count = 0; matched_by = [] }

-- The criteria in the order of the source, the last one outermost.
unfoldable pub tally : PluginSettings → ProviderCandidate → Tally
unfolding optional_criterion pattern_criteria
tally s c =
    let named =
      optional_criterion s.match_name (any_text_match (s.match_name ∷ []) (name_values c))
        (text "name") no_criteria in
    let provided = pattern_criteria (name_values c) (text "provider") s.match_providers named in
    let located =
      optional_criterion s.match_url (match_text s.match_url c.url) (text "url") provided in
    let keyed =
      optional_criterion s.match_api_key (constant_time_equal s.match_api_key c.api_key)
        (text "api_key") located in
    pattern_criteria (model_values c) (text "model") s.match_models keyed

-- With no selector set: native requests, resolved prefixes, then telling names and URLs.
unfoldable pub auto_discovery : PluginSettings → ProviderCandidate → Bool × List Text
auto_discovery s c =
    if not s.auto_discover
    then (false, [])
    else if c.native
    then (if s.include_native_antigravity
        then (true, text "native-antigravity" ∷ [])
        else (false, []))
    else if not (is_nil c.resolved_prefix)
    then (true, (text "model-prefix:" ++ c.resolved_prefix) ∷ [])
    else if any_text_match (text "*antigravity*" ∷ text "*agy2api*" ∷ []) (name_values c)
        || match_text (text "*antigravity*") c.url
        || match_text (text "*agy2api*") c.url
    then (true, text "auto-discovery" ∷ [])
    else (false, [])

unfoldable pub decide_tally : PluginSettings → ProviderCandidate → Tally → Bool × List Text
unfolding auto_discovery
decide_tally s c t =
    if eqb t.criteria_count 0
    then auto_discovery s c
    else if s.match_mode == text "all"
    then (eqb t.matched_count t.criteria_count, unique_strings t.matched_by)
    else (ltb 0 t.matched_count, unique_strings t.matched_by)

unfoldable pub should_intercept_candidate : PluginSettings → ProviderCandidate → Bool × List Text
unfolding tally decide_tally
should_intercept_candidate settings c =
    let s = normalize_settings settings in decide_tally s c (tally s c)

unfoldable pub configured_selector_count : PluginSettings → ℕ
configured_selector_count settings =
    let s = normalize_settings settings in
    (if is_nil s.match_name then 0 else 1)
    + (if is_nil s.match_url then 0 else 1)
    + (if is_nil s.match_api_key then 0 else 1)
    + length s.match_providers
    + length s.match_models

unfoldable pub is_native_antigravity : Text → Bool
is_native_antigravity value = equal_fold (trim_space value) (text "antigravity")
