-- ===== src/Examples/Config.antt =====
-- Witnesses about the configuration.
use agy_identity_bridge.Base.{◌<◌}
use agy_identity_bridge.Base.{◌⊎◌}
use agy_identity_bridge.Base.{
  ◌≡◌, refl, sym, ap, ◌∙◌, ◌≢◌, ◌↔◌, true, false, [], arith, if◌then◌else◌, length, any, all,
}
use agy_identity_bridge.Text.{text, ◌==◌, trim_space}
use agy_identity_bridge.Candidate.{ProviderCandidate}
use agy_identity_bridge.Config.{PluginSettings, default_plugin_settings, normalize_settings}
use agy_identity_bridge.Config.Normal.{normalize_settings_idem}
use agy_identity_bridge.Config.Glob.{match_text}
use agy_identity_bridge.Config.Glob.Meaning.{folded, Describes, match_text_iff}
use agy_identity_bridge.Config.Selectors.{
  should_intercept_candidate, configured_selector_count, auto_discovery,
}
use agy_identity_bridge.Config.Selectors.Laws.{
  selectors, selects, should_intercept_candidate-selectors, should_intercept_candidate-auto,
  configured_selector_count-selectors,
}
use agy_identity_bridge.Config.Secret.{
  hmac_secret_source, hmac_secret_for_candidate, secret_named, hmac_secret_for_candidate-source,
}

abbrev two_selectors : PluginSettings
two_selectors = record default_plugin_settings {
  match_mode = text "ALL";
  match_provider = text "ln.*";
  match_url = text "agy";
}

abbrev candidate : ProviderCandidate
candidate = record {
  name = text "ln.Antigravity";
  provider_key = text "ln.Antigravity";
  url = text "http://agy2api:8080/v1";
  api_key = text "key-1";
  to_format = text "openai";
  auth_id = [];
  model = text "gemini-3-pro";
  requested_model = [];
  resolved_prefix = [];
  client_token = [];
  native = false;
}

two_selectors_count : configured_selector_count two_selectors ≡ 2
unfolding configured_selector_count normalize_settings trim_space default_plugin_settings text
    agy_identity_bridge.Unique.unique_selectors
two_selectors_count = refl

selectors_set : selectors (normalize_settings two_selectors) ≢ []
selectors_set e =
    let zero_count : 2 ≡ length (selectors (normalize_settings two_selectors)) =
      sym two_selectors_count ∙ configured_selector_count-selectors two_selectors in
    absurd (omega (arith, zero_count ∙ ap length e))

match_text_iff_example : (match_text (text "LN.*") (text " ln.Antigravity") ≡ true) ↔ (
    (folded (text "LN.*") ≢ [])
    × (folded (text " ln.Antigravity") ≢ [])
    × Describes (folded (text "LN.*")) (folded (text " ln.Antigravity")))
match_text_iff_example = match_text_iff (text "LN.*") (text " ln.Antigravity")

should_intercept_candidate-selectors_example :
    (should_intercept_candidate two_selectors candidate).0 ≡ (
      if (normalize_settings two_selectors).match_mode == text "all"
      then all (selects candidate) (selectors (normalize_settings two_selectors))
      else any (selects candidate) (selectors (normalize_settings two_selectors)))
should_intercept_candidate-selectors_example =
    should_intercept_candidate-selectors two_selectors candidate selectors_set

should_intercept_candidate-auto_example :
    ((configured_selector_count two_selectors ≡ 0)
      × (should_intercept_candidate two_selectors candidate
          ≡ auto_discovery (normalize_settings two_selectors) candidate))
    ⊎ ((0 < configured_selector_count two_selectors)
        × ((should_intercept_candidate two_selectors candidate).0 ≡ (
            if (normalize_settings two_selectors).match_mode == text "all"
            then all (selects candidate) (selectors (normalize_settings two_selectors))
            else any (selects candidate) (selectors (normalize_settings two_selectors)))))
should_intercept_candidate-auto_example = should_intercept_candidate-auto two_selectors candidate

configured_selector_count-selectors_example :
    configured_selector_count two_selectors ≡ length (selectors (normalize_settings two_selectors))
configured_selector_count-selectors_example = configured_selector_count-selectors two_selectors

normalize_settings_idem_example :
    normalize_settings (normalize_settings two_selectors) ≡ normalize_settings two_selectors
normalize_settings_idem_example = normalize_settings_idem two_selectors

hmac_secret_for_candidate-source_example :
    hmac_secret_for_candidate [] two_selectors (text "key-1")
    ≡ secret_named [] two_selectors (text "key-1") (hmac_secret_source [] two_selectors)
hmac_secret_for_candidate-source_example =
    hmac_secret_for_candidate-source [] two_selectors (text "key-1")
