-- ===== src/Config/Normal.antt =====
-- `normalizeSettings` reaches normal settings in one pass.
use agy_identity_bridge.Base.{
  ◌≡◌, refl, ap, ◌∙◌, inl, inr, false, List, [], ◌∷◌, ◌++◌, arith, Bool-cases, is_nil,
}
use agy_identity_bridge.Text.{Text, text, ◌==◌, trim_space, trim_dashes, to_lower, split}
use agy_identity_bridge.Text.Equality.{to_lower_idem}
use agy_identity_bridge.Text.Trimming.{trim_space_idem, trim_space-to_lower}
use agy_identity_bridge.Unique.{unique_selectors}
use agy_identity_bridge.Unique.Laws.{unique_loop-concat}
use agy_identity_bridge.Config.{
  PluginSettings, normalize_match_mode, normalize_fallback_mode, normalize_secret_source,
  executor_provider_or_default, normalize_settings, default_executor_provider,
}
use agy_identity_bridge.Config.Keys.{normalize_executor_provider_key, normalize_provider_key}
use agy_identity_bridge.Config.Keys.Laws.{normalize_executor_provider_key_idem}

normalize_match_mode_idem :
    (s : Text) → normalize_match_mode (normalize_match_mode s) ≡ normalize_match_mode s
unfolding normalize_match_mode
normalize_match_mode_idem s = elim (Bool-cases (to_lower (trim_space s) == text "all")) [
  | inl e ↦ rw e (unfold text to_lower trim_space ◌==◌ in refl)
  | inr e ↦ rw e (unfold text to_lower trim_space ◌==◌ in refl)
]

normal_lower :
    (s : Text) → to_lower (trim_space (to_lower (trim_space s))) ≡ to_lower (trim_space s)
normal_lower s =
    ap to_lower (trim_space-to_lower (trim_space s))
    ∙ to_lower_idem (trim_space (trim_space s))
    ∙ ap to_lower (trim_space_idem s)

default_mode : normalize_fallback_mode (text "client_key_hash") ≡ text "client_key_hash"
unfolding normalize_fallback_mode text to_lower trim_space ◌==◌
default_mode = refl

normalize_fallback_mode_idem :
    (s : Text) → normalize_fallback_mode (normalize_fallback_mode s) ≡ normalize_fallback_mode s
unfolding normalize_fallback_mode
normalize_fallback_mode_idem s = ground (arith, normal_lower s, default_mode)

default_source : normalize_secret_source (text "env") ≡ text "env"
unfolding normalize_secret_source text to_lower trim_space ◌==◌
default_source = refl

normalize_secret_source_idem :
    (s : Text) → normalize_secret_source (normalize_secret_source s) ≡ normalize_secret_source s
unfolding normalize_secret_source
normalize_secret_source_idem s = ground (arith, normal_lower s, default_source)

default_provider :
    normalize_executor_provider_key default_executor_provider ≡ default_executor_provider
unfolding normalize_executor_provider_key normalize_provider_key text trim_space trim_dashes split
default_provider = refl

default_provider_ne : is_nil default_executor_provider ≡ false
unfolding text
default_provider_ne = refl

executor_provider_or_default_idem :
    (s : Text)
    → executor_provider_or_default (executor_provider_or_default s) ≡ executor_provider_or_default s
unfolding executor_provider_or_default
executor_provider_or_default_idem s =
    ground (arith, normalize_executor_provider_key_idem s, default_provider, default_provider_ne)

unique_selectors-concat :
    (values : List Text) (v : Text)
    → unique_selectors
        (unique_selectors (values ++ trim_space v ∷ []) ++ trim_space (trim_space v) ∷ [])
      ≡ unique_selectors (values ++ trim_space v ∷ [])
unfolding unique_selectors
unique_selectors-concat values v =
    rw (trim_space_idem v)
      (unique_loop-concat trim_space to_lower trim_space_idem (trim_space v) values)

-- Normalising settings twice is normalising them once, so every place that normalises again, as
-- the request paths do, sees the settings that were applied.
pub normalize_settings_idem :
    (s : PluginSettings) → normalize_settings (normalize_settings s) ≡ normalize_settings s
unfolding normalize_settings
normalize_settings_idem s = λ i. record (normalize_settings s) {
  match_mode = normalize_match_mode_idem s.match_mode i;
  principal_fallback_mode = normalize_fallback_mode_idem s.principal_fallback_mode i;
  hmac_secret_source = normalize_secret_source_idem s.hmac_secret_source i;
  match_name = trim_space_idem s.match_name i;
  match_url = trim_space_idem s.match_url i;
  match_api_key = trim_space_idem s.match_api_key i;
  match_provider = trim_space_idem s.match_provider i;
  match_model = trim_space_idem s.match_model i;
  hmac_secret = trim_space_idem s.hmac_secret i;
  agy2api_identity_secret = trim_space_idem s.agy2api_identity_secret i;
  match_providers = unique_selectors-concat s.match_providers s.match_provider i;
  match_models = unique_selectors-concat s.match_models s.match_model i;
  model_namespace = trim_space_idem s.model_namespace i;
  executor_provider = executor_provider_or_default_idem s.executor_provider i;
}
