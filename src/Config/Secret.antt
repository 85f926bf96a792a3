-- ===== src/Config/Secret.antt =====
-- src/config.go `hmacSecret` and `hmacSecretSource`, and `hmacSecretForCandidate` of
-- src/providers.go. `env` is the value of the environment variable AGY_PLUGIN_SECRET.
use agy_identity_bridge.Base.{◌≡◌, ◌≢◌, not, [], arith, if◌then◌else◌, is_nil}
use agy_identity_bridge.Text.{Text, text, ◌==◌, trim_space}
use agy_identity_bridge.Config.{PluginSettings}

unfoldable pub hmac_secret : Text → PluginSettings → Text
hmac_secret env s =
    if not (is_nil s.agy2api_identity_secret)
    then s.agy2api_identity_secret
    else if not (is_nil s.hmac_secret)
    then s.hmac_secret
    else if not (is_nil (trim_space env))
    then trim_space env
    else []

unfoldable pub hmac_secret_source : Text → PluginSettings → Text
hmac_secret_source env s =
    if not (is_nil s.agy2api_identity_secret)
    then text "agy2api_identity_secret"
    else if not (is_nil s.hmac_secret)
    then text "config"
    else if not (is_nil (trim_space env))
    then text "env"
    else if s.hmac_secret_source == text "provider_api_key"
    then text "provider_api_key"
    else text "none"

unfoldable pub hmac_secret_for_candidate : Text → PluginSettings → Text → Text
unfolding hmac_secret
hmac_secret_for_candidate env s api_key =
    if not (is_nil (hmac_secret env s))
    then hmac_secret env s
    else if s.hmac_secret_source == text "provider_api_key"
    then trim_space api_key
    else []

-- The value that each reported source stands for.
abbrev pub secret_named : Text → PluginSettings → Text → Text → Text
secret_named env s api_key source =
    if source == text "agy2api_identity_secret"
    then s.agy2api_identity_secret
    else if source == text "config"
    then s.hmac_secret
    else if source == text "env"
    then trim_space env
    else if source == text "provider_api_key"
    then trim_space api_key
    else []

-- The source that diagnostics report is the one whose value signs, whatever is configured.
pub hmac_secret_for_candidate-source :
    (env : Text) (s : PluginSettings) (api_key : Text)
    → hmac_secret_for_candidate env s api_key
      ≡ secret_named env s api_key (hmac_secret_source env s)
unfolding hmac_secret_for_candidate hmac_secret_source text ◌==◌
hmac_secret_for_candidate-source env s api_key = ground arith

-- When the dedicated, the configured or the environment's secret is set, it signs whatever source
-- is configured, `none` included.
hmac_secret_for_candidate-ne-nil :
    (env : Text) (s : PluginSettings) (api_key mode : Text)
    → hmac_secret env s ≢ []
    → hmac_secret_for_candidate env (record s { hmac_secret_source = mode }) api_key
      ≡ hmac_secret env s
unfolding hmac_secret_for_candidate hmac_secret
hmac_secret_for_candidate-ne-nil env s api_key mode h = ground arith
