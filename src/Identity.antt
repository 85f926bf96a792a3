-- ===== src/Identity.antt =====
-- src/identity.go: who sends a request, and the principal that stands for it.
-- SHA-256 in hexadecimal, the clock and the environment are parameters.
pub mod Executor
pub mod Message
pub mod Principal
pub mod Seed
use agy_identity_bridge.Base.{
  ◌-◌, Bool, not, ◌&&◌, ◌||◌, Option, List, [], ◌∷◌, ◌++◌, map, leb, if◌then◌else◌, length, is_nil,
  take, drop,
}
use agy_identity_bridge.Text.{Text, text, ◌==◌, trim_space, to_lower, contains, join}
use mathlib.Core.Option
use agy_identity_bridge.Value.{Map, or_zero}
use agy_identity_bridge.Headers.{
  Headers, first_header_value, first_non_empty, compact_non_empty, extract_bearer_token,
}
use agy_identity_bridge.Metadata.{metadata_string}
use agy_identity_bridge.Config.{PluginSettings, normalize_settings, default_executor_provider}
use agy_identity_bridge.Config.Keys.{normalize_provider_key}

pub record ClientIdentityContext : Type 0 where
  pub principal : Text
  pub client_app : Text
  pub client_instance : Text
  pub capability_profile : Text
  pub connector_id : Text
  pub session_id : Text
  pub provider_name : Text
  pub timestamp : Text
  pub client_key_hash : Text
  pub principal_source : Text
  pub explicit_identity : Bool

unfoldable pub normalize_client_app : Text → Text → Text
normalize_client_app client_app user_agent =
    let app = to_lower (trim_space client_app) in
    let ua = to_lower (trim_space user_agent) in
    if not (is_nil app)
    then app
    else if contains ua (text "codex")
    then text "codex"
    else if contains ua (text "hermes")
    then text "hermes"
    else if contains ua (text "cursor")
    then text "cursor"
    else if contains ua (text "openai/python")
    then text "openai-python"
    else text "unknown"

unfoldable pub identity_namespace : ClientIdentityContext → Text
identity_namespace context =
    let namespace = to_lower (
      trim_space (
        normalize_provider_key
          (first_non_empty (context.provider_name ∷ default_executor_provider ∷ [])))) in
    if is_nil namespace then text "agy-identity-bridge" else namespace

-- `strings.Join(compactNonEmpty(terms), "\x00")`
unfoldable pub seed_of : List Text → Text
seed_of terms = join (0 ∷ []) (compact_non_empty terms)

unfoldable pub explicit_terms : Text → Text → ClientIdentityContext → List Text
explicit_terms namespace app context =
    (text "namespace=" ++ namespace)
    ∷ (text "app=" ++ app)
    ∷ (text "instance=" ++ context.client_instance)
    ∷ (text "profile=" ++ context.capability_profile)
    ∷ (text "connector=" ++ context.connector_id)
    ∷ []

unfoldable pub three_terms : Text → Text → Text → Text → List Text
three_terms namespace app label value =
    (text "namespace=" ++ namespace) ∷ (text "app=" ++ app) ∷ (label ++ value) ∷ []

-- "agy-identity-bridge", NUL, the kind of seed, NUL.
abbrev pub salt : Text → Text
salt kind = text "agy-identity-bridge" ++ 0 ∷ (kind ++ 0 ∷ [])

module _ (sha256_hex : Text → Text) where
  unfoldable pub hash_string : Text → Text
  hash_string value = if is_nil (trim_space value) then [] else sha256_hex (trim_space value)

  -- The principal and where it comes from.
  abbrev pub Derived : Type 0
  Derived = Text × Text

  unfoldable pub session_principal : Text → Text → ClientIdentityContext → Derived
  session_principal namespace app context =
      let seed = seed_of (three_terms namespace app (text "session=") context.session_id) in
      if is_nil seed
      then ([], text "disabled")
      else (hash_string (salt (text "ua-session") ++ seed), text "user_agent_plus_session")

  -- The last two `if`s of the default case.
  unfoldable pub app_principal : Text → Text → Derived
  app_principal namespace app =
      if not (is_nil app)
      then (
        hash_string (
            salt (text "client-key")
            ++ (text "namespace=" ++ (namespace ++ 0 ∷ (text "app=" ++ app)))),
        text "client_key_hash",
      )
      else ([], text "disabled")

  unfoldable pub key_principal : Text → Text → ClientIdentityContext → Text → Derived
  unfolding app_principal
  key_principal namespace app context client_token =
      let instance_or_key =
        first_non_empty
          (context.client_instance ∷ hash_string client_token ∷ context.session_id ∷ []) in
      let seed = seed_of (three_terms namespace app (text "id=") instance_or_key) in
      if is_nil instance_or_key || is_nil seed
      then app_principal namespace app
      else (hash_string (salt (text "client-key") ++ seed), text "client_key_hash")

  unfoldable pub fallback_principal :
      PluginSettings → Text → Text → ClientIdentityContext → Text → Derived
  unfolding session_principal key_principal
  fallback_principal s namespace app context client_token =
      if s.principal_fallback_mode == text "disabled"
      then ([], text "disabled")
      else if s.principal_fallback_mode == text "user_agent_plus_session"
      then session_principal namespace app context
      else key_principal namespace app context client_token

  unfoldable pub derive_stable_principal :
      PluginSettings → ClientIdentityContext → Text → Headers → Derived
  unfolding fallback_principal
  derive_stable_principal settings context client_token headers =
      let s = normalize_settings settings in
      let app =
        normalize_client_app context.client_app
          (first_header_value headers (text "User-Agent" ∷ [])) in
      let namespace = identity_namespace context in
      let seed = seed_of (explicit_terms namespace app context) in
      if s.allow_explicit_client_identity_headers && context.explicit_identity && not (is_nil seed)
      then (hash_string (salt (text "explicit") ++ seed), text "explicit")
      else fallback_principal s namespace app context client_token

  abbrev with_principal : ClientIdentityContext → Text → Derived → ClientIdentityContext
  with_principal context key_hash (principal, source) = record context {
    client_key_hash = key_hash;
    principal = principal;
    principal_source = source;
  }

  abbrev allowed : Bool → Text → Text
  allowed allow value = if allow then value else []

  abbrev header_or_metadata : PluginSettings → Headers → Option Map → List Text → List Text → Text
  header_or_metadata settings headers metadata names keys =
      if settings.allow_explicit_client_identity_headers
      then first_non_empty (
          first_header_value headers names
          ∷ or_zero [] (Option.map (λ m. metadata_string m keys) metadata)
          ∷ [])
      else []

  unfoldable pub derive_client_identity_from_intercept :
      Text → Headers → Option Map → PluginSettings → ClientIdentityContext
  unfolding derive_stable_principal
  derive_client_identity_from_intercept now headers metadata settings =
      let allow = settings.allow_explicit_client_identity_headers in
      let app =
        header_or_metadata settings headers metadata (text "X-AGY-Client-App" ∷ [])
          (text "client_app" ∷ text "client-app" ∷ []) in
      let inst = header_or_metadata settings headers metadata (text "X-AGY-Client-Instance" ∷ []) (
        text "client_instance"
        ∷ text "client-instance"
        ∷ text "device_id"
        ∷ text "device-id"
        ∷ []) in
      let profile =
        header_or_metadata settings headers metadata (text "X-AGY-Capability-Profile" ∷ [])
          (text "capability_profile" ∷ text "capability-profile" ∷ text "profile" ∷ []) in
      let connector =
        header_or_metadata settings headers metadata (text "X-AGY-Connector-Id" ∷ [])
          (text "connector_id" ∷ text "connector-id" ∷ []) in
      let token = extract_bearer_token headers in
      let context : ClientIdentityContext = record {
        principal = [];
        client_app = normalize_client_app app (first_header_value headers (text "User-Agent" ∷ []));
        client_instance = inst;
        capability_profile = profile;
        connector_id = connector;
        session_id =
            allowed allow
              (first_header_value headers (text "X-AGY-Session-ID" ∷ text "X-Session-ID" ∷ []));
        provider_name = [];
        timestamp = [];
        client_key_hash = hash_string token;
        principal_source = [];
        explicit_identity =
            allow
            && (not (is_nil (trim_space app))
                || not (is_nil (trim_space inst))
                || not (is_nil (trim_space profile))
                || not (is_nil (trim_space connector)));
      } in
      record (with_principal context (hash_string token)
        (derive_stable_principal settings context token headers)) { timestamp = now }

unfoldable pub identity_signature_message : ClientIdentityContext → Text → Text → Text
identity_signature_message identity method path = join (10 ∷ []) (
    (text "principal=" ++ trim_space identity.principal)
    ∷ (text "timestamp=" ++ trim_space identity.timestamp)
    ∷ (text "client_app=" ++ trim_space identity.client_app)
    ∷ (text "client_instance=" ++ trim_space identity.client_instance)
    ∷ (text "capability_profile=" ++ trim_space identity.capability_profile)
    ∷ (text "connector_id=" ++ trim_space identity.connector_id)
    ∷ (text "method=" ++ trim_space method)
    ∷ (text "path=" ++ trim_space path)
    ∷ [])

-- The first and last `n` code points with a mark between them, or a short value whole.
unfoldable pub abbreviated : Text → Text → Text
abbreviated mark value =
    let v = trim_space value in
    if is_nil v
    then text "unknown"
    else if leb (length v) 12
    then v
    else take 6 v ++ (mark ++ drop (length v - 6) v)

-- The mark is an ellipsis.
unfoldable pub redacted_identity_label : Text → Text
unfolding abbreviated
redacted_identity_label value = abbreviated (0x2026 ∷ []) value
