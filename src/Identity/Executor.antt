-- ===== src/Identity/Executor.antt =====
-- src/executor.go `identityFromExecutorRequest`: who sends a request that the executor serves.
use agy_identity_bridge.Base.{◌≡◌, refl, false, not, ◌||◌, List, [], ◌∷◌, if◌then◌else◌, is_nil}
use agy_identity_bridge.Text.{Text, text}
use agy_identity_bridge.Headers.{Headers, first_header_value}
use agy_identity_bridge.Config.{PluginSettings}
use agy_identity_bridge.Identity.{
  ClientIdentityContext, normalize_client_app, derive_stable_principal, allowed,
}

module _ (sha256_hex : Text → Text) where
  abbrev or_default : Text → Text → Text
  or_default value default = if is_nil value then default else value

  -- A principal that the client sent stands; otherwise one is derived.
  abbrev with_derived : ClientIdentityContext → Text × Text → ClientIdentityContext
  with_derived context (principal, source) =
      if is_nil context.principal
      then record context { principal = principal; principal_source = source }
      else context

  -- `now` is the timestamp of a request that brings none. The source then copies eight fields of
  -- the context into a `clientIdentity`.
  unfoldable pub identity_from_executor_request :
      Text → PluginSettings → Headers → ClientIdentityContext
  unfolding derive_stable_principal
  identity_from_executor_request now settings headers =
      let header : List Text → Text = λ names.
        allowed sha256_hex settings.allow_explicit_client_identity_headers
          (first_header_value headers names) in
      let principal = header (text "X-AGY-Principal" ∷ []) in
      let app = header (text "X-AGY-Client-App" ∷ text "X-AGY-Device" ∷ []) in
      let inst = header (text "X-AGY-Client-Instance" ∷ []) in
      let profile = header (text "X-AGY-Capability-Profile" ∷ []) in
      let connector = header (text "X-AGY-Connector-Id" ∷ []) in
      let timestamp =
        if is_nil principal then [] else first_header_value headers (text "X-AGY-Timestamp" ∷ []) in
      let context : ClientIdentityContext = record {
        principal = principal;
        client_app =
            or_default app
              (normalize_client_app [] (first_header_value headers (text "User-Agent" ∷ [])));
        client_instance = inst;
        capability_profile = profile;
        connector_id = connector;
        session_id = header (text "X-AGY-Session-ID" ∷ text "X-Session-ID" ∷ []);
        provider_name =
            first_header_value headers
              (text "X-AGY-CPA-Provider-Name" ∷ text "X-AGY-Provider" ∷ []);
        timestamp = or_default timestamp now;
        client_key_hash = [];
        principal_source = [];
        explicit_identity =
            not (is_nil principal)
            || not (is_nil app)
            || not (is_nil inst)
            || not (is_nil profile)
            || not (is_nil connector);
      } in
      with_derived context (derive_stable_principal sha256_hex settings context [] headers)

  -- When client identity headers are not allowed, the identity of a request depends on its user
  -- agent and the provider's name only: two requests that agree on these have one identity,
  -- whatever identity headers they carry.
  pub identity_from_executor_request-hidden :
      (now : Text) (settings : PluginSettings) (headers headers' : Headers)
      → settings.allow_explicit_client_identity_headers ≡ false
      → first_header_value headers (text "User-Agent" ∷ [])
        ≡ first_header_value headers' (text "User-Agent" ∷ [])
      → first_header_value headers (text "X-AGY-CPA-Provider-Name" ∷ text "X-AGY-Provider" ∷ [])
        ≡ first_header_value headers' (text "X-AGY-CPA-Provider-Name" ∷ text "X-AGY-Provider" ∷ [])
      → identity_from_executor_request now settings headers
        ≡ identity_from_executor_request now settings headers'
  unfolding identity_from_executor_request
  identity_from_executor_request-hidden now settings headers headers' off agent provider =
      rw (off, agent, provider) refl
