-- ===== src/Dispatch/Injected.antt =====
-- src/dispatch.go `handleInterceptAfter`: when identity headers are injected, and what is signed.
use agy_identity_bridge.Base.{
  List, ◌+◌, ◌%◌, ◌≡◌, refl, Bool, true, false, not, ◌&&◌, Option, none, some, List, [], ◌∷◌,
  if◌then◌else◌, if_cases, is_nil,
}
use agy_identity_bridge.Text.{Text, text, ◌==◌}
use agy_identity_bridge.Int64.{word}
use agy_identity_bridge.Value.{get, put}
use agy_identity_bridge.Headers.{Headers}
use agy_identity_bridge.Candidate.{ProviderCandidate}
use agy_identity_bridge.Config.Secret.{hmac_secret_for_candidate}
use agy_identity_bridge.Config.Selectors.{should_intercept_candidate}
use agy_identity_bridge.Identity.{
  ClientIdentityContext, identity_signature_message, derive_client_identity_from_intercept,
}
use agy_identity_bridge.Intercept.{InterceptRequestPayload, candidate_from_payload}
use agy_identity_bridge.Routes.{request_path_from_metadata, signed_upstream_path}
use agy_identity_bridge.Upstream.{signature_header}
use agy_identity_bridge.Registry.{DashboardEvent}
use agy_identity_bridge.Diagnostics.Counters.{record_intercept}
use agy_identity_bridge.Dispatch.{
  InterceptResponsePayload, no_response, Noted, InterceptInputs, put_unless_nil, injected_headers,
  injected, inject, intercept_payload,
}
use agy_identity_bridge.Dispatch.HeaderTable.{
  Table, look, look-put, identity_table, look-signature, injected_headers-table,
}

put-ne-nil {ℓ} :
    {A : Type ℓ} (key : Text) (value : A) (m : List (Text × A)) → is_nil (put key value m) ≡ false
unfolding put
put-ne-nil key value [] = refl
put-ne-nil key value ((k, v) ∷ m) =
    if_cases (λ (l : List (Text × _)). is_nil l ≡ false) (k == key) _ _ (λ _. refl) (λ _. refl)

put_unless_nil-ne-nil :
    (key value : Text) (headers : Headers)
    → is_nil headers ≡ false
    → is_nil (put_unless_nil key value headers) ≡ false
put_unless_nil-ne-nil key value headers h =
    if_cases (λ (hs : Headers). is_nil hs ≡ false) (is_nil value) headers
      (put key (value ∷ []) headers) (λ _. h) (λ _. put-ne-nil key (value ∷ []) headers)

injected_headers-ne-nil :
    (version provider : Text) (identity : ClientIdentityContext)
    → is_nil (injected_headers version identity provider) ≡ false
injected_headers-ne-nil version provider identity =
    put_unless_nil-ne-nil (text "X-AGY-Connector-Id") identity.connector_id _ (
      put_unless_nil-ne-nil (text "X-AGY-Capability-Profile") identity.capability_profile _
        (put_unless_nil-ne-nil (text "X-AGY-Client-Instance") identity.client_instance _ refl))

module _ (sha256_hex : Text → Text) (compute_hmac : Text → Text → Text)
    (url_path : Text → Option Text) where
  -- The signature that an injected identity should carry.
  abbrev pub signature :
      InterceptInputs → InterceptRequestPayload → ProviderCandidate → ClientIdentityContext → Text
  signature i payload candidate identity =
      compute_hmac
        (identity_signature_message identity (text "POST") (
          signed_upstream_path url_path payload.model payload.to_format []
            (request_path_from_metadata payload.metadata) i.spec))
        (hmac_secret_for_candidate i.env i.settings candidate.api_key)

  -- What an injected identity carries.
  abbrev pub carried :
      InterceptInputs → InterceptRequestPayload → ProviderCandidate → ClientIdentityContext → Table
  carried i payload candidate identity =
      (
        signature_header,
        if is_nil (hmac_secret_for_candidate i.env i.settings candidate.api_key)
            then none
            else some (signature i payload candidate identity ∷ []),
      )
      ∷ identity_table i.version identity candidate.name

  -- What becomes of a request: `given` is whether an identity is injected.
  record IsInjected (given : Bool) (i : InterceptInputs) (payload : InterceptRequestPayload)
      (candidate : ProviderCandidate) (identity : ClientIdentityContext) (noted : Noted)
      (r : InterceptResponsePayload × Noted) : Type 0 where
    shown : is_nil r.0.headers ≡ not given
    counted : r.1.0.count ≡ (if given then (noted.0.count + 1) % word else noted.0.count)
    carries :
        (key : Text)
        → get key r.0.headers
          ≡ (if given then look key (carried i payload candidate identity) else none)

  no-response :
      (i : InterceptInputs) (payload : InterceptRequestPayload) (candidate : ProviderCandidate)
      (identity : ClientIdentityContext) (noted : Noted) (events : List DashboardEvent)
      → IsInjected false i payload candidate identity noted (no_response, (noted.0, events))
  unfolding get
  no-response i payload candidate identity noted events = record {
    shown = refl;
    counted = refl;
    carries = λ key. refl;
  }

  shown-if :
      (blank : Bool) (value : List Text) (headers : Headers)
      → is_nil headers ≡ false
      → is_nil (if blank then headers else put signature_header value headers) ≡ false
  shown-if true value headers h = h
  shown-if false value headers h = put-ne-nil signature_header value headers

  either :
      (given : Bool) (i : InterceptInputs) (payload : InterceptRequestPayload)
      (candidate : ProviderCandidate) (identity : ClientIdentityContext) (noted : Noted)
      (a b : InterceptResponsePayload × Noted)
      → IsInjected false i payload candidate identity noted a
      → IsInjected true i payload candidate identity noted b
      → IsInjected (not given) i payload candidate identity noted (if given then a else b)
  either true i payload candidate identity noted a b h k = h
  either false i payload candidate identity noted a b h k = k

  given-IsInjected :
      (i : InterceptInputs) (payload : InterceptRequestPayload) (candidate : ProviderCandidate)
      (identity : ClientIdentityContext) (noted : Noted)
      → IsInjected true i payload candidate identity noted (
        record no_response {
          headers = injected sha256_hex compute_hmac url_path i payload candidate identity;
        },
        record_intercept i.clock candidate identity noted,
      )
  unfolding record_intercept
  given-IsInjected i payload candidate identity (state, events) =
      let blank = is_nil (hmac_secret_for_candidate i.env i.settings candidate.api_key) in
      let headers = injected_headers i.version identity candidate.name in
      let value = signature i payload candidate identity in
      record {
        shown =
            shown-if blank (value ∷ []) headers
              (injected_headers-ne-nil i.version candidate.name identity);
        counted = refl;
        carries =
            look-put blank signature_header (value ∷ []) headers
              (identity_table i.version identity candidate.name)
              (look-signature i.version candidate.name identity)
              (injected_headers-table i.version candidate.name identity);
      }

  inject-IsInjected :
      (i : InterceptInputs) (payload : InterceptRequestPayload) (candidate : ProviderCandidate)
      (identity : ClientIdentityContext) (noted : Noted)
      → IsInjected
          (not (is_nil identity.principal))
          i
          payload
          candidate
          (record identity { provider_name = candidate.name })
          noted
          (inject sha256_hex compute_hmac url_path i payload candidate identity noted)
  inject-IsInjected i payload candidate identity (state, events) =
      either (is_nil identity.principal) i payload candidate
        (record identity { provider_name = candidate.name }) (state, events) _ _
        (no-response i payload candidate _ (state, events) _)
        (given-IsInjected i payload candidate (record identity { provider_name = candidate.name })
          (state, events))

  allowed-if :
      (allowed given : Bool) (i : InterceptInputs) (payload : InterceptRequestPayload)
      (candidate : ProviderCandidate) (identity : ClientIdentityContext) (noted : Noted)
      (r : InterceptResponsePayload × Noted)
      → IsInjected given i payload candidate identity noted r
      → IsInjected
          (allowed && given)
          i
          payload
          candidate
          identity
          noted
          (if not allowed then (no_response, noted) else r)
  allowed-if true given i payload candidate identity noted r h = h
  allowed-if false given i payload candidate identity (state, events) r h =
      no-response i payload candidate identity (state, events) events

-- An identity is injected into a request exactly when the plugin is enabled, the settings match the
-- provider that serves the request, and a principal is derived. It is counted then, once, and the
-- headers of the response are these and no other: the principal, the timestamp, the client app, the
-- version and the provider's name; the client instance, capability profile and connector that are
-- not empty; and where there is a secret for that provider, the signature, which is the HMAC of the
-- identity, of POST, and of the path that `signedUpstreamPath` gives for the payload's model, its
-- target format, no alt and the request path of its metadata. Any other request gets no header and
-- is not counted.
pub intercept_payload-injects :
    (sha256_hex : Text → Text) (compute_hmac : Text → Text → Text) (url_path : Text → Option Text)
    (i : InterceptInputs) (payload : InterceptRequestPayload) (noted : Noted)
    → let candidate = candidate_from_payload i.records payload in
      let derived =
        derive_client_identity_from_intercept sha256_hex i.timestamp payload.headers
          payload.metadata i.settings in
      let identity = record derived { provider_name = candidate.name } in
      let given =
        i.settings.enabled
        && ((should_intercept_candidate i.settings candidate).0
            && not (is_nil derived.principal)) in
      let secret = hmac_secret_for_candidate i.env i.settings candidate.api_key in
      let path =
        signed_upstream_path url_path payload.model payload.to_format []
          (request_path_from_metadata payload.metadata)
          i.spec in
      let signed =
        if is_nil secret
        then none
        else some
            (compute_hmac (identity_signature_message identity (text "POST") path) secret ∷ []) in
      let r = intercept_payload sha256_hex compute_hmac url_path i payload noted in
      (is_nil r.0.headers ≡ not given)
      × (r.1.0.count ≡ (if given then (noted.0.count + 1) % word else noted.0.count))
      × ((key : Text)
          → get key r.0.headers ≡ (
              if given
              then look key
                  ((signature_header, signed) ∷ identity_table i.version identity candidate.name)
              else none))
unfolding intercept_payload
intercept_payload-injects sha256_hex compute_hmac url_path i payload noted =
    let candidate = candidate_from_payload i.records payload in
    let derived =
      derive_client_identity_from_intercept sha256_hex i.timestamp payload.headers payload.metadata
        i.settings in
    let identity = record derived { provider_name = candidate.name } in
    let h =
      allowed-if sha256_hex compute_hmac url_path i.settings.enabled _ i payload candidate identity
        noted _
        (allowed-if sha256_hex compute_hmac url_path
          (should_intercept_candidate i.settings candidate).0 _ i payload candidate identity noted _
          (inject-IsInjected sha256_hex compute_hmac url_path i payload candidate derived noted)) in
    (h.shown, h.counted, h.carries)
