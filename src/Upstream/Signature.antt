-- ===== src/Upstream/Signature.antt =====
-- src/executor.go `identityHeaders` and `buildUpstreamRequest`: what the signature covers.
use agy_identity_bridge.Base.{
  ◌≡◌, Bool, not, ◌&&◌, Option, none, some, List, [], ◌∷◌, if◌then◌else◌, is_nil,
}
use agy_identity_bridge.Text.{Text, ◌==◌}
use agy_identity_bridge.Value.{Map, get}
use agy_identity_bridge.Headers.{Headers}
use agy_identity_bridge.Config.{PluginSettings}
use agy_identity_bridge.Config.Secret.{hmac_secret_for_candidate}
use agy_identity_bridge.Identity.{ClientIdentityContext, identity_signature_message}
use agy_identity_bridge.Spec.{ProviderSpec, upstream_base_url, primary_api_key}
use agy_identity_bridge.Routes.{upstream_request_url, path_or}
use agy_identity_bridge.Payload.{Body}
use agy_identity_bridge.Upstream.{signature_header, Built, built}

abbrev is_other : Text → Bool
is_other key = not (key == signature_header)

module _ (compute_hmac : Text → Text → Text) (env : Text) (settings : PluginSettings)
    (b64 : Text → Text) (unmarshal : Text → Body) (marshal : Map → Option Text)
    (url_path : Text → Option Text) where
  -- The signature that a message should carry: none without a secret or a principal.
  abbrev pub signature_of : ClientIdentityContext → ProviderSpec → Text → Option (List Text)
  signature_of identity spec message =
      let secret = hmac_secret_for_candidate env settings (primary_api_key spec) in
      if not (is_nil secret) && not (is_nil identity.principal)
      then some (compute_hmac message secret ∷ [])
      else none

  -- What is signed is the path of the URL that the request is sent to.
  abbrev IsSigned : ClientIdentityContext → ProviderSpec → Text → Built → Type 0
  IsSigned identity spec endpoint (built r) =
      (get signature_header r.headers
        ≡ signature_of identity spec (
            identity_signature_message identity r.method
              (path_or url_path endpoint (url_path r.url))))
      × (path_or url_path endpoint (url_path r.url)
          ≡ (upstream_request_url url_path (upstream_base_url spec) endpoint).1)
  IsSigned identity spec endpoint _ = Unit
