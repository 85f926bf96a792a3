-- ===== src/Examples/Identity.antt =====
-- Witnesses about identities, headers and maps.
use agy_identity_bridge.Text.{◌==◌}
use agy_identity_bridge.Config.{PluginSettings}
use agy_identity_bridge.Text.{equal_fold}
use agy_identity_bridge.Base.{ℕ, ◌≡◌, refl, ◌≢◌, ◌↔◌, true, false, List, [], ◌∷◌, arith, all, All}
use agy_identity_bridge.Text.{Text, text, trim_space, to_lower}
use agy_identity_bridge.Text.Splitting.{IsFree, is_free→IsFree, is_free}
use mathlib.Core.List.{Permᴰ}
use agy_identity_bridge.Headers.{compact_non_empty}
use agy_identity_bridge.Config.{default_plugin_settings, normalize_settings}
use agy_identity_bridge.Value.{Map, map_value, normalized_map_key, int, boolean}
use agy_identity_bridge.Value.Order.{HasDistinctKeys, map_value-perm}
use agy_identity_bridge.Identity.{ClientIdentityContext, derive_stable_principal, explicit_terms}
use agy_identity_bridge.Headers.{Headers, first_header_value}
use agy_identity_bridge.Identity.Executor.{
  identity_from_executor_request, identity_from_executor_request-hidden,
}
use agy_identity_bridge.Identity.Message.{
  signed_fields, identity_signature_message-injective, IsOneLine,
}
use agy_identity_bridge.Identity.Seed.{
  IsTrimmed, identity_fields, explicit_seed-injective, compact_non_empty-explicit_terms,
}
use agy_identity_bridge.Identity.Principal.{derive_stable_principal_iff, explicit_allowed}

abbrev hermes : ClientIdentityContext
hermes = record {
  principal = [];
  client_app = text "hermes";
  client_instance = text "laptop";
  capability_profile = text "full";
  connector_id = text "c1";
  session_id = [];
  provider_name = text "ln.Antigravity";
  timestamp = text "2026-01-01T00:00:00Z";
  client_key_hash = [];
  principal_source = [];
  explicit_identity = true;
}

-- A digest that keeps its argument and is never empty.
abbrev digest : Text → Text
digest s = b'#' ∷ s

digest-ne-nil : (s : Text) → digest s ≢ []
digest-ne-nil s e = cc

all-IsFree :
    (sep : ℕ) (values : List Text) → all (is_free sep) values ≡ true → All (IsFree sep) values
all-IsFree sep [] h = tt
all-IsFree sep (v ∷ values) h =
    (is_free→IsFree sep v (ground arith), all-IsFree sep values (ground arith))

hermes-IsTrimmed : All IsTrimmed (identity_fields (text "ns") (text "hermes") hermes)
unfolding text trim_space
hermes-IsTrimmed = (refl, (refl, (refl, (refl, (refl, tt)))))

hermes-IsFree : All (IsFree 0) (identity_fields (text "ns") (text "hermes") hermes)
unfolding text
hermes-IsFree = all-IsFree 0 (identity_fields (text "ns") (text "hermes") hermes) refl

hermes-IsOneLine : IsOneLine hermes (text "POST") (text "/v1/chat/completions")
unfolding text trim_space
hermes-IsOneLine =
    all-IsFree 10 (signed_fields hermes (text "POST") (text "/v1/chat/completions")) refl

derive_stable_principal_iff_example :
    ((derive_stable_principal digest default_plugin_settings hermes [] []).0 ≡ []
      ↔ ((normalize_settings default_plugin_settings).principal_fallback_mode ≡ text "disabled")
        × (explicit_allowed default_plugin_settings hermes ≡ false))
    × ((derive_stable_principal digest default_plugin_settings hermes [] []).0 ≡ []
        → (derive_stable_principal digest default_plugin_settings hermes [] []).1 ≡ text "disabled")
derive_stable_principal_iff_example =
    derive_stable_principal_iff digest digest-ne-nil default_plugin_settings hermes [] []

compact_non_empty-explicit_terms_example :
    compact_non_empty (explicit_terms (text "ns") (text "hermes") hermes)
    ≡ explicit_terms (text "ns") (text "hermes") hermes
compact_non_empty-explicit_terms_example =
    compact_non_empty-explicit_terms (text "ns") (text "hermes") hermes hermes-IsTrimmed

explicit_seed-injective_example :
    identity_fields (text "ns") (text "hermes") hermes
    ≡ identity_fields (text "ns") (text "hermes") hermes
explicit_seed-injective_example =
    explicit_seed-injective (text "ns") (text "hermes") hermes (text "ns") (text "hermes") hermes
      hermes-IsTrimmed hermes-IsTrimmed hermes-IsFree hermes-IsFree refl

identity_signature_message-injective_example :
    signed_fields hermes (text "POST") (text "/v1/chat/completions")
    ≡ signed_fields hermes (text "POST") (text "/v1/chat/completions")
identity_signature_message-injective_example =
    identity_signature_message-injective hermes hermes (text "POST") (text "/v1/chat/completions")
      (text "POST") (text "/v1/chat/completions") hermes-IsOneLine hermes-IsOneLine refl

abbrev raw_map : Map
raw_map = (text "base_url", boolean true) ∷ (text "Client-App", int 3) ∷ []

abbrev swapped_map : Map
swapped_map = (text "Client-App", int 3) ∷ (text "base_url", boolean true) ∷ []

differ : normalized_map_key (text "Client-App") ≢ normalized_map_key (text "base_url")
unfolding text normalized_map_key to_lower trim_space
differ e = (let f : text "clientapp" ≡ text "baseurl" = e in cc)

raw_map-HasDistinctKeys : HasDistinctKeys raw_map
unfolding text normalized_map_key to_lower trim_space
raw_map-HasDistinctKeys = (((λ e. differ e), tt), (tt, tt))

map_value-perm_example :
    map_value raw_map (text "client_app" ∷ []) ≡ map_value swapped_map (text "client_app" ∷ [])
map_value-perm_example =
    map_value-perm (text "client_app" ∷ []) (Permᴰ.swap refl refl) raw_map-HasDistinctKeys

abbrev closed_settings : PluginSettings
closed_settings = record default_plugin_settings { allow_explicit_client_identity_headers = false }

abbrev agent_header : Text × List Text
agent_header = (text "User-Agent", text "codex/1" ∷ [])

abbrev honest : Headers
honest = agent_header ∷ []

abbrev forged : Headers
forged = agent_header ∷ (text "X-AGY-Principal", text "someone" ∷ []) ∷ []

same_agent :
    (first_header_value forged (text "User-Agent" ∷ [])
      ≡ first_header_value honest (text "User-Agent" ∷ []))
    × (first_header_value forged (text "X-AGY-CPA-Provider-Name" ∷ text "X-AGY-Provider" ∷ [])
        ≡ first_header_value honest (text "X-AGY-CPA-Provider-Name" ∷ text "X-AGY-Provider" ∷ []))
unfolding first_header_value text equal_fold to_lower ◌==◌
same_agent = (refl, refl)

identity_from_executor_request-hidden_example :
    identity_from_executor_request digest (text "t") closed_settings forged
    ≡ identity_from_executor_request digest (text "t") closed_settings honest
identity_from_executor_request-hidden_example =
    identity_from_executor_request-hidden digest (text "t") closed_settings forged honest refl
      same_agent.0 same_agent.1
