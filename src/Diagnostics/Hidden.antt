-- ===== src/Diagnostics/Hidden.antt =====
-- src/providers.go `publicProviderDiagnostics`: what it hides has no influence on what it shows.
use agy_identity_bridge.Base.{◌≡◌, refl, ap, Bool, List, [], ◌∷◌, map}
use agy_identity_bridge.Text.{Text}
use agy_identity_bridge.Scan.{ProviderStatus}
use agy_identity_bridge.Diagnostics.{
  ProviderDiagnostics, public_status, public_provider_diagnostics,
}

-- Values that may identify the operator: the configuration's path and selectors, the mirrored URL,
-- the scan, and of each provider its URL, its auth index and its label.
pub record Private : Type 0 where
  pub config_path : Text
  pub config_path_found : Bool
  pub match_name : Text
  pub match_url : Text
  pub match_provider : Text
  pub match_providers : List Text
  pub match_model : Text
  pub match_models : List Text
  pub scanned_providers : List ProviderStatus
  pub mirrored_base_url : Text
  pub url : ProviderStatus → Text
  pub auth_index : ProviderStatus → Text
  pub label : ProviderStatus → Text

abbrev with_private_status : Private → ProviderStatus → ProviderStatus
with_private_status p item = record item {
  url = p.url item;
  auth_index = p.auth_index item;
  label = p.label item;
}

-- The diagnostics with other private values.
abbrev pub with_private : Private → ProviderDiagnostics → ProviderDiagnostics
with_private p d = record d {
  config_path = p.config_path;
  config_path_found = p.config_path_found;
  match_name = p.match_name;
  match_url = p.match_url;
  match_provider = p.match_provider;
  match_providers = p.match_providers;
  match_model = p.match_model;
  match_models = p.match_models;
  scanned_providers = p.scanned_providers;
  mirrored_base_url = p.mirrored_base_url;
  providers = map (with_private_status p) d.providers;
}

public-private :
    (p : Private) (items : List ProviderStatus)
    → map public_status (map (with_private_status p) items) ≡ map public_status items
public-private p [] = refl
public-private p (item ∷ items) = ap (◌∷◌ (public_status item)) (public-private p items)

-- The public diagnostics tell nothing of the private values: diagnostics that differ in these
-- only, whatever they are, are shown alike.
pub public_provider_diagnostics-with_private :
    (p : Private) (d : ProviderDiagnostics)
    → public_provider_diagnostics (with_private p d) ≡ public_provider_diagnostics d
unfolding public_provider_diagnostics
public_provider_diagnostics-with_private p d =
    ap (λ shown. record (public_provider_diagnostics d) { providers = shown })
      (public-private p d.providers)
