-- ===== src/Models/Withheld.antt =====
-- src/models.go `currentModelResponse`: no models are published beside a live provider.
use agy_identity_bridge.Base.{
  ◌≡◌, refl, Bool, true, not, ◌&&◌, ◌||◌, Option, List, [], ◌∷◌, arith, if_cases, is_nil, any, All,
}
use agy_identity_bridge.Text.{Text, trim_space}
use agy_identity_bridge.Int64.{Int64}
use agy_identity_bridge.Value.{Map}
use agy_identity_bridge.Config.Load.{PluginConfigSnapshot, Decoded, parsed, parse_yaml_map}
use agy_identity_bridge.Catalog.{ModelCache}
use agy_identity_bridge.Spec.{ProviderSpec, ModelInfo, can_serve_models}
use agy_identity_bridge.Spec.Compat.{open_ai_compat_entries}
use agy_identity_bridge.Spec.Extract.{extract_provider_spec}
use agy_identity_bridge.Spec.Choice.{is_mirrored, first_spec-mirrored, extract-preferred}
use agy_identity_bridge.Auth.{AuthWorld}
use agy_identity_bridge.Models.{
  ProviderSpecCache, store_provider_spec, cached_provider_spec, ModelRegistrationResponse, Resolved,
  keep_found, extract_configured, resolve_provider_spec, respond, Registered,
  current_model_response,
}

-- What the cache holds is a live provider, and so is what is resolved.
abbrev HoldsLive : ProviderSpec × Bool → Type 0
HoldsLive (spec, found) = found ≡ true → spec.enabled ≡ true

abbrev CachesLive : ProviderSpecCache → Type 0
CachesLive cache = HoldsLive (cache.spec, cache.found)

withheld :
    (executor blank found enabled : Bool)
    → blank ≡ true
    → (found ≡ true → enabled ≡ true)
    → (not found || not (executor && (not blank || not enabled))) ≡ true
withheld executor blank found enabled h k = ground arith

-- A call: the clock, its text, and the answer of the host.
abbrev pub ModelCall : Type 0
ModelCall = Int64 × Text × Option Text

module _ (yaml : Text → Decoded) (unmarshal : Text → Option ModelCache) (file : Option Text)
    (sort_by_id : List ModelInfo → List ModelInfo)
    (marshal : List (Text × Text) → Option Text) where
  -- The responses to one call after another.
  abbrev pub responses :
      PluginConfigSnapshot
      → List ModelCall
      → ProviderSpecCache × AuthWorld
      → List ModelRegistrationResponse
  responses snapshot [] state = []
  responses snapshot ((now, clock, answer) ∷ calls) state =
      let r =
        current_model_response yaml unmarshal file sort_by_id marshal now clock snapshot answer
          state in
      r.0 ∷ responses snapshot calls r.1

  module _ (snapshot : PluginConfigSnapshot) (root : Option Map)
      (document : parse_yaml_map yaml snapshot.config_yaml ≡ parsed root)
      (live : any (is_mirrored snapshot.settings) (open_ai_compat_entries root) ≡ true)
      (blank : is_nil (trim_space snapshot.settings.model_namespace) ≡ true) where
    extracted-live :
        HoldsLive (extract_provider_spec unmarshal file snapshot.settings root snapshot.settings)
    extracted-live =
        let (spec, e, on) = first_spec-mirrored _ _ live in
        rw (extract-preferred unmarshal file snapshot.settings root snapshot.settings)
          (rw e (λ _. on))

    configured-live : HoldsLive (extract_configured yaml unmarshal file sort_by_id marshal snapshot)
    unfolding extract_configured
    configured-live =
        if_cases HoldsLive (is_nil snapshot.config_yaml) _ _ (λ _ e. ground arith)
          (λ _. rw document extracted-live)

    abbrev IsLive : Resolved yaml unmarshal file sort_by_id marshal → Type 0
    IsLive r = HoldsLive r.0 × CachesLive r.1

    keep_found-IsLive :
        (now : Int64) (cache : ProviderSpecCache) (x : ProviderSpec × Bool)
        → CachesLive cache
        → HoldsLive x
        → IsLive (keep_found yaml unmarshal file sort_by_id marshal now cache x)
    unfolding store_provider_spec
    keep_found-IsLive now cache (spec, found) h k = (
      k,
      if_cases CachesLive found (store_provider_spec now spec true) cache (λ e _. k e) (λ _. h),
    )

    resolve-IsLive :
        (now : Int64) (cache : ProviderSpecCache)
        → CachesLive cache
        → IsLive (resolve_provider_spec yaml unmarshal file sort_by_id marshal now snapshot cache)
    unfolding resolve_provider_spec cached_provider_spec
    resolve-IsLive now cache h =
        if_cases IsLive cache.found _ _ (λ found. ((λ _. h found), h))
          (λ _.
            keep_found-IsLive now cache
              (extract_configured yaml unmarshal file sort_by_id marshal snapshot) h
              configured-live)

    -- Nothing is published, and the cache is as it was resolved.
    abbrev IsWithheld : Registered yaml unmarshal file sort_by_id marshal → Type 0
    IsWithheld r = (r.0.models ≡ []) × CachesLive r.1.0

    respond-IsWithheld :
        (now : Int64) (clock : Text) (answer : Option Text) (w : AuthWorld)
        (r : Resolved yaml unmarshal file sort_by_id marshal)
        → IsLive r
        → IsWithheld
            (respond yaml unmarshal file sort_by_id marshal now clock snapshot.settings answer w r)
    unfolding can_serve_models
    respond-IsWithheld now clock answer w ((spec, found), cache) (h, k) =
        rw
          (withheld snapshot.settings.executor_enabled
            (is_nil (trim_space snapshot.settings.model_namespace)) found spec.enabled blank h)
          (refl, k)

    responses-withheld :
        (calls : List ModelCall) (cache : ProviderSpecCache) (w : AuthWorld)
        → CachesLive cache
        → All (λ response. response.models ≡ []) (responses snapshot calls (cache, w))
    unfolding current_model_response
    responses-withheld [] cache w h = tt
    responses-withheld ((now, clock, answer) ∷ calls) cache w h =
        let (empty, next) = respond-IsWithheld now clock answer w _ (resolve-IsLive now cache h) in
        (empty, responses-withheld calls _ _ next)

-- While a live section of the configuration matches the settings and no model namespace is set,
-- no call publishes a model, however often the host asks and whatever it answers, so that two
-- providers never serve one model. The cache of the provider is empty at first, or holds a live
-- provider.
pub current_model_response-withheld :
    (yaml : Text → Decoded) (unmarshal : Text → Option ModelCache) (file : Option Text)
    (sort_by_id : List ModelInfo → List ModelInfo) (marshal : List (Text × Text) → Option Text)
    (snapshot : PluginConfigSnapshot) (root : Option Map) (calls : List ModelCall)
    (cache : ProviderSpecCache) (w : AuthWorld)
    → parse_yaml_map yaml snapshot.config_yaml ≡ parsed root
    → any (is_mirrored snapshot.settings) (open_ai_compat_entries root) ≡ true
    → is_nil (trim_space snapshot.settings.model_namespace) ≡ true
    → (cache.found ≡ true → cache.spec.enabled ≡ true)
    → All
        (λ response. response.models ≡ [])
        (responses yaml unmarshal file sort_by_id marshal snapshot calls (cache, w))
current_model_response-withheld yaml unmarshal file sort_by_id marshal snapshot root calls cache w
      document live blank h =
    responses-withheld yaml unmarshal file sort_by_id marshal snapshot root document live blank
      calls cache w h
