-- ===== src/Routes/Known.antt =====
-- Requests reach known routes only, and the one that they name.
use agy_identity_bridge.Base.{
  ◌≡◌, refl, sym, ap, ◌∙◌, subst, ◌≢◌, ◌↔◌, ◌⊎◌, inl, inr, true, not, ◌||◌, List, [], ◌∷◌, ◌++◌,
  arith, if◌then◌else◌, Bool-cases, if_cases, is_nil, All,
}
use agy_identity_bridge.Text.{
  Text, text, ◌==◌, trim_space, to_lower, equal_fold, has_prefix, contains, trim_prefix,
}
use mathlib.Core.List.{Memᴰ}
use agy_identity_bridge.Text.Equality.{==_iff}
use agy_identity_bridge.Text.Prefix.{has_prefix→append}
use agy_identity_bridge.Spec.{ProviderSpec}
use agy_identity_bridge.Routes.{
  chat_completions_endpoint, image_generations_endpoint, known_upstream_routes, known_route,
  route_from_request_path, upstream_endpoint, serves_image_model,
}

known_route-cases :
    (path : Text) (routes : List Text)
    → (known_route path routes ≡ []) ⊎ Memᴰ path routes × (known_route path routes ≡ path)
known_route-cases path [] = inl refl
known_route-cases path (route ∷ routes) = elim (Bool-cases (path == route)) [
  | inl here ↦
      rw here (inr (Memᴰ.head ((==_iff path route).0 here), sym ((==_iff path route).0 here)))
  | inr later ↦
      rw later
        (elim (known_route-cases path routes) [ inl e ↦ inl e | inr (m, e) ↦ inr (Memᴰ.tail m, e) ])
]

-- What the request path is looked up as.
abbrev normal_path : Text → Text
normal_path request_path = to_lower (trim_space request_path)

route-cases :
    (p : Text)
    → (route_from_request_path p ≡ [])
      ⊎ Memᴰ (route_from_request_path p) known_upstream_routes
        × (trim_prefix (normal_path p) (text "/v1") ≡ route_from_request_path p)
unfolding route_from_request_path
route-cases p =
    if_cases
      (λ route.
        (route ≡ [])
        ⊎ Memᴰ route known_upstream_routes × (trim_prefix (normal_path p) (text "/v1") ≡ route))
      (is_nil (normal_path p) || not (has_prefix (normal_path p) (text "/"))) []
      (known_route (trim_prefix (normal_path p) (text "/v1")) known_upstream_routes) (λ _. inl refl)
      (λ _.
        elim (known_route-cases (trim_prefix (normal_path p) (text "/v1")) known_upstream_routes) [
          | inl e ↦ inl e
          | inr (m, e) ↦ inr (subst (λ t. Memᴰ t known_upstream_routes) (sym e) m, sym e)
        ])

not_nil : (s : Text) → not (is_nil s) ≡ true → s ≢ []
not_nil [] h e = ground (arith, h)
not_nil (c ∷ s) h e = cc

abbrev Known : Text → Type 0
Known t = Memᴰ t known_upstream_routes

All-Mem {ℓ κ} : {A : Type ℓ} (P : A → Type κ) {x : A} {xs : List A} → All P xs → Memᴰ x xs → P x
All-Mem P h (Memᴰ.head e) = subst P (sym e) h.0
All-Mem P h (Memᴰ.tail m) = All-Mem P h.1 m

-- Whatever the model, the format, the alternative and the request path are, the request goes to
-- one of the three known routes.
pub upstream_endpoint-known :
    (model format alt request_path : Text) (spec : ProviderSpec)
    → Memᴰ (upstream_endpoint model format alt request_path spec) known_upstream_routes
unfolding upstream_endpoint
upstream_endpoint-known model format alt request_path spec =
    if_cases Known (not (is_nil (route_from_request_path request_path)))
      (route_from_request_path request_path)
      (if contains (to_lower format) (text "image")
          || equal_fold (trim_space alt) (text "openai-image")
        then image_generations_endpoint
        else if serves_image_model spec model
        then image_generations_endpoint
        else chat_completions_endpoint)
      (λ h. elim (route-cases request_path) [
        | inl e ↦ absurd (not_nil (route_from_request_path request_path) h e)
        | inr (m, _) ↦ m
      ])
      (λ _.
        if_cases Known
          (contains (to_lower format) (text "image")
            || equal_fold (trim_space alt) (text "openai-image"))
          image_generations_endpoint
          (if serves_image_model spec model
            then image_generations_endpoint
            else chat_completions_endpoint)
          (λ _. Memᴰ.tail (Memᴰ.head refl))
          (λ _.
            if_cases Known (serves_image_model spec model) image_generations_endpoint
              chat_completions_endpoint (λ _. Memᴰ.tail (Memᴰ.head refl)) (λ _. Memᴰ.head refl)))

-- The lookup of a path in lower case and trimmed.
abbrev lookup_path : Text → Text
lookup_path path =
    if is_nil path || not (has_prefix path (text "/"))
    then []
    else known_route (trim_prefix path (text "/v1")) known_upstream_routes

known_routes-found :
    All
      (λ route. (lookup_path route ≡ route) × (lookup_path (text "/v1" ++ route) ≡ route))
      known_upstream_routes
unfolding text ◌==◌ has_prefix trim_prefix
known_routes-found = ((refl, refl), ((refl, refl), ((refl, refl), tt)))

known_routes-ne-nil : All (λ route. route ≢ []) known_upstream_routes
unfolding text
known_routes-ne-nil = ((λ e. cc), ((λ e. cc), ((λ e. cc), tt)))

trim_prefix-cases : (s p r : Text) → trim_prefix s p ≡ r → (s ≡ r) ⊎ (s ≡ p ++ r)
unfolding trim_prefix
trim_prefix-cases s p r e = elim (Bool-cases (has_prefix s p)) [
  | inl h ↦ inr (has_prefix→append s p h ∙ ap (λ t. p ++ t) (rw h at e))
  | inr h ↦ inl (rw h at e)
]

-- A request path names a known route exactly when it is that route, or that route under /v1, in
-- any case and with spaces around it.
pub route_from_request_path_iff :
    (p r : Text)
    → Memᴰ r known_upstream_routes
    → (route_from_request_path p ≡ r)
      ↔ (to_lower (trim_space p) ≡ r) ⊎ (to_lower (trim_space p) ≡ text "/v1" ++ r)
unfolding route_from_request_path
route_from_request_path_iff p r m = (
  (λ e. elim (route-cases p) [
    | inl f ↦ absurd (All-Mem (λ route. route ≢ []) known_routes-ne-nil m (sym e ∙ f))
    | inr (_, f) ↦ trim_prefix-cases (normal_path p) (text "/v1") r (f ∙ e)
  ]),
  (λ h.
      let both =
        All-Mem (λ route. (lookup_path route ≡ route) × (lookup_path (text "/v1" ++ route) ≡ route))
          known_routes-found m in
      elim h [ inl e ↦ ap lookup_path e ∙ both.0 | inr e ↦ ap lookup_path e ∙ both.1 ]),
)
