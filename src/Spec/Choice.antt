-- ===== src/Spec/Choice.antt =====
-- src/providerspec.go `extractProviderSpec`: its loop finds what two searches find.
use agy_identity_bridge.Base.{and_true}
use agy_identity_bridge.Base.{
  ℕ, ◌+◌, ◌%◌, ◌≤◌, ◌<◌, ◌≡◌, refl, sym, ap, ◌∙◌, subst, ◌⊎◌, inl, inr, Bool, true, false, not,
  ◌&&◌, ◌||◌, Option, none, some, List, [], ◌∷◌, arith, ltb, if◌then◌else◌, ltb→lt, Bool-cases,
  if_cases, is_nil, any,
}
use agy_identity_bridge.Text.{Text, text}
use agy_identity_bridge.Int64.{Int64, word, half, add64, lt64, max64}
use agy_identity_bridge.Value.{Map, or_else, int_or_zero}
use agy_identity_bridge.Config.{PluginSettings}
use agy_identity_bridge.Catalog.{ModelCache, load_model_cache}
use agy_identity_bridge.Spec.{ProviderSpec}
use agy_identity_bridge.Spec.Compat.{open_ai_compat_entries}
use agy_identity_bridge.Spec.Extract.{
  mirrored_priority, compat_spec, is_owned, is_live, extract_loop, cached_provider_spec_from_cache,
  extracted, extract_provider_spec,
}

-- The specification of the first section that passes the test.
abbrev pub first_spec : (Map → Bool) → List Map → Option ProviderSpec
first_spec p [] = none
first_spec p (m ∷ ms) = if p m then some (compat_spec m) else first_spec p ms

abbrev pub is_mirrored : PluginSettings → Map → Bool
is_mirrored settings m = is_owned settings m && is_live m

-- A live section is preferred to any section.
abbrev pub preferred :
    Option ProviderSpec → Option ProviderSpec → ProviderSpec ⊎ Option ProviderSpec
preferred (some live) fallback = inl live
preferred none fallback = inr fallback

or_else_assoc {ℓ} :
    {A : Type ℓ} (a b c : Option A) → or_else (or_else a b) c ≡ or_else a (or_else b c)
or_else_assoc none b c = refl
or_else_assoc (some a) b c = refl

or_else-none {ℓ} : {A : Type ℓ} (a : Option A) → or_else a none ≡ a
or_else-none none = refl
or_else-none (some a) = refl

extract_loop-preferred :
    (s : PluginSettings) (ms : List Map) (fallback : Option ProviderSpec)
    → extract_loop s ms fallback
      ≡ preferred (first_spec (is_mirrored s) ms) (or_else fallback (first_spec (is_owned s) ms))
unfolding extract_loop
extract_loop-preferred s [] fallback = ap inr (sym (or_else-none fallback))
extract_loop-preferred s (m ∷ ms) fallback = elim (Bool-cases (is_owned s m)) [
  | inr o ↦ rw o (extract_loop-preferred s ms fallback)
  | inl o ↦ elim (Bool-cases (is_live m)) [
    | inl l ↦ rw o (rw l refl)
    | inr d ↦ rw o (
        rw d (
          extract_loop-preferred s ms (or_else fallback (some (compat_spec m)))
          ∙ ap (preferred (first_spec (is_mirrored s) ms))
              (or_else_assoc fallback (some (compat_spec m)) (first_spec (is_owned s) ms))))
  ]
]

first_spec-cases :
    (p : Map → Bool) (ms : List Map)
    → (first_spec p ms ≡ none × any p ms ≡ false)
      ⊎ ((spec : ProviderSpec) × (first_spec p ms ≡ some spec) × any p ms ≡ true)
first_spec-cases p [] = inl (refl, refl)
first_spec-cases p (m ∷ ms) = elim (Bool-cases (p m)) [
  | inl h ↦ inr (compat_spec m, rw h refl, rw h refl)
  | inr h ↦ rw h (first_spec-cases p ms)
]

-- A live section that matches is found, and is enabled.
pub first_spec-mirrored :
    (s : PluginSettings) (ms : List Map)
    → any (is_mirrored s) ms ≡ true
    → (spec : ProviderSpec) × (first_spec (is_mirrored s) ms ≡ some spec) × (spec.enabled ≡ true)
unfolding compat_spec
first_spec-mirrored s [] h = ground arith
first_spec-mirrored s (m ∷ ms) h = elim (Bool-cases (is_mirrored s m)) [
  | inl k ↦ (compat_spec m, rw k refl, (and_true (is_owned s m) (is_live m) k).1)
  | inr k ↦ rw k (first_spec-mirrored s ms (subst (λ b. (b || any (is_mirrored s) ms) ≡ true) k h))
]

any-and : (p q : Map → Bool) (ms : List Map) → any (λ m. p m && q m) ms ≡ true → any p ms ≡ true
any-and p q [] h = h
any-and p q (m ∷ ms) h = ground (arith, any-and p q ms)

module _ (unmarshal : Text → Option ModelCache) (file : Option Text)
    (current : PluginSettings) where
  pub extract-preferred :
      (root : Option Map) (s : PluginSettings)
      → extract_provider_spec unmarshal file current root s
        ≡ extracted unmarshal file current (
            preferred
              (first_spec (is_mirrored s) (open_ai_compat_entries root))
              (first_spec (is_owned s) (open_ai_compat_entries root)))
  unfolding extract_provider_spec
  extract-preferred root s =
      ap (extracted unmarshal file current)
        (extract_loop-preferred s (open_ai_compat_entries root) none)

  abbrev IsFoundRight : List Map → PluginSettings → Option ProviderSpec → Type 0
  IsFoundRight ms s live =
      (extracted unmarshal file current (preferred live (first_spec (is_owned s) ms))).1
      ≡ any (is_owned s) ms

  cached-base_url : is_nil (cached_provider_spec_from_cache unmarshal file current).base_url ≡ true
  unfolding cached_provider_spec_from_cache
  cached-base_url =
      if_cases (λ (spec : ProviderSpec). is_nil spec.base_url ≡ true)
        (is_nil (load_model_cache unmarshal file)) _ _ (λ h. refl) (λ h. refl)

  found-preferred :
      (s : PluginSettings) (ms : List Map) → IsFoundRight ms s (first_spec (is_mirrored s) ms)
  found-preferred s ms = elim (first_spec-cases (is_mirrored s) ms) [
    | inr (spec, e, h) ↦ rw e (sym (any-and (is_owned s) is_live ms h))
    | inl (e, h) ↦ elim (first_spec-cases (is_owned s) ms) [
      | inr (spec, f, k) ↦ rw e (rw f (sym k))
      | inl (f, k) ↦ rw e (rw f (rw k (ap not cached-base_url)))
    ]
  ]

word-cut : (p : Int64) → (p + 100) % word < word
word-cut p = omega arith

above : (x : ℕ) → x < word → 10 + half < (x + half) % word → (10 ≤ x) × (x < half)
above x h k = omega arith

mirrored_priority-bounds : (p : Int64) → (10 ≤ mirrored_priority p) × (mirrored_priority p < half)
unfolding mirrored_priority max64 add64 lt64
mirrored_priority-bounds p =
    let x = (p + 100) % word in
    if_cases (λ y. (10 ≤ y) × (y < half)) (ltb (10 + half) ((x + half) % word)) x 10
      (λ h. above x (word-cut p) (ltb→lt _ _ h)) (λ h. omega arith)

abbrev InBounds : Option ProviderSpec → Type 0
InBounds none = Unit
InBounds (some spec) = (10 ≤ spec.priority) × (spec.priority < half)

first_spec-InBounds : (p : Map → Bool) (ms : List Map) → InBounds (first_spec p ms)
unfolding compat_spec
first_spec-InBounds p [] = tt
first_spec-InBounds p (m ∷ ms) =
    if_cases InBounds (p m) (some (compat_spec m)) (first_spec p ms)
      (λ h. mirrored_priority-bounds (int_or_zero m (text "priority" ∷ [])))
      (λ h. first_spec-InBounds p ms)

extracted-InBounds :
    (unmarshal : Text → Option ModelCache) (file : Option Text) (current : PluginSettings)
    (live fallback : Option ProviderSpec)
    → InBounds live
    → InBounds fallback
    → (extracted unmarshal file current (preferred live fallback)).1 ≡ true
    → InBounds (some (extracted unmarshal file current (preferred live fallback)).0)
extracted-InBounds u f c (some live) fallback h k e = h
extracted-InBounds u f c none (some fallback) h k e = k
extracted-InBounds u f c none none h k e =
    let wrong : true ≡ false = sym e ∙ ap not (cached-base_url u f c) in ground arith

pub extract_provider_spec-preferred :
    (unmarshal : Text → Option ModelCache) (file : Option Text) (current : PluginSettings)
    (root : Option Map) (s : PluginSettings)
    → let ms = open_ai_compat_entries root in
      (extract_provider_spec unmarshal file current root s
        ≡ extracted unmarshal file current
            (preferred (first_spec (is_mirrored s) ms) (first_spec (is_owned s) ms)))
      × ((extract_provider_spec unmarshal file current root s).1 ≡ any (is_owned s) ms)
extract_provider_spec-preferred unmarshal file current root s =
    let e = extract-preferred unmarshal file current root s in
    (e, ap (λ x. x.1) e ∙ found-preferred unmarshal file current s (open_ai_compat_entries root))

-- The priority of a provider that is found in the configuration is at least 10 and is not
-- negative, whatever priority the section has: the sum with 100 may wrap around.
pub extract_provider_spec-priority :
    (unmarshal : Text → Option ModelCache) (file : Option Text) (current : PluginSettings)
    (root : Option Map) (s : PluginSettings)
    → (extract_provider_spec unmarshal file current root s).1 ≡ true
    → (10 ≤ (extract_provider_spec unmarshal file current root s).0.priority)
      × ((extract_provider_spec unmarshal file current root s).0.priority < half)
extract_provider_spec-priority unmarshal file current root s found =
    let ms = open_ai_compat_entries root in
    let e = sym (extract-preferred unmarshal file current root s) in
    subst (λ x. x.1 ≡ true → InBounds (some x.0)) e
      (extracted-InBounds unmarshal file current _ _ (first_spec-InBounds (is_mirrored s) ms)
        (first_spec-InBounds (is_owned s) ms))
      found
