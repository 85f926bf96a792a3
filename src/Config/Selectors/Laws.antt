-- ===== src/Config/Selectors/Laws.antt =====
-- Which selectors are set, what each asks for, and how the two match modes join them.
use agy_identity_bridge.Base.{
  ℕ, ◌+◌, ◌≤◌, ◌<◌, ◌⊎◌, ◌≡◌, refl, sym, ap, ◌∙◌, subst, ◌≢◌, inl, inr, Bool, List, [], ◌∷◌, ◌++◌,
  map, append-nil, append_assoc, arith, ltb, eqb, if◌then◌else◌, Bool-cases, length, is_nil, any,
  all, keep, length-append, length-map,
}
use agy_identity_bridge.Text.{Text, text, ◌==◌}
use agy_identity_bridge.Candidate.{ProviderCandidate}
use agy_identity_bridge.Config.{PluginSettings, normalize_settings}
use agy_identity_bridge.Config.Glob.{match_text, any_text_match}
use agy_identity_bridge.Config.Selectors.{
  constant_time_equal, Tally, criterion, optional_criterion, pattern_criteria, name_values,
  model_values, no_criteria, tally, auto_discovery, decide_tally, should_intercept_candidate,
  configured_selector_count,
}

pub data Selector : Type 0 where
  by_name by_provider by_url by_api_key by_model : Text → Selector

-- What one selector asks of a candidate.
abbrev pub selects : ProviderCandidate → Selector → Bool
selects c (by_name pattern) = any_text_match (pattern ∷ []) (name_values c)
selects c (by_provider pattern) = any_text_match (pattern ∷ []) (name_values c)
selects c (by_url pattern) = match_text pattern c.url
selects c (by_api_key key) = constant_time_equal key c.api_key
selects c (by_model pattern) = any_text_match (pattern ∷ []) (model_values c)

abbrev pub set_selector : (Text → Selector) → Text → List Selector
set_selector kind value = if is_nil value then [] else kind value ∷ []

-- The selectors that an operator has set, of normalised settings.
abbrev pub selectors : PluginSettings → List Selector
selectors s =
    set_selector by_name s.match_name
    ++ map by_provider s.match_providers
    ++ set_selector by_url s.match_url
    ++ set_selector by_api_key s.match_api_key
    ++ map by_model s.match_models

module _ (c : ProviderCandidate) where
  abbrev matches : List Selector → ℕ
  matches l = length (keep (selects c) l)

  record Counts (t : Tally) (l : List Selector) : Type 0 where
    criteria : t.criteria_count ≡ length l
    matched : t.matched_count ≡ matches l

  matches-append : (l m : List Selector) → matches (l ++ m) ≡ matches l + matches m
  matches-append [] m = omega arith
  matches-append (x ∷ l) m = ground (arith, matches-append l m)

  optional-Counts :
      (kind : Text → Selector) (value label : Text) (t : Tally) (l : List Selector)
      → Counts t l
      → Counts
          (optional_criterion value (selects c (kind value)) label t)
          (l ++ set_selector kind value)
  unfolding optional_criterion criterion
  optional-Counts kind value label t l h = elim (Bool-cases (is_nil value)) [
    | inl unset ↦ rw unset (rw append-nil h)
    | inr isset ↦
        rw isset
          (ground (arith, length-append l (kind value ∷ []), matches-append l (kind value ∷ [])))
  ]

  criterion-Counts :
      (x : Selector) (b : Bool) (label : Text) (t : Tally) (l : List Selector)
      → b ≡ selects c x
      → Counts t l
      → Counts (criterion b label t) (l ++ x ∷ [])
  unfolding criterion
  criterion-Counts x b label t l e h =
      ground (arith, length-append l (x ∷ []), matches-append l (x ∷ []))

  patterns-Counts :
      (kind : Text → Selector) (values : List Text) (label : Text)
      → ((pattern : Text) → any_text_match (pattern ∷ []) values ≡ selects c (kind pattern))
      → (patterns : List Text) (t : Tally) (l : List Selector) → Counts t l
      → Counts (pattern_criteria values label patterns t) (l ++ map kind patterns)
  unfolding pattern_criteria
  patterns-Counts kind values label same [] t l h = rw append-nil h
  patterns-Counts kind values label same (pattern ∷ patterns) t l h =
      subst (Counts (pattern_criteria values label (pattern ∷ patterns) t))
        (append_assoc l (kind pattern ∷ []) (map kind patterns))
        (patterns-Counts kind values label same patterns _ (l ++ kind pattern ∷ [])
          (criterion-Counts (kind pattern) _ label t l (same pattern) h))

  tally-Counts : (s : PluginSettings) → Counts (tally s c) (selectors s)
  unfolding tally
  tally-Counts s =
      patterns-Counts by_model (model_values c) (text "model") (λ p. refl) s.match_models _ _
        (optional-Counts by_api_key s.match_api_key (text "api_key") _ _ (
          optional-Counts by_url s.match_url (text "url") _ _ (
            patterns-Counts by_provider (name_values c) (text "provider") (λ p. refl)
              s.match_providers _ _
              (optional-Counts by_name s.match_name (text "name") no_criteria []
                (record { criteria = refl; matched = refl })))))

  matches-all : (l : List Selector) → matches l ≤ length l
  matches-all [] = omega arith
  matches-all (x ∷ l) = ground (arith, matches-all l)

  eqb-all : (l : List Selector) → eqb (matches l) (length l) ≡ all (selects c) l
  eqb-all [] = refl
  eqb-all (x ∷ l) = ground (arith, eqb-all l, matches-all l)

  ltb-any : (l : List Selector) → ltb 0 (matches l) ≡ any (selects c) l
  ltb-any [] = refl
  ltb-any (x ∷ l) = ground (arith, ltb-any l)

  abbrev joined : PluginSettings → List Selector → Bool
  joined s l = if s.match_mode == text "all" then all (selects c) l else any (selects c) l

  decide_tally-joined :
      (s : PluginSettings) (t : Tally) (l : List Selector)
      → Counts t l
      → l ≢ []
      → (decide_tally s c t).0 ≡ joined s l
  unfolding decide_tally
  decide_tally-joined s t [] h ne = absurd (ne refl)
  decide_tally-joined s t (x ∷ l) h ne =
      ground (arith, eqb-all (x ∷ l), ltb-any (x ∷ l), h.criteria, h.matched)

  decide_tally-auto :
      (s : PluginSettings) (t : Tally) → Counts t [] → decide_tally s c t ≡ auto_discovery s c
  unfolding decide_tally
  decide_tally-auto s t h = ground (arith, h.criteria)

-- When a selector is set, a candidate is intercepted by the selectors that are set: in mode `all` when every one of them
-- selects it, in any other mode when one does.
pub should_intercept_candidate-selectors :
    (settings : PluginSettings) (c : ProviderCandidate)
    → selectors (normalize_settings settings) ≢ []
    → (should_intercept_candidate settings c).0 ≡ (
        if (normalize_settings settings).match_mode == text "all"
        then all (selects c) (selectors (normalize_settings settings))
        else any (selects c) (selectors (normalize_settings settings)))
unfolding should_intercept_candidate
should_intercept_candidate-selectors settings c ne =
    decide_tally-joined c (normalize_settings settings) _ _
      (tally-Counts c (normalize_settings settings)) ne

length-set_selector :
    (kind : Text → Selector) (v : Text) → length (set_selector kind v) ≡ (if is_nil v then 0 else 1)
length-set_selector kind v = ground arith

length-append_five {ℓ} :
    {A : Type ℓ} (a b c d e : List A)
    → length (a ++ b ++ c ++ d ++ e) ≡ length a + length b + length c + length d + length e
length-append_five a b c d e = omega (
  arith,
  length-append (a ++ b ++ c ++ d) e,
  length-append (a ++ b ++ c) d,
  length-append (a ++ b) c,
  length-append a b,
)

nil-or-cons {ℓ} : {A : Type ℓ} (l : List A) → (l ≡ []) ⊎ ((x : A) × (m : List A) × (l ≡ x ∷ m))
nil-or-cons [] = inl refl
nil-or-cons (x ∷ l) = inr (x, l, refl)

cons-ne-nil {ℓ} : {A : Type ℓ} {x : A} {l : List A} → x ∷ l ≢ []
cons-ne-nil e = cc

-- The count on the status page is the number of selectors that decide.
pub configured_selector_count-selectors :
    (settings : PluginSettings)
    → configured_selector_count settings ≡ length (selectors (normalize_settings settings))
unfolding configured_selector_count
configured_selector_count-selectors settings =
    let s = normalize_settings settings in
    omega (
      arith,
      length-append_five (set_selector by_name s.match_name) (map by_provider s.match_providers)
          (set_selector by_url s.match_url) (set_selector by_api_key s.match_api_key)
          (map by_model s.match_models),
      length-set_selector by_name s.match_name,
      length-set_selector by_url s.match_url,
      length-set_selector by_api_key s.match_api_key,
      length-map by_provider s.match_providers,
      length-map by_model s.match_models,
    )

-- The count of the settings page tells how a candidate is decided: where it is 0, the result is
-- that of auto discovery; where it is above 0, the selectors that are set decide, in mode `all` by
-- all of them and in any other mode by one, whatever auto discovery would say.
pub should_intercept_candidate-auto :
    (settings : PluginSettings) (c : ProviderCandidate)
    → ((configured_selector_count settings ≡ 0)
        × (should_intercept_candidate settings c ≡ auto_discovery (normalize_settings settings) c))
      ⊎ ((0 < configured_selector_count settings)
          × ((should_intercept_candidate settings c).0 ≡ (
              if (normalize_settings settings).match_mode == text "all"
              then all (selects c) (selectors (normalize_settings settings))
              else any (selects c) (selectors (normalize_settings settings)))))
unfolding should_intercept_candidate
should_intercept_candidate-auto settings c =
    let s = normalize_settings settings in
    let counted = configured_selector_count-selectors settings in
    elim (nil-or-cons (selectors s)) [
      | inl e ↦ inl (
        counted ∙ ap length e,
        decide_tally-auto c s _ (subst (Counts c (tally s c)) e (tally-Counts c s)),
      )
      | inr (x, l, e) ↦ inr (
        omega (arith, counted, ap length e),
        should_intercept_candidate-selectors settings c (λ n. cons-ne-nil (sym e ∙ n)),
      )
    ]
