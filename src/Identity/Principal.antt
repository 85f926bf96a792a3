-- ===== src/Identity/Principal.antt =====
-- When a request has a principal, and what it rests on.
use agy_identity_bridge.Base.{
  ℕ, ◌≡◌, refl, sym, ap, ◌∙◌, ◌≢◌, ◌↔◌, inl, inr, Bool, true, false, not, ◌&&◌, ◌||◌, List, [], ◌∷◌,
  ◌++◌, arith, if◌then◌else◌, Bool-cases, if_cases, is_nil, is_nil-false,
}
use agy_identity_bridge.Text.{Text, text, ◌==◌, is_space, trim_space, join}
use agy_identity_bridge.Text.Equality.{==_iff}
use agy_identity_bridge.Text.Trimming.{trim_space-cons-ne}
use agy_identity_bridge.Headers.{Headers, first_header_value, first_non_empty, compact_non_empty}
use agy_identity_bridge.Config.{PluginSettings, normalize_settings}
use agy_identity_bridge.Identity.{
  ClientIdentityContext, normalize_client_app, identity_namespace, seed_of, explicit_terms,
  three_terms, salt, hash_string, session_principal, app_principal, key_principal,
  fallback_principal, derive_stable_principal,
}

-- A client app has a name on every path.
pub normalize_client_app-ne-nil :
    (client_app user_agent : Text) → normalize_client_app client_app user_agent ≢ []
unfolding normalize_client_app text
normalize_client_app-ne-nil client_app user_agent e = ground arith

join-cons-ne : (sep : Text) (d : ℕ) (t : Text) (ts : List Text) → join sep ((d ∷ t) ∷ ts) ≢ []
unfolding join
join-cons-ne sep d t [] e = cc
join-cons-ne sep d t (u ∷ ts) e = cc

-- A seed whose first term begins with a visible code point is not empty.
seed_of-cons-ne :
    (c : ℕ) (v : Text) (vs : List Text) → is_space c ≡ false → seed_of ((c ∷ v) ∷ vs) ≢ []
unfolding seed_of compact_non_empty
seed_of-cons-ne c v vs h e =
    go (trim_space (c ∷ v)) (trim_space-cons-ne c v h) (compact_non_empty vs) e
  where
    go :
        (t : Text)
        → t ≢ []
        → (ts : List Text) → join (0 ∷ []) (if is_nil t then ts else t ∷ ts) ≢ []
    go [] n ts e = n refl
    go (d ∷ t) n ts e = join-cons-ne (0 ∷ []) d t ts e

explicit_seed-ne-nil :
    (namespace app : Text) (c : ClientIdentityContext)
    → seed_of (explicit_terms namespace app c) ≢ []
unfolding explicit_terms text is_space
explicit_seed-ne-nil namespace app c = seed_of-cons-ne b'n' _ _ refl

three_seed-ne-nil :
    (namespace app label value : Text) → seed_of (three_terms namespace app label value) ≢ []
unfolding three_terms text is_space
three_seed-ne-nil namespace app label value = seed_of-cons-ne b'n' _ _ refl

both : (a b : Bool) → a ≡ true → b ≡ false → (a && not b) ≢ false
both a b h k e = ground arith

-- Whether an explicit identity is both allowed and given.
abbrev pub explicit_allowed : PluginSettings → ClientIdentityContext → Bool
explicit_allowed settings c =
    (normalize_settings settings).allow_explicit_client_identity_headers && c.explicit_identity

differ : {b : Bool} → b ≡ false → b ≡ true → ⊥
differ off on = ground arith

module _ (sha256_hex : Text → Text) (digest : (s : Text) → sha256_hex s ≢ []) where
  hash-salt-ne-nil : (kind seed : Text) → hash_string sha256_hex (salt kind ++ seed) ≢ []
  unfolding hash_string text is_space
  hash-salt-ne-nil kind seed e = digest (trim_space (salt kind ++ seed)) (
      sym (
        ap (λ b. if b then [] else sha256_hex (trim_space (salt kind ++ seed)))
          (is_nil-false _ (trim_space-cons-ne b'a' _ refl)))
      ∙ e)

  abbrev IsNamed : Text × Text → Type 0
  IsNamed d = d.0 ≢ []

  session_principal-ne-nil :
      (namespace app : Text) (c : ClientIdentityContext)
      → IsNamed (session_principal sha256_hex namespace app c)
  unfolding session_principal
  session_principal-ne-nil namespace app c =
      rw (is_nil-false _ (three_seed-ne-nil namespace app (text "session=") c.session_id))
        (hash-salt-ne-nil (text "ua-session") _)

  app_principal-ne-nil :
      (namespace app : Text) → app ≢ [] → IsNamed (app_principal sha256_hex namespace app)
  unfolding app_principal
  app_principal-ne-nil namespace app h =
      rw (is_nil-false app h) (hash-salt-ne-nil (text "client-key") _)

  key_principal-ne-nil :
      (namespace app : Text) (c : ClientIdentityContext) (token : Text)
      → app ≢ []
      → IsNamed (key_principal sha256_hex namespace app c token)
  unfolding key_principal
  key_principal-ne-nil namespace app c token h =
      let id =
        first_non_empty (c.client_instance ∷ hash_string sha256_hex token ∷ c.session_id ∷ []) in
      let seed = seed_of (three_terms namespace app (text "id=") id) in
      if_cases IsNamed (is_nil id || is_nil seed) (app_principal sha256_hex namespace app)
        (hash_string sha256_hex (salt (text "client-key") ++ seed), text "client_key_hash")
        (λ _. app_principal-ne-nil namespace app h) (λ _. hash-salt-ne-nil (text "client-key") seed)

  fallback_principal-off :
      (s : PluginSettings) (namespace app : Text) (c : ClientIdentityContext) (token : Text)
      → s.principal_fallback_mode ≡ text "disabled"
      → fallback_principal sha256_hex s namespace app c token ≡ ([], text "disabled")
  unfolding fallback_principal
  fallback_principal-off s namespace app c token h =
      rw ((==_iff s.principal_fallback_mode (text "disabled")).1 h) refl

  fallback_principal-on :
      (s : PluginSettings) (namespace app : Text) (c : ClientIdentityContext) (token : Text)
      → app ≢ []
      → (s.principal_fallback_mode == text "disabled") ≡ false
      → IsNamed (fallback_principal sha256_hex s namespace app c token)
  unfolding fallback_principal
  fallback_principal-on s namespace app c token h off = rw off (
      if_cases IsNamed (s.principal_fallback_mode == text "user_agent_plus_session")
        (session_principal sha256_hex namespace app c)
        (key_principal sha256_hex namespace app c token)
        (λ _. session_principal-ne-nil namespace app c)
        (λ _. key_principal-ne-nil namespace app c token h))

  abbrev agent_app : ClientIdentityContext → Headers → Text
  agent_app c headers =
      normalize_client_app c.client_app (first_header_value headers (text "User-Agent" ∷ []))

  explicit-IsNamed :
      (settings : PluginSettings) (c : ClientIdentityContext) (token : Text) (headers : Headers)
      → explicit_allowed settings c ≡ true
      → IsNamed (derive_stable_principal sha256_hex settings c token headers)
  unfolding derive_stable_principal
  explicit-IsNamed settings c token headers h =
      let app = agent_app c headers in
      let seed = seed_of (explicit_terms (identity_namespace c) app c) in
      if_cases IsNamed
        ((normalize_settings settings).allow_explicit_client_identity_headers
          && c.explicit_identity
          && not (is_nil seed))
        (hash_string sha256_hex (salt (text "explicit") ++ seed), text "explicit")
        (fallback_principal sha256_hex (normalize_settings settings) (identity_namespace c) app c
          token)
        (λ _. hash-salt-ne-nil (text "explicit") seed)
        (λ off. absurd (
          both (explicit_allowed settings c) (is_nil seed) h
            (is_nil-false seed (explicit_seed-ne-nil (identity_namespace c) app c)) off))

  implicit_lem :
      (settings : PluginSettings) (c : ClientIdentityContext) (token : Text) (headers : Headers)
      → explicit_allowed settings c ≡ false
      → derive_stable_principal sha256_hex settings c token headers
        ≡ fallback_principal sha256_hex
            (normalize_settings settings)
            (identity_namespace c)
            (agent_app c headers)
            c
            token
  unfolding derive_stable_principal
  implicit_lem settings c token headers h = rw h refl

  named :
      {d : Text × Text}
      → {P : Type 0} → IsNamed d
      → (P → ⊥)
      → (d.0 ≡ [] ↔ P) × (d.0 ≡ [] → d.1 ≡ text "disabled")
  named n not_p = ((λ e. absurd (n e), λ p. absurd (not_p p)), λ e. absurd (n e))

  -- A principal is missing exactly when the fallback mode is "disabled" and no explicit
  -- identity is both allowed and given, and its source is then "disabled". SHA-256 in
  -- hexadecimal is never empty.
  pub derive_stable_principal_iff :
      (settings : PluginSettings) (c : ClientIdentityContext) (token : Text) (headers : Headers)
      → ((derive_stable_principal sha256_hex settings c token headers).0 ≡ []
          ↔ ((normalize_settings settings).principal_fallback_mode ≡ text "disabled")
            × (explicit_allowed settings c ≡ false))
        × ((derive_stable_principal sha256_hex settings c token headers).0 ≡ []
            → (derive_stable_principal sha256_hex settings c token headers).1 ≡ text "disabled")
  derive_stable_principal_iff settings c token headers =
      elim (Bool-cases (explicit_allowed settings c)) [
        | inr off ↦ elim (Bool-cases (mode == text "disabled")) [
          | inr on ↦
              named
                (rw (implicit_lem settings c token headers off) (
                  fallback_principal-on (normalize_settings settings) (identity_namespace c)
                    (agent_app c headers) c token (normalize_client_app-ne-nil c.client_app _) on))
                (λ (e, _). differ on ((==_iff mode (text "disabled")).1 e))
          | inl is_off ↦
              (let gone : derive_stable_principal sha256_hex settings c token headers
                    ≡ ([], text "disabled") =
                  implicit_lem settings c token headers off
                  ∙ fallback_principal-off (normalize_settings settings) (identity_namespace c)
                      (agent_app c headers) c token ((==_iff mode (text "disabled")).0 is_off) in
                rw gone
                  (((λ _. ((==_iff mode (text "disabled")).0 is_off, off)), λ _. refl), λ _. refl))
        ]
        | inl on ↦ named (explicit-IsNamed settings c token headers on) (λ (_, e). differ e on)
      ]
    where
      mode : Text
      mode = (normalize_settings settings).principal_fallback_mode
