-- ===== src/Dispatch/HeaderTable.antt =====
-- src/dispatch.go: the headers of an injected identity, name by name.
use agy_identity_bridge.Text.Equality.{==_iff}
use agy_identity_bridge.Base.{
  sym, ap, inl, inr, Bool-cases, List, ◌≡◌, refl, ◌∙◌, Bool, true, false, Option, none, some, List,
  [], ◌∷◌, if◌then◌else◌, is_nil,
}
use agy_identity_bridge.Text.{Text, text, ◌==◌}
use agy_identity_bridge.Value.{get, put}
use agy_identity_bridge.Value.Entries.{get-put, get-put_other}
use agy_identity_bridge.Headers.{Headers}
use agy_identity_bridge.Identity.{ClientIdentityContext}
use agy_identity_bridge.Upstream.{signature_header}
use agy_identity_bridge.Dispatch.{injected_headers}

-- The headers of a response: for each name the value that it has, if any.
abbrev pub Table : Type 0
Table = List (Text × Option (List Text))

unfoldable pub look : Text → Table → Option (List Text)
look key [] = none
look key ((name, value) ∷ table) = if name == key then value else look key table

-- A header that is left out where its value is empty.
abbrev pub filled : Text → Option (List Text)
filled value = if is_nil value then none else some (value ∷ [])

look-here :
    (name key : Text) (value : Option (List Text)) (table : Table)
    → name ≡ key
    → look key ((name, value) ∷ table) ≡ value
unfolding look
look-here name key value table e = rw ((==_iff name key).1 e) refl

look-there :
    (name key : Text) (value : Option (List Text)) (table : Table)
    → (name == key) ≡ false
    → look key ((name, value) ∷ table) ≡ look key table
unfolding look
look-there name key value table h = rw h refl

-- One header more, unless it is left out.
pub look-put :
    (blank : Bool) (name : Text) (value : List Text) (headers : Headers) (table : Table)
    → look name table ≡ none
    → ((key : Text) → get key headers ≡ look key table)
    → (key : Text)
    → get key (if blank then headers else put name value headers)
      ≡ look key ((name, if blank then none else some value) ∷ table)
look-put true name value headers table free h key = elim (Bool-cases (name == key)) [
  | inl here ↦
      let e = (==_iff name key).0 here in
      h key ∙ ap (λ k. look k table) (sym e) ∙ free ∙ sym (look-here name key none table e)
  | inr there ↦ h key ∙ sym (look-there name key none table there)
]
look-put false name value headers table free h key = elim (Bool-cases (name == key)) [
  | inl here ↦
      let e = (==_iff name key).0 here in
      ap (λ k. get key (put k value headers)) e
      ∙ get-put key value headers
      ∙ sym (look-here name key (some value) table e)
  | inr there ↦
      get-put_other key name value headers there
      ∙ h key
      ∙ sym (look-there name key (some value) table there)
]

-- The headers that every injected identity has.
abbrev pub fixed_table : Text → ClientIdentityContext → Text → Table
fixed_table version identity provider =
    (text "X-AGY-Principal", some (identity.principal ∷ []))
    ∷ (text "X-AGY-Timestamp", some (identity.timestamp ∷ []))
    ∷ (text "X-AGY-Client-App", some (identity.client_app ∷ []))
    ∷ (text "X-AGY-Plugin-Version", some (version ∷ []))
    ∷ (text "X-AGY-CPA-Provider-Name", some (provider ∷ []))
    ∷ []

abbrev pub identity_table : Text → ClientIdentityContext → Text → Table
identity_table version identity provider =
    (text "X-AGY-Connector-Id", filled identity.connector_id)
    ∷ (text "X-AGY-Capability-Profile", filled identity.capability_profile)
    ∷ (text "X-AGY-Client-Instance", filled identity.client_instance)
    ∷ fixed_table version identity provider

fixed_table-get :
    (version provider : Text) (identity : ClientIdentityContext) (key : Text)
    → get key (
        (text "X-AGY-Principal", identity.principal ∷ [])
        ∷ (text "X-AGY-Timestamp", identity.timestamp ∷ [])
        ∷ (text "X-AGY-Client-App", identity.client_app ∷ [])
        ∷ (text "X-AGY-Plugin-Version", version ∷ [])
        ∷ (text "X-AGY-CPA-Provider-Name", provider ∷ [])
        ∷ [])
      ≡ look key (fixed_table version identity provider)
unfolding get look
fixed_table-get version provider identity key = refl

-- No name stands twice in the table.
module _ (version provider : Text) (identity : ClientIdentityContext) where
  look-instance : look (text "X-AGY-Client-Instance") (fixed_table version identity provider) ≡ none
  unfolding look text ◌==◌
  look-instance = refl

  look-profile :
      look (text "X-AGY-Capability-Profile") (
        (text "X-AGY-Client-Instance", filled identity.client_instance)
        ∷ fixed_table version identity provider)
      ≡ none
  unfolding look text ◌==◌
  look-profile = refl

  look-connector :
      look (text "X-AGY-Connector-Id") (
        (text "X-AGY-Capability-Profile", filled identity.capability_profile)
        ∷ (text "X-AGY-Client-Instance", filled identity.client_instance)
        ∷ fixed_table version identity provider)
      ≡ none
  unfolding look text ◌==◌
  look-connector = refl

  pub look-signature : look signature_header (identity_table version identity provider) ≡ none
  unfolding look text ◌==◌
  look-signature = refl

  pub injected_headers-table :
      (key : Text)
      → get key (injected_headers version identity provider)
        ≡ look key (identity_table version identity provider)
  injected_headers-table =
      look-put (is_nil identity.connector_id) (text "X-AGY-Connector-Id") _ _ _ look-connector (
        look-put (is_nil identity.capability_profile) (text "X-AGY-Capability-Profile") _ _ _
          look-profile
          (look-put (is_nil identity.client_instance) (text "X-AGY-Client-Instance") _ _ _
            look-instance (fixed_table-get version provider identity)))
