-- ===== src/Identity/Seed.antt =====
-- The terms of a seed are all kept, whatever their values, so a seed fixes them.
use agy_identity_bridge.Base.{
  ◌≡◌, refl, sym, ap, ◌∙◌, ◌≢◌, true, false, List, [], ◌∷◌, ◌++◌, arith, all, All,
}
use agy_identity_bridge.Text.{Text, text, is_space, trim_space, split, join}
use agy_identity_bridge.Text.Splitting.{
  IsFree, split-join, is_free, tagged, tagged-injective, tagged-IsFree,
}
use agy_identity_bridge.Text.Trimming.{trim_space-tagged}
use agy_identity_bridge.Headers.{compact_non_empty}
use agy_identity_bridge.Identity.{ClientIdentityContext, seed_of, explicit_terms}

-- Labels that begin a term: not empty, with no space.
abbrev IsLabel : Text → Type 0
IsLabel [] = ⊥
IsLabel (c ∷ tag) = All (λ c. is_space c ≡ false) (c ∷ tag)

abbrev pub IsTrimmed : Text → Type 0
IsTrimmed s = trim_space s ≡ s

compact-cons :
    (v : Text) (vs : List Text)
    → trim_space v ≡ v
    → v ≢ []
    → compact_non_empty (v ∷ vs) ≡ v ∷ compact_non_empty vs
unfolding compact_non_empty
compact-cons [] vs e n = absurd (n refl)
compact-cons (c ∷ v) vs e n = rw e

compact-tagged :
    (tags values : List Text)
    → All IsLabel tags
    → All IsTrimmed values
    → compact_non_empty (tagged tags values) ≡ tagged tags values
compact-tagged [] values h k = unfold compact_non_empty in refl
compact-tagged (t ∷ tags) [] h k = unfold compact_non_empty in refl
compact-tagged ([] ∷ tags) (v ∷ values) h k = absurd h.0
compact-tagged ((c ∷ t) ∷ tags) (v ∷ values) (l, h) (e, k) =
    compact-cons (c ∷ t ++ v) (tagged tags values) (trim_space-tagged c t v l e) (λ n. cc)
    ∙ ap (◌∷◌ (c ∷ t ++ v)) (compact-tagged tags values h k)

abbrev explicit_labels : List Text
explicit_labels =
    text "namespace=" ∷ text "app=" ∷ text "instance=" ∷ text "profile=" ∷ text "connector=" ∷ []

explicit_labels-IsLabel : All IsLabel explicit_labels
unfolding text is_space
explicit_labels-IsLabel = ground arith

explicit_labels-is_free : all (is_free 0) explicit_labels ≡ true
unfolding text
explicit_labels-is_free = refl

abbrev pub identity_fields : Text → Text → ClientIdentityContext → List Text
identity_fields namespace app c =
    namespace ∷ app ∷ c.client_instance ∷ c.capability_profile ∷ c.connector_id ∷ []

explicit_terms-tagged :
    (namespace app : Text) (c : ClientIdentityContext)
    → explicit_terms namespace app c ≡ tagged explicit_labels (identity_fields namespace app c)
unfolding explicit_terms
explicit_terms-tagged namespace app c = refl

-- No term of an explicit identity is left out, not even one whose value is empty.
pub compact_non_empty-explicit_terms :
    (namespace app : Text) (c : ClientIdentityContext)
    → All IsTrimmed (identity_fields namespace app c)
    → compact_non_empty (explicit_terms namespace app c) ≡ explicit_terms namespace app c
unfolding explicit_terms
compact_non_empty-explicit_terms namespace app c h =
    compact-tagged explicit_labels (identity_fields namespace app c) explicit_labels-IsLabel h

split-seed :
    (namespace app : Text) (c : ClientIdentityContext)
    → All IsTrimmed (identity_fields namespace app c)
    → All (IsFree 0) (identity_fields namespace app c)
    → split 0 (seed_of (explicit_terms namespace app c))
      ≡ tagged explicit_labels (identity_fields namespace app c)
unfolding seed_of
split-seed namespace app c h k =
    let free =
      tagged-IsFree 0 explicit_labels (identity_fields namespace app c) explicit_labels-is_free k in
    ap (λ ts. split 0 (join (0 ∷ []) ts)) (compact_non_empty-explicit_terms namespace app c h)
    ∙ ap (λ ts. split 0 (join (0 ∷ []) ts)) (explicit_terms-tagged namespace app c)
    ∙ split-join 0 _ _ free.0 free.1

-- Two explicit identities have one seed only if namespace, app, instance, profile and connector all
-- agree: separate instances or profiles are separate before the hash is taken. The values are
-- trimmed, as the header reads leave them, and hold no NUL.
pub explicit_seed-injective :
    (namespace app : Text) (c : ClientIdentityContext) (namespace' app' : Text)
    (c' : ClientIdentityContext)
    → All IsTrimmed (identity_fields namespace app c)
    → All IsTrimmed (identity_fields namespace' app' c')
    → All (IsFree 0) (identity_fields namespace app c)
    → All (IsFree 0) (identity_fields namespace' app' c')
    → seed_of (explicit_terms namespace app c) ≡ seed_of (explicit_terms namespace' app' c')
    → identity_fields namespace app c ≡ identity_fields namespace' app' c'
explicit_seed-injective namespace app c namespace' app' c' h h' k k' e =
    tagged-injective explicit_labels _ _ refl refl
      (sym (split-seed namespace app c h k) ∙ ap (split 0) e ∙ split-seed namespace' app' c' h' k')
