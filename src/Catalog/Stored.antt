-- ===== src/Catalog/Stored.antt =====
-- src/modelcache.go: the models of a list of identifiers, as they are stored and read back.
use agy_identity_bridge.Text.{◌==◌}
use agy_identity_bridge.Base.{
  ◌≡◌, refl, sym, ap, ap₂, ◌∙◌, inl, inr, Bool, true, false, List, [], ◌∷◌, arith, if◌then◌else◌,
  Bool-cases, is_nil, is_nil-false,
}
use agy_identity_bridge.Text.{Text, text, trim_space, to_lower, contains}
use agy_identity_bridge.Text.Trimming.{trim_space_idem}
use agy_identity_bridge.Value.{trimmed_texts}
use agy_identity_bridge.Unique.{
  unique_strings, unique_loop, normalize_thinking_levels, normalize_modalities,
}
use agy_identity_bridge.Unique.Laws.{IsUnique, unique_loop-IsUnique}
use agy_identity_bridge.Spec.{ModelSpec, default_thinking_levels_for_model}
use agy_identity_bridge.Catalog.{
  CachedModel, levels_only, spec_from_id, cached_model_specs_from_ids, spec_of_cached,
  catalog_specs, model_id, saved_levels, cached_of_spec, catalog_of, ids_of,
}

abbrev IsNormal : List Text → Type 0
IsNormal levels = normalize_thinking_levels levels ≡ levels

-- The three lists of levels in the source, and none.
levels-IsNormal :
    (a b c : Bool)
    → IsNormal (
        if a
        then text "none" ∷ text "low" ∷ text "high" ∷ []
        else if b
        then text "none" ∷ text "low" ∷ text "medium" ∷ text "high" ∷ []
        else if c
        then text "none" ∷ text "low" ∷ text "high" ∷ []
        else [])
unfolding normalize_thinking_levels text trim_space to_lower ◌==◌
levels-IsNormal true b c = refl
levels-IsNormal false true c = refl
levels-IsNormal false false true = refl
levels-IsNormal false false false = refl

default-IsNormal : (id : Text) → IsNormal (default_thinking_levels_for_model id)
unfolding default_thinking_levels_for_model
default-IsNormal id = levels-IsNormal _ _ _

-- An identifier as it is kept: trimmed and not blank.
abbrev IsId : Text → Type 0
IsId id = (trim_space id ≡ id) × (is_nil id ≡ false)

trim_space-IsId : (id : Text) → is_nil (trim_space id) ≡ false → IsId (trim_space id)
trim_space-IsId id h = (trim_space_idem id, h)

stored_levels :
    (levels : List Text) (model : ModelSpec)
    → default_thinking_levels_for_model (model_id model) ≡ levels
    → IsNormal levels
    → normalize_thinking_levels (saved_levels model (levels_only levels)) ≡ levels
stored_levels [] model e n = ap normalize_thinking_levels e ∙ n
stored_levels (level ∷ levels) model e n = ap normalize_thinking_levels n ∙ n

spec-id : (id : Text) → IsId id → model_id (spec_from_id id) ≡ id
unfolding spec_from_id
spec-id id (t, n) = rw t (rw n refl)

stored_spec :
    (id : Text) → IsId id → spec_of_cached (cached_of_spec (spec_from_id id)) ≡ spec_from_id id
unfolding spec_of_cached cached_of_spec spec_from_id normalize_modalities
stored_spec id (t, n) =
    let levels : normalize_thinking_levels
          (saved_levels (spec_from_id id) (spec_from_id id).thinking)
        ≡ default_thinking_levels_for_model id =
      stored_levels _ (spec_from_id id) (ap default_thinking_levels_for_model (spec-id id (t, n)))
        (default-IsNormal id) in
    ap₂
      (λ name kept. record {
        name = name;
        alias = [];
        image = contains (to_lower id) (text "image");
        input_modalities = [];
        output_modalities = [];
        thinking = levels_only kept;
      })
      (ap trim_space (spec-id id (t, n)) ∙ t) levels

-- The saved catalog of the identifiers.
abbrev pub saved : List Text → List CachedModel
saved ids = catalog_of (cached_model_specs_from_ids ids)

kept :
    (model : ModelSpec) (models : List ModelSpec)
    → is_nil (model_id model) ≡ false
    → catalog_of (model ∷ models) ≡ cached_of_spec model ∷ catalog_of models
unfolding catalog_of
kept model models h = rw h refl

loaded :
    (item : CachedModel) (items : List CachedModel)
    → is_nil (trim_space item.id) ≡ false
    → catalog_specs (item ∷ items) ≡ spec_of_cached item ∷ catalog_specs items
unfolding catalog_specs
loaded item items h = rw h refl

specs-cons :
    (id : Text) (ids : List Text)
    → is_nil (trim_space id) ≡ false
    → cached_model_specs_from_ids (id ∷ ids)
      ≡ spec_from_id (trim_space id) ∷ cached_model_specs_from_ids ids
unfolding cached_model_specs_from_ids
specs-cons id ids h = rw h refl

cached-id : (id : Text) → IsId id → (cached_of_spec (spec_from_id id)).id ≡ id
unfolding cached_of_spec
cached-id id h = spec-id id h

-- One identifier in front of the others.
saved-cons :
    (id : Text) (ids : List Text)
    → is_nil (trim_space id) ≡ false
    → saved (id ∷ ids) ≡ cached_of_spec (spec_from_id (trim_space id)) ∷ saved ids
saved-cons id ids h =
    ap catalog_of (specs-cons id ids h)
    ∙ kept _ _ (ap is_nil (spec-id (trim_space id) (trim_space-IsId id h)) ∙ h)

-- A blank identifier is left out.
saved-blank :
    (id : Text) (ids : List Text)
    → is_nil (trim_space id) ≡ true
    → cached_model_specs_from_ids (id ∷ ids) ≡ cached_model_specs_from_ids ids
unfolding cached_model_specs_from_ids
saved-blank id ids h = rw h refl

pub catalog_specs-saved :
    (ids : List Text) → catalog_specs (saved ids) ≡ cached_model_specs_from_ids ids
catalog_specs-saved [] = unfold catalog_of cached_model_specs_from_ids catalog_specs in refl
catalog_specs-saved (id ∷ ids) = elim (Bool-cases (is_nil (trim_space id))) [
  | inl h ↦ rw (saved-blank id ids h) (catalog_specs-saved ids)
  | inr h ↦
      let t = trim_space-IsId id h in
      ap catalog_specs (saved-cons id ids h)
      ∙ loaded _ _
          (ap (λ s. is_nil (trim_space s)) (cached-id (trim_space id) t) ∙ ap is_nil t.0 ∙ h)
      ∙ ap₂ ◌∷◌ (stored_spec (trim_space id) t) (catalog_specs-saved ids)
      ∙ sym (specs-cons id ids h)
]

pub ids_of-saved : (ids : List Text) → ids_of (saved ids) ≡ trimmed_texts ids
unfolding trimmed_texts
ids_of-saved [] = unfold catalog_of cached_model_specs_from_ids in refl
ids_of-saved (id ∷ ids) = elim (Bool-cases (is_nil (trim_space id))) [
  | inl h ↦ rw h (ap (λ specs. ids_of (catalog_of specs)) (saved-blank id ids h) ∙ ids_of-saved ids)
  | inr h ↦ rw h (
      ap ids_of (saved-cons id ids h)
      ∙ ap₂ ◌∷◌ (cached-id (trim_space id) (trim_space-IsId id h)) (ids_of-saved ids))
]

-- Trimming first changes nothing for the loop that drops blanks and repeats.
unique_loop-trimmed :
    (seen ids : List Text)
    → unique_loop trim_space (λ id. id) seen (trimmed_texts ids)
      ≡ unique_loop trim_space (λ id. id) seen ids
unfolding unique_loop trimmed_texts
unique_loop-trimmed seen [] = refl
unique_loop-trimmed seen (id ∷ ids) = ground (
  arith,
  trim_space_idem id,
  unique_loop-trimmed seen ids,
  unique_loop-trimmed (trim_space id ∷ seen) ids,
)

trimmed_texts_of_IsUnique :
    (seen ids : List Text) → IsUnique trim_space (λ id. id) seen ids → trimmed_texts ids ≡ ids
unfolding trimmed_texts
trimmed_texts_of_IsUnique seen [] h = refl
trimmed_texts_of_IsUnique seen (id ∷ ids) (((t, n), rest), (f, fs)) =
    rw t
      (rw (is_nil-false id n) (ap (◌∷◌ id) (trimmed_texts_of_IsUnique (id ∷ seen) ids (rest, fs))))

pub unique-ids :
    (ids : List Text) → trimmed_texts (unique_strings (trimmed_texts ids)) ≡ unique_strings ids
unfolding unique_strings
unique-ids ids =
    ap trimmed_texts (unique_loop-trimmed [] ids)
    ∙ trimmed_texts_of_IsUnique [] _
        (unique_loop-IsUnique trim_space (λ id. id) trim_space_idem [] ids)
