-- ===== src/Catalog/RoundTrip.antt =====
-- src/modelcache.go: what is saved of a list of identifiers is what is loaded again.
use agy_identity_bridge.Base.{
  ◌≡◌, refl, sym, ap, ◌∙◌, false, Option, some, List, [], ◌∷◌, map, arith, is_nil,
}
use agy_identity_bridge.Text.{Text}
use agy_identity_bridge.Int64.{Int64}
use agy_identity_bridge.Value.{trimmed_texts}
use agy_identity_bridge.Unique.{unique_strings}
use agy_identity_bridge.Spec.{ModelSpec}
use agy_identity_bridge.Catalog.{
  cache_of, read_cache, write_file, cache_specs, cache_ids, ModelCache, cached_model_specs_from_ids,
  catalog_specs, cache_of, read_cache, write_file, cache_specs, cache_ids, catalog_of, ids_of,
  load_model_cache, load_model_catalog, save_model_catalog, save_model_cache,
}
use agy_identity_bridge.Catalog.Stored.{saved, catalog_specs-saved, ids_of-saved, unique-ids}

-- `json.Marshal` takes the cache, and `json.Unmarshal` undoes it.
abbrev pub IsCodec : (ModelCache → Option Text) → (Text → Option ModelCache) → ModelCache → Type 0
IsCodec marshal unmarshal cache =
    (raw : Text) × (marshal cache ≡ some raw) × (unmarshal raw ≡ some cache)

is_nil-map {ℓ κ} :
    {A : Type ℓ} {B : Type κ} (f : A → B) (xs : List A) → is_nil (map f xs) ≡ is_nil xs
is_nil-map f [] = refl
is_nil-map f (x ∷ xs) = refl

module _ (marshal : ModelCache → Option Text) (unmarshal : Text → Option ModelCache) where
  read-write :
      (cache : ModelCache) (file : Option Text)
      → IsCodec marshal unmarshal cache
      → read_cache unmarshal (write_file (marshal cache) file) ≡ some cache
  read-write cache file (raw, e, f) = rw e f

  read-save :
      (now : Int64) (base_url : Text) (models : List ModelSpec) (file : Option Text)
      → IsCodec marshal unmarshal (cache_of now base_url (catalog_of models))
      → is_nil (catalog_of models) ≡ false
      → read_cache unmarshal (save_model_catalog marshal now base_url models file)
        ≡ some (cache_of now base_url (catalog_of models))
  unfolding save_model_catalog
  read-save now base_url models file codec h = rw h (read-write _ file codec)

  load-save :
      (now : Int64) (base_url : Text) (models : List ModelSpec) (file : Option Text)
      → IsCodec marshal unmarshal (cache_of now base_url (catalog_of models))
      → is_nil (catalog_of models) ≡ false
      → (load_model_catalog unmarshal (save_model_catalog marshal now base_url models file)
          ≡ catalog_specs (catalog_of models))
        × (load_model_cache unmarshal (save_model_catalog marshal now base_url models file)
            ≡ trimmed_texts (unique_strings (ids_of (catalog_of models))))
  unfolding load_model_catalog load_model_cache
  load-save now base_url models file codec h =
      let e = read-save now base_url models file codec h in
      (ap cache_specs e ∙ rw h refl, ap cache_ids e)

saved-ne-nil : (ids : List Text) → is_nil (trimmed_texts ids) ≡ false → is_nil (saved ids) ≡ false
saved-ne-nil ids h = sym (is_nil-map _ (saved ids)) ∙ ap is_nil (ids_of-saved ids) ∙ h

save-models :
    (marshal : ModelCache → Option Text) (now : Int64) (base_url : Text) (ids : List Text)
    (file : Option Text)
    → is_nil (trimmed_texts ids) ≡ false
    → save_model_cache marshal now base_url ids file
      ≡ save_model_catalog marshal now base_url (cached_model_specs_from_ids ids) file
unfolding save_model_cache trimmed_texts
save-models marshal now base_url [] file h = ground arith
save-models marshal now base_url (id ∷ ids) file h = refl

-- Saving a list of identifiers, not all blank, and loading the file again gives the models of
-- these identifiers in order, with their default levels, and the identifiers trimmed and without
-- repeats. Unmarshalling undoes marshalling.
pub save_model_cache-load :
    (marshal : ModelCache → Option Text) (unmarshal : Text → Option ModelCache) (now : Int64)
    (base_url : Text) (ids : List Text) (file : Option Text)
    → IsCodec marshal unmarshal (cache_of now base_url (saved ids))
    → is_nil (trimmed_texts ids) ≡ false
    → (load_model_catalog unmarshal (save_model_cache marshal now base_url ids file)
        ≡ cached_model_specs_from_ids ids)
      × (load_model_cache unmarshal (save_model_cache marshal now base_url ids file)
          ≡ unique_strings ids)
save_model_cache-load marshal unmarshal now base_url ids file codec h =
    let loads =
      load-save marshal unmarshal now base_url (cached_model_specs_from_ids ids) file codec
        (saved-ne-nil ids h) in
    let e = save-models marshal now base_url ids file h in
    (
      ap (load_model_catalog unmarshal) e ∙ loads.0 ∙ catalog_specs-saved ids,
      ap (load_model_cache unmarshal) e
          ∙ loads.1
          ∙ ap (λ l. trimmed_texts (unique_strings l)) (ids_of-saved ids)
          ∙ unique-ids ids,
    )
