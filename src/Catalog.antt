-- ===== src/Catalog.antt =====
-- src/modelcache.go: the cached list of models. The file and its JSON form are parameters.
pub mod Stored
pub mod RoundTrip
use agy_identity_bridge.Base.{
  Bool, false, Option, none, some, List, [], ◌∷◌, map, if◌then◌else◌, is_nil,
}
use agy_identity_bridge.Text.{Text, text, trim_space, to_lower, contains}
use agy_identity_bridge.Int64.{Int64}
use agy_identity_bridge.Unique.{unique_strings, normalize_thinking_levels, normalize_modalities}
use agy_identity_bridge.Spec.{
  ThinkingSpec, ModelSpec, trim_right_slashes, default_thinking_levels_for_model,
}
use agy_identity_bridge.Value.{trimmed_texts}

pub record CachedModel : Type 0 where
  pub id : Text
  pub image : Bool
  pub thinking_levels : List Text
  pub input_modalities : List Text
  pub output_modalities : List Text

pub record ModelCache : Type 0 where
  pub fetched_at : Int64
  pub base_url : Text
  pub models : List Text
  pub catalog : List CachedModel

-- Only the levels of a cached model are known.
abbrev pub levels_only : List Text → Option ThinkingSpec
levels_only [] = none
levels_only (level ∷ levels) = some (record {
  min = 0;
  max = 0;
  zero_allowed = false;
  dynamic_allowed = false;
  levels = level ∷ levels;
})

unfoldable pub spec_from_id : Text → ModelSpec
spec_from_id id = record {
  name = id;
  alias = [];
  image = contains (to_lower id) (text "image");
  input_modalities = [];
  output_modalities = [];
  thinking = levels_only (default_thinking_levels_for_model id);
}

unfoldable pub cached_model_specs_from_ids : List Text → List ModelSpec
unfolding spec_from_id
cached_model_specs_from_ids [] = []
cached_model_specs_from_ids (id ∷ ids) =
    let rest = cached_model_specs_from_ids ids in
    if is_nil (trim_space id) then rest else spec_from_id (trim_space id) ∷ rest

unfoldable pub spec_of_cached : CachedModel → ModelSpec
spec_of_cached item = record {
  name = trim_space item.id;
  alias = [];
  image = item.image;
  input_modalities = item.input_modalities;
  output_modalities = item.output_modalities;
  thinking = levels_only (normalize_thinking_levels item.thinking_levels);
}

-- The loop of `loadModelCatalog`.
unfoldable pub catalog_specs : List CachedModel → List ModelSpec
unfolding spec_of_cached
catalog_specs [] = []
catalog_specs (item ∷ items) =
    let rest = catalog_specs items in
    if is_nil (trim_space item.id) then rest else spec_of_cached item ∷ rest

abbrev pub specs_of_cache : ModelCache → List ModelSpec
specs_of_cache cache =
    if is_nil cache.catalog
    then cached_model_specs_from_ids cache.models
    else catalog_specs cache.catalog

-- The loop of `saveModelCatalog`: models without an identifier are left out.
abbrev pub model_id : ModelSpec → Text
model_id model =
    if is_nil (trim_space model.name) then trim_space model.alias else trim_space model.name

abbrev pub saved_levels : ModelSpec → Option ThinkingSpec → List Text
saved_levels model none = default_thinking_levels_for_model (model_id model)
saved_levels model (some thinking) = normalize_thinking_levels thinking.levels

unfoldable pub cached_of_spec : ModelSpec → CachedModel
cached_of_spec model = record {
  id = model_id model;
  image = model.image;
  thinking_levels = saved_levels model model.thinking;
  input_modalities = normalize_modalities model.input_modalities;
  output_modalities = normalize_modalities model.output_modalities;
}

unfoldable pub catalog_of : List ModelSpec → List CachedModel
unfolding cached_of_spec
catalog_of [] = []
catalog_of (model ∷ models) =
    let rest = catalog_of models in
    if is_nil (model_id model) then rest else cached_of_spec model ∷ rest

abbrev pub ids_of : List CachedModel → List Text
ids_of items = map (λ item. item.id) items

-- The file is its content, `none` where it cannot be read; `json.Unmarshal` may fail.
abbrev cache_ids : Option ModelCache → List Text
cache_ids none = []
cache_ids (some cache) = trimmed_texts cache.models

abbrev cache_specs : Option ModelCache → List ModelSpec
cache_specs none = []
cache_specs (some cache) = specs_of_cache cache

module _ (unmarshal : Text → Option ModelCache) where
  abbrev pub read_cache : Option Text → Option ModelCache
  read_cache none = none
  read_cache (some raw) = unmarshal raw

  unfoldable pub load_model_cache : Option Text → List Text
  load_model_cache file = cache_ids (read_cache file)

  unfoldable pub load_model_catalog : Option Text → List ModelSpec
  unfolding catalog_specs cached_model_specs_from_ids
  load_model_catalog file = cache_specs (read_cache file)

abbrev write_file : Option Text → Option Text → Option Text
write_file none file = file
write_file (some raw) file = some raw

abbrev pub cache_of : Int64 → Text → List CachedModel → ModelCache
cache_of now base_url catalog = record {
  fetched_at = now;
  base_url = trim_right_slashes (trim_space base_url);
  models = unique_strings (ids_of catalog);
  catalog = catalog;
}

-- The file after the call; a cache that `json.Marshal` refuses is not written.
module _ (marshal : ModelCache → Option Text) where
  unfoldable pub save_model_catalog : Int64 → Text → List ModelSpec → Option Text → Option Text
  unfolding catalog_of
  save_model_catalog now base_url models file =
      if is_nil (catalog_of models)
      then file
      else write_file (marshal (cache_of now base_url (catalog_of models))) file

  unfoldable pub save_model_cache : Int64 → Text → List Text → Option Text → Option Text
  unfolding save_model_catalog cached_model_specs_from_ids
  save_model_cache now base_url models file =
      if is_nil models
      then file
      else save_model_catalog now base_url (cached_model_specs_from_ids models) file
