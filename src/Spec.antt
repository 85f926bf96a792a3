-- ===== src/Spec.antt =====
-- src/providerspec.go: the mirrored provider, its models and what is published of them.
pub mod Thinking
pub mod Compat
pub mod Extract
pub mod Choice
use agy_identity_bridge.Base.{
  Bool, false, not, ◌&&◌, ◌||◌, Option, none, some, List, [], ◌∷◌, eqb, if◌then◌else◌, is_nil, any,
}
use agy_identity_bridge.Text.{Text, text, ◌==◌, trim_space, to_lower, equal_fold, trim_suffix}
use agy_identity_bridge.Text.{trim_right}
use agy_identity_bridge.Int64.{Int64}
use agy_identity_bridge.Config.{PluginSettings}
use agy_identity_bridge.Unique.{normalize_thinking_levels, normalize_modalities}

pub record ThinkingSpec : Type 0 where
  pub min : Int64
  pub max : Int64
  pub zero_allowed : Bool
  pub dynamic_allowed : Bool
  pub levels : List Text

pub record ModelSpec : Type 0 where
  pub name : Text
  pub alias : Text
  pub image : Bool
  pub input_modalities : List Text
  pub output_modalities : List Text
  pub thinking : Option ThinkingSpec

pub record ProviderSpec : Type 0 where
  pub name : Text
  pub prefix : Text
  pub base_url : Text
  pub api_keys : List Text
  pub headers : List (Text × Text)
  pub priority : Int64
  pub source_priority : Int64
  pub disable_cooling : Bool
  pub models : List ModelSpec
  pub enabled : Bool

pub record ModelInfo : Type 0 where
  pub id : Text
  pub object : Text
  pub created : Int64
  pub owned_by : Text
  pub model_type : Text
  pub display_name : Text
  pub supported_input_modalities : List Text
  pub supported_output_modalities : List Text
  pub thinking : Option ThinkingSpec
  pub user_defined : Bool

unfoldable pub can_serve_models : PluginSettings → ProviderSpec → Bool
can_serve_models settings spec =
    settings.executor_enabled
    && (not (is_nil (trim_space settings.model_namespace)) || not spec.enabled)

unfoldable pub contains_thinking_level : List Text → Text → Bool
contains_thinking_level levels want = any (λ level. equal_fold (trim_space level) want) levels

unfoldable pub effective_thinking : Option ThinkingSpec → Option ThinkingSpec
unfolding contains_thinking_level
effective_thinking none = none
effective_thinking (some spec) =
    let levels = normalize_thinking_levels spec.levels in
    some (record spec {
      levels =
          if spec.zero_allowed && not (contains_thinking_level levels (text "none"))
          then text "none" ∷ levels
          else levels;
    })

unfoldable pub default_thinking_levels_for_model : Text → List Text
default_thinking_levels_for_model model =
    let m = to_lower (trim_space model) in
    if m == text "gemini-3.1-pro"
    then text "none" ∷ text "low" ∷ text "high" ∷ []
    else if m == text "gemini-3.6-flash"
        || m == text "gemini-3.7-flash"
        || m == text "gemini-3.8-flash"
    then text "none" ∷ text "low" ∷ text "medium" ∷ text "high" ∷ []
    else if m == text "gemini-image"
    then text "none" ∷ text "low" ∷ text "high" ∷ []
    else []

-- The loop of `modelInfos`; sorting by identifier is the library's stable sort, a parameter.
abbrev pub public_id : ModelSpec → Text
public_id model = trim_space (if is_nil model.alias then model.name else model.alias)

abbrev pub model_info : Int64 → Text → ModelSpec → ModelInfo
model_info created owner model = record {
  id = public_id model;
  object = text "model";
  created = created;
  owned_by = owner;
  model_type = if model.image then text "openai-image" else text "openai-compatibility";
  display_name = public_id model;
  supported_input_modalities = normalize_modalities model.input_modalities;
  supported_output_modalities = normalize_modalities model.output_modalities;
  thinking = effective_thinking model.thinking;
  user_defined = false;
}

unfoldable pub listed_models : Int64 → Text → List ModelSpec → List ModelInfo
listed_models created owner [] = []
listed_models created owner (model ∷ models) =
    let rest = listed_models created owner models in
    if is_nil (public_id model) then rest else model_info created owner model ∷ rest

module _ (sort_by_id : List ModelInfo → List ModelInfo) where
  unfoldable pub model_infos : Int64 → ProviderSpec → List ModelInfo
  unfolding listed_models
  model_infos now spec = sort_by_id (listed_models now spec.name spec.models)

unfoldable pub model_namespace : Text → Text → Text
model_namespace namespace provider_prefix =
    if not (is_nil (trim_space namespace))
    then trim_suffix (trim_space namespace) (text "/")
    else trim_suffix (trim_space provider_prefix) (text "/")

-- `strings.TrimRight(s, "/")`
abbrev pub trim_right_slashes : Text → Text
trim_right_slashes s = trim_right (λ c. eqb c b'/') s

unfoldable pub upstream_base_url : ProviderSpec → Text
upstream_base_url spec = trim_right_slashes (trim_space spec.base_url)

abbrev first_key : List Text → Text
first_key [] = []
first_key (key ∷ keys) = trim_space key

unfoldable pub primary_api_key : ProviderSpec → Text
primary_api_key spec = first_key spec.api_keys
