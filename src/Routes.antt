-- ===== src/Routes.antt =====
-- src/executor.go: which upstream route serves a request, and under which model name.
pub mod Known
pub mod Models
use agy_identity_bridge.Base.{
  ℕ, ◌+◌, Bool, true, false, not, ◌&&◌, ◌||◌, Option, none, some, List, [], ◌∷◌, ◌++◌, eqb,
  if◌then◌else◌, length, is_nil, drop, any,
}
use agy_identity_bridge.Text.{
  Text, text, ◌==◌, trim_space, to_lower, equal_fold, has_prefix, has_suffix, contains, trim_prefix,
  trim_suffix,
}
use agy_identity_bridge.Value.{Value, Map, string}
use agy_identity_bridge.Spec.{ModelSpec, ProviderSpec, upstream_base_url}

abbrev pub chat_completions_endpoint : Text
chat_completions_endpoint = text "/chat/completions"

abbrev pub image_generations_endpoint : Text
image_generations_endpoint = text "/images/generations"

abbrev pub image_edits_endpoint : Text
image_edits_endpoint = text "/images/edits"

abbrev pub known_upstream_routes : List Text
known_upstream_routes =
    chat_completions_endpoint ∷ image_generations_endpoint ∷ image_edits_endpoint ∷ []

-- `map[key]` of a Go map, an absent key being `none`.
abbrev pub get_key : Text → Map → Option Value
get_key key [] = none
get_key key ((k, v) ∷ raw) = if k == key then some v else get_key key raw

abbrev pub text_of : Option Value → Text
text_of (some (string s)) = trim_space s
text_of _ = []

unfoldable pub request_path_from_metadata : Option Map → Text
request_path_from_metadata none = []
request_path_from_metadata (some metadata) = text_of (get_key (text "request_path") metadata)

-- The lookup in the map of routes, each of which is its own value.
abbrev pub known_route : Text → List Text → Text
known_route path [] = []
known_route path (route ∷ routes) = if path == route then route else known_route path routes

unfoldable pub route_from_request_path : Text → Text
route_from_request_path request_path =
    let path = to_lower (trim_space request_path) in
    if is_nil path || not (has_prefix path (text "/"))
    then []
    else known_route (trim_prefix path (text "/v1")) known_upstream_routes

unfoldable pub strip_model_prefix : Text → Text → Text
strip_model_prefix model_id prefix =
    let model = trim_space model_id in
    let p = trim_suffix (trim_space prefix) (text "/") in
    if is_nil p
    then model
    else if has_prefix (to_lower model) (to_lower p ++ text "/")
    then drop (length p + 1) model
    else model

abbrev pub declares : Text → ModelSpec → Bool
declares bare item =
    item.image
    && (equal_fold (trim_space item.name) bare || equal_fold (trim_space item.alias) bare)

unfoldable pub serves_image_model : ProviderSpec → Text → Bool
unfolding strip_model_prefix
serves_image_model spec model =
    let bare = to_lower (trim_space (strip_model_prefix model spec.prefix)) in
    if is_nil bare then false else any (declares bare) spec.models

unfoldable pub is_image_lane_model : Text → ProviderSpec → Bool
unfolding strip_model_prefix serves_image_model
is_image_lane_model model spec =
    let bare = to_lower (trim_space (strip_model_prefix model spec.prefix)) in
    if is_nil bare
    then false
    else if contains bare (text "image")
    then true
    else serves_image_model spec bare

unfoldable pub upstream_endpoint : Text → Text → Text → Text → ProviderSpec → Text
unfolding route_from_request_path serves_image_model
upstream_endpoint model format alt request_path spec =
    let route = route_from_request_path request_path in
    if not (is_nil route)
    then route
    else if contains (to_lower format) (text "image")
        || equal_fold (trim_space alt) (text "openai-image")
    then image_generations_endpoint
    else if serves_image_model spec model
    then image_generations_endpoint
    else chat_completions_endpoint

-- The path that `url.Parse` finds in a URL, `none` when it refuses it.
module _ (url_path : Text → Option Text) where
  abbrev pub path_or : Text → Option Text → Text
  path_or endpoint none = endpoint
  path_or endpoint (some path) = if is_nil (trim_space path) then endpoint else trim_space path

  -- The full URL and the path on the wire.
  unfoldable pub upstream_request_url : Text → Text → Text × Text
  upstream_request_url base_url endpoint =
      let full = trim_space base_url ++ endpoint in (full, path_or endpoint (url_path full))

  unfoldable pub signed_upstream_path : Text → Text → Text → Text → ProviderSpec → Text
  unfolding upstream_endpoint upstream_request_url
  signed_upstream_path model format alt request_path spec =
      (upstream_request_url (upstream_base_url spec)
        (upstream_endpoint model format alt request_path spec)).1

-- What stands before and after the last `c`: `strings.LastIndex`.
abbrev pub later_cut : ℕ → ℕ → Text → Option (Text × Text) → Option (Text × Text)
later_cut c d s (some (before, after)) = some (d ∷ before, after)
later_cut c d s none = if eqb d c then some ([], s) else none

unfoldable pub cut_last : ℕ → Text → Option (Text × Text)
cut_last c [] = none
cut_last c (d ∷ s) = later_cut c d s (cut_last c s)

abbrev pub thinking_levels : List Text
thinking_levels =
    text "none"
    ∷ text "off"
    ∷ text "minimal"
    ∷ text "low"
    ∷ text "medium"
    ∷ text "high"
    ∷ text "xhigh"
    ∷ text "max"
    ∷ text "auto"
    ∷ []

abbrev pub with_level : Text → Text → Text → Text × Text
with_level model before inner =
    let level = to_lower (trim_space inner) in
    if any (λ known. level == known) thinking_levels
    then (trim_space before, if level == text "off" then text "none" else level)
    else (model, [])

abbrev pub at_parenthesis : Text → Option (Text × Text) → Text × Text
at_parenthesis model none = (model, [])
at_parenthesis model (some (before, after)) =
    if not (has_suffix model (text ")")) || is_nil after
    then (model, [])
    else with_level model before (trim_suffix after (text ")"))

-- The model and the level behind it in parentheses.
unfoldable pub normalize_thinking_model_name : Text → Text × Text
unfolding cut_last
normalize_thinking_model_name model = let m = trim_space model in at_parenthesis m (cut_last b'(' m)
