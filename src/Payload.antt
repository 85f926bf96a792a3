-- ===== src/Payload.antt =====
-- src/executor.go: the rewriting of the JSON body that goes upstream.
-- `unmarshal` decodes a body into a map, and `marshal` encodes a map or fails.
pub mod Panics
use agy_identity_bridge.Base.{
  Bool, true, false, not, ◌&&◌, ◌||◌, Option, none, some, [], ◌∷◌, map, if◌then◌else◌, is_nil,
}
use agy_identity_bridge.Text.{Text, text, ◌==◌, trim_space, to_lower}
use agy_identity_bridge.Value.{or_zero, Value, Map, string, boolean, object, entries}
use agy_identity_bridge.Headers.{first_non_empty}
use agy_identity_bridge.Spec.{ProviderSpec}
use agy_identity_bridge.Routes.{
  get_key, strip_model_prefix, normalize_thinking_model_name, is_image_lane_model,
}

-- The outcome of a call: the new body, or a run-time panic.
pub data Outcome : Type 0 where
  returned : Text → Outcome
  panicked : Outcome

-- `body[key] = value`
unfoldable pub set_key : Text → Value → Map → Map
set_key key value [] = (key, value) ∷ []
set_key key value ((k, v) ∷ raw) =
    let rest = set_key key value raw in if k == key then (k, value) ∷ raw else (k, v) ∷ rest

-- A `map[string]any`: `none` is the nil map, which reads as a map without entries. A write to it
-- panics, and `write_key` is `none` then.
abbrev pub GoMap : Type 0
GoMap = Option Map

unfoldable pub read_key : Text → GoMap → Option Value
read_key key body = get_key key (or_zero [] body)

unfoldable pub write_key : Text → Value → GoMap → Option Map
write_key key value none = none
write_key key value (some body) = some (set_key key value body)

abbrev pub is_text : Option Value → Bool
is_text (some (string s)) = not (is_nil (trim_space s))
is_text _ = false

-- Whether `fmt.Sprint` of the value is not blank: only a blank string prints blank.
abbrev pub prints : Option Value → Bool
prints none = false
prints (some (string s)) = not (is_nil (trim_space s))
prints (some _) = true

abbrev pub nested_object : Option Value → Map
nested_object (some (object fields)) = entries fields
nested_object _ = []

unfoldable pub payload_has_reasoning_effort : Map → Bool
payload_has_reasoning_effort body =
    prints (get_key (text "reasoning_effort") body)
    || prints (get_key (text "effort") body)
    || is_text (get_key (text "thinking") body)
    || prints (get_key (text "effort") (nested_object (get_key (text "reasoning") body)))

abbrev pub effort_text : Option Value → Text
effort_text (some (string s)) = to_lower (trim_space s)
effort_text _ = []

unfoldable pub reasoning_effort_from_metadata : Option Map → Text
reasoning_effort_from_metadata none = []
reasoning_effort_from_metadata (some metadata) = first_non_empty (
    map (λ key. effort_text (get_key key metadata))
      (text "reasoning_effort" ∷ text "reasoning.effort" ∷ text "effort" ∷ text "thinking" ∷ []))

abbrev pub model_text : Option Value → Option Text
model_text (some (string s)) = some s
model_text _ = none

abbrev pub is_true : Option Value → Bool
is_true (some (boolean b)) = b
is_true _ = false

-- A body decoded into a variable of map type: an error, or what the variable then holds. JSON's
-- `null` leaves it the nil map.
pub data Body : Type 0 where
  not_json : Body
  into_map : GoMap → Body

module _ (unmarshal : Text → Body) (marshal : Map → Option Text) where
  abbrev pub marshal_or : Text → Map → Outcome
  marshal_or payload body = returned (or_zero payload (marshal body))

  -- Marshalling after a write to the body.
  abbrev pub written : Text → Option Map → Outcome
  written payload none = panicked
  written payload (some body) = marshal_or payload body

  -- After decoding.
  unfoldable pub force_streaming_body : Text → Body → Outcome
  unfolding read_key write_key
  force_streaming_body payload not_json = returned payload
  force_streaming_body payload (into_map body) =
      if is_true (read_key (text "stream") body)
      then returned payload
      else written payload (write_key (text "stream") (boolean true) body)

  unfoldable pub force_streaming_payload : Text → Outcome
  unfolding force_streaming_body
  force_streaming_payload payload =
      if is_nil payload then returned payload else force_streaming_body payload (unmarshal payload)

  -- The body's own model, without prefix and level.
  abbrev rewritten_model : Text → Text → Text × Text
  rewritten_model prefix model = normalize_thinking_model_name (strip_model_prefix model prefix)

  -- The body with its model rewritten, or `none` where the write panics, whether it changed, and
  -- the effort that is left to set.
  pub record Rewritten : Type 0 where
    pub body : Option GoMap
    pub changed : Bool
    pub effort : Text

  abbrev assigned : Option Map → Option GoMap
  assigned none = none
  assigned (some body) = some (some body)

  unfoldable pub rewrite_model : Text → Text → GoMap → Option Text → Rewritten
  unfolding write_key
  rewrite_model prefix fallback body none = record {
    body = some body;
    changed = false;
    effort = fallback;
  }
  rewrite_model prefix fallback body (some model) =
      let (rewritten, suffix) = rewritten_model prefix model in
      record {
        body =
            if rewritten == model
            then some body
            else assigned (write_key (text "model") (string rewritten) body);
        changed = not (rewritten == model);
        effort = if is_nil (trim_space fallback) then suffix else fallback;
      }

  abbrev pub finish_rewrite : Text → Bool → Text → Option GoMap → Outcome
  finish_rewrite payload changed effort none = panicked
  finish_rewrite payload changed effort (some body) =
      if not (is_nil (trim_space effort)) && not (payload_has_reasoning_effort (or_zero [] body))
      then written payload
          (write_key (text "reasoning_effort") (string (to_lower (trim_space effort))) body)
      else if changed
      then marshal_or payload (or_zero [] body)
      else returned payload

  -- After decoding.
  unfoldable pub rewrite_body : Text → Text → Text → Body → Outcome
  unfolding rewrite_model payload_has_reasoning_effort read_key write_key
  rewrite_body payload prefix fallback not_json = returned payload
  rewrite_body payload prefix fallback (into_map body) =
      let r = rewrite_model prefix fallback body (model_text (read_key (text "model") body)) in
      finish_rewrite payload r.changed r.effort r.body

  unfoldable pub rewrite_payload_model_with_effort : Text → Text → Text → Outcome
  unfolding rewrite_body
  rewrite_payload_model_with_effort payload prefix fallback =
      if is_nil payload
      then returned payload
      else rewrite_body payload prefix fallback (unmarshal payload)

  unfoldable pub strip_payload_model_prefix : Text → Text → Outcome
  strip_payload_model_prefix payload prefix =
      if is_nil payload || is_nil (trim_space prefix)
      then returned payload
      else elim (unmarshal payload) [
        | not_json ↦ returned payload
        | into_map body ↦ elim (model_text (read_key (text "model") body)) [
          | none ↦ returned payload
          | some model ↦
              if strip_model_prefix model prefix == model
              then returned payload
              else written payload
                  (write_key (text "model") (string (strip_model_prefix model prefix)) body)
        ]
      ]

  -- The model and the body of an executor request, for the prefix of the settings.
  unfoldable pub normalize_executor_model :
      Text → ProviderSpec → Text → Text → Option Map → Text × Outcome
  unfolding rewrite_payload_model_with_effort strip_payload_model_prefix
      reasoning_effort_from_metadata
  normalize_executor_model prefix spec model payload metadata =
      let stripped = strip_model_prefix model prefix in
      let (named, suffix) = normalize_thinking_model_name stripped in
      if is_image_lane_model stripped spec
      then (stripped, strip_payload_model_prefix payload prefix)
      else (
        named,
        rewrite_payload_model_with_effort payload prefix
            (first_non_empty (suffix ∷ reasoning_effort_from_metadata metadata ∷ [])),
      )
