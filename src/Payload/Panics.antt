-- ===== src/Payload/Panics.antt =====
-- When forcing a body to stream panics.
use agy_identity_bridge.Base.{
  ℕ, ◌≡◌, refl, ap, ◌↔◌, Bool, true, false, ◌||◌, Option, none, some, [], ◌∷◌, arith, eqb, if_cases,
}
use agy_identity_bridge.Text.{Text, text, trim}
use agy_identity_bridge.Text.{trim}
use agy_identity_bridge.Value.{Map}
use agy_identity_bridge.Payload.{
  Outcome, returned, panicked, read_key, write_key, Body, not_json, into_map, written,
  force_streaming_body, force_streaming_payload, is_true,
}
use agy_identity_bridge.Value.{boolean}

did_panic : Outcome → Bool
did_panic (returned t) = false
did_panic panicked = true

returned-panicked : {t : Text} → returned t ≡ panicked → ⊥
unfolding did_panic
returned-panicked e = (let f = ap did_panic e in ground (arith, f))

-- Whether a body is the nil map.
holds_nil : Body → Bool
holds_nil (into_map none) = true
holds_nil _ = false

not_nil : {b : Body} → holds_nil b ≡ false → b ≡ into_map none → ⊥
unfolding holds_nil
not_nil h e = (let f = ap holds_nil e in ground (arith, f, h))

-- The space of RFC 8259.
unfoldable pub is_json_space : ℕ → Bool
is_json_space c = eqb c 9 || eqb c 10 || eqb c 13 || eqb c 32

module _ (unmarshal : Text → Body) (marshal : Map → Option Text) where
  force_streaming_body_iff :
      (payload : Text) (b : Body)
      → (force_streaming_body unmarshal marshal payload b ≡ panicked) ↔ (b ≡ into_map none)
  unfolding force_streaming_body read_key write_key holds_nil
  force_streaming_body_iff payload not_json =
      ((λ e. absurd (returned-panicked e)), λ e. absurd (not_nil refl e))
  force_streaming_body_iff payload (into_map none) = ((λ _. refl), λ _. refl)
  force_streaming_body_iff payload (into_map (some body)) = (
    (λ e.
        if_cases (λ o. o ≡ panicked → into_map (some body) ≡ into_map none)
          (is_true (read_key (text "stream") (some body))) (returned payload)
          (written unmarshal marshal payload (write_key (text "stream") (boolean true) (some body)))
          (λ _ e. absurd (returned-panicked e)) (λ _ e. absurd (returned-panicked e)) e),
    λ e. absurd (not_nil refl e),
  )

  -- Suppose that decoding into a map gives the nil map exactly for the JSON value `null`, with any
  -- JSON space around it. Then forcing a request to stream panics exactly when its body is that
  -- value: an empty body, a body that is no JSON object, and every object come through.
  pub force_streaming_payload_iff :
      ((p : Text) → (unmarshal p ≡ into_map none) ↔ (trim is_json_space p ≡ text "null"))
      → (payload : Text)
      → (force_streaming_payload unmarshal marshal payload ≡ panicked)
        ↔ (trim is_json_space payload ≡ text "null")
  unfolding force_streaming_payload trim text
  force_streaming_payload_iff null_lem [] = ((λ e. absurd (returned-panicked e)), λ e. cc)
  force_streaming_payload_iff null_lem (c ∷ payload) =
      let both = force_streaming_body_iff (c ∷ payload) (unmarshal (c ∷ payload)) in
      let null = null_lem (c ∷ payload) in ((λ e. null.0 (both.0 e)), λ e. both.1 (null.1 e))
