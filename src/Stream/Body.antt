-- ===== src/Stream/Body.antt =====
-- What draining an error body returns, and when.
use agy_identity_bridge.Base.{take-append_of_lt}
use agy_identity_bridge.Base.{take-append_of_le}
use agy_identity_bridge.Base.{take_of_le}
use agy_identity_bridge.Base.{
  ℕ, ◌-◌, ◌≤◌, ◌≡◌, refl, sym, ap, ◌∙◌, ◌⊎◌, inl, inr, Bool, true, false, not, ◌&&◌, Option, none,
  some, List, [], ◌∷◌, ◌++◌, append-nil, append_assoc, arith, ltb, leb, if◌then◌else◌, Bool-cases,
  Option-cases, if_cases, length, is_nil, take, length-append,
}
use agy_identity_bridge.Text.{Text}
use agy_identity_bridge.Stream.{StreamRead, Answer, call_failed, undecodable, read, drain_body}

module _ (unb64 : Text → Text) where
  abbrev before_some : Text → Option Text → Option Text
  before_some payload none = none
  before_some payload (some rest) = some (payload ++ rest)

  -- The bytes up to the end of the stream or its first failure; `none` if it has not ended.
  abbrev pub whole_body : List Answer → Option Text
  whole_body [] = none
  whole_body (call_failed e ∷ answers) = some []
  whole_body (undecodable e ∷ answers) = some []
  whole_body (read r ∷ answers) =
      let later = whole_body answers in
      if not (is_nil r.error)
      then some []
      else if r.done
      then some (unb64 r.payload)
      else before_some (unb64 r.payload) later

  -- What one chunk that is no error adds to the whole body.
  Continues : Text → Text → List Answer → Bool → Type 0
  Continues payload bytes answers done =
      (rest : Text) × (bytes ≡ payload ++ rest)
      × ((done ≡ true) × (rest ≡ []) ⊎ (done ≡ false) × (whole_body answers ≡ some rest))

  some_text : {a b : Text} → some a ≡ some b → a ≡ b
  some_text {a} e = ap (λ o. elim o [ none ↦ a | some x ↦ x ]) e

  none_text : {a : Text} → none ≡ some a → ⊥
  none_text e = ground (arith, e)

  whole_body-Continues :
      (r : StreamRead) (answers : List Answer) (bytes : Text)
      → not (is_nil r.error) ≡ false
      → whole_body (read r ∷ answers) ≡ some bytes
      → Continues (unb64 r.payload) bytes answers r.done
  unfolding Continues
  whole_body-Continues r answers bytes ok e = elim (Bool-cases r.done) [
    | inl d ↦
        ([], sym (some_text (rw (ok, d) at e)) ∙ sym (append-nil (unb64 r.payload)), inl (d, refl))
    | inr d ↦ elim (Option-cases (whole_body answers)) [
      | inl none_yet ↦ absurd (none_text (rw (ok, d, none_yet) at e))
      | inr (rest, f) ↦ (rest, sym (some_text (rw (ok, d, f) at e)), inr (d, f))
    ]
  ]

  drained : ℕ → Text → Text → Bool → Option Text → Option Text
  drained limit out payload done later =
      if not (is_nil payload) && leb (limit - length out) 0
      then some out
      else if ltb (limit - length out) (length payload)
      then some (out ++ take (limit - length out) payload)
      else if done
      then some (out ++ payload)
      else later

  drained-take :
      (limit : ℕ) (out payload rest : Text) (done : Bool) (later : Option Text)
      → length out ≤ limit
      → ((done ≡ true) × (rest ≡ [])
          ⊎ (done ≡ false)
            × (length (out ++ payload) ≤ limit
                → later ≡ some (take limit ((out ++ payload) ++ rest))))
      → drained limit out payload done later ≡ some (take limit (out ++ (payload ++ rest)))
  unfolding drained
  drained-take limit out payload rest done later h k =
      let m = limit - length out in
      let split_out : take limit (out ++ (payload ++ rest)) ≡ out ++ take m (payload ++ rest) =
        take-append_of_le limit out (payload ++ rest) h in
      let Goal : Option Text → Type 0 = λ o. o ≡ some (take limit (out ++ (payload ++ rest))) in
      if_cases Goal (not (is_nil payload) && leb m 0) (some out) _
        (λ full.
          let no_room : m ≡ 0 = ground (arith, full) in
          ap some (
            sym (append-nil out)
            ∙ ap (λ n. out ++ take n (payload ++ rest)) (sym no_room)
            ∙ sym split_out))
        (λ room.
          if_cases Goal (ltb m (length payload)) (some (out ++ take m payload)) _
            (λ over.
              let lt : m ≤ length payload = ground (arith, over) in
              ap some
                (ap (λ t. out ++ t) (sym (take-append_of_lt m payload rest lt)) ∙ sym split_out))
            (λ fits.
              let le : length (out ++ payload) ≤ limit =
                ground (arith, length-append out payload, fits, h) in
              elim k [
                | inl (d, e) ↦
                    rw (d, e, append-nil payload)
                      (ap some (sym (take_of_le limit (out ++ payload) le)))
                | inr (d, f) ↦
                    rw d (f le ∙ ap (λ t. some (take limit t)) (append_assoc out payload rest))
              ]))

  stopped :
      (limit : ℕ) (out bytes : Text)
      → length out ≤ limit
      → some [] ≡ some bytes
      → some out ≡ some (take limit (out ++ bytes))
  stopped limit out bytes h e = ap some (
      sym (take_of_le limit out h)
      ∙ ap (take limit) (sym (append-nil out) ∙ ap (λ t. out ++ t) (some_text e)))

  -- With no more than `limit` bytes read before, draining a stream that ends or fails returns the
  -- first `limit` of those bytes and of what the stream holds before its end or failure.
  pub drain_body-take :
      (limit : ℕ) (out : Text) (answers : List Answer) (bytes : Text)
      → length out ≤ limit
      → whole_body answers ≡ some bytes
      → drain_body unb64 limit out answers ≡ some (take limit (out ++ bytes))
  unfolding drain_body drained Continues
  drain_body-take limit out [] bytes h e = cc
  drain_body-take limit out (call_failed m ∷ answers) bytes h e = ap some (
      sym (take_of_le limit out h)
      ∙ ap (take limit) (sym (append-nil out) ∙ ap (λ t. out ++ t) (some_text e)))
  drain_body-take limit out (undecodable m ∷ answers) bytes h e = ap some (
      sym (take_of_le limit out h)
      ∙ ap (take limit) (sym (append-nil out) ∙ ap (λ t. out ++ t) (some_text e)))
  drain_body-take limit out (read r ∷ answers) bytes h e =
      if_cases (λ o. o ≡ some (take limit (out ++ bytes))) (not (is_nil r.error)) (some out)
        (drained limit out (unb64 r.payload) r.done
          (drain_body unb64 limit (out ++ unb64 r.payload) answers))
        (λ bad. stopped limit out bytes h (rw bad at e))
        (λ ok.
          let (rest, f, k) = whole_body-Continues r answers bytes ok e in
          rw f (
            drained-take limit out (unb64 r.payload) rest r.done _ h (elim k [
              | inl over ↦ inl over
              | inr (d, g) ↦
                  inr (d, λ le. drain_body-take limit (out ++ unb64 r.payload) answers rest le g)
            ])))
