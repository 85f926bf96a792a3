-- ===== src/Stream/Once.antt =====
-- Every run of the stream pump settles the bridge once.
use agy_identity_bridge.Base.{
  ◌≡◌, refl, Bool, true, false, not, ◌||◌, Option, some, List, [], ◌∷◌, arith, if◌then◌else◌,
  if_cases, length, is_nil, any,
}
use agy_identity_bridge.Text.{Text}
use agy_identity_bridge.Stream.{
  Answer, call_failed, undecodable, read, Bridge, close_bridge, return_deferred, leave, emit_then,
  emit_failed, with_line_end, pump_end, pump,
}
use agy_identity_bridge.Sse.{feed, flush}

-- An answer after which the stream has ended: a failure, an error or the mark of the end.
abbrev pub ends_stream : Answer → Bool
ends_stream (call_failed e) = true
ends_stream (undecodable e) = true
ends_stream (read r) = not (is_nil r.error) || r.done

-- Nothing is recorded or closed yet.
abbrev pub IsOpen : Bridge → Type 0
IsOpen b = (b.closings ≡ []) × (b.once ≡ false) × (b.usage ≡ []) × (b.upstream_closings ≡ 0)

-- The bridge and the upstream stream are closed once, and usage is recorded once.
abbrev pub IsSettled : Bridge → Type 0
IsSettled b = (length b.closings ≡ 1) × (length b.usage ≡ 1) × (b.upstream_closings ≡ 1)

leave-IsSettled :
    (message buffer : Text) (b : Bridge) → IsOpen b → IsSettled (leave message buffer b)
unfolding leave return_deferred close_bridge
leave-IsSettled message buffer b (c, o, u, n) = rw (o, c, u, n) (refl, refl, refl)

later_ends : (a b c : Bool) → ((a || b) || c) ≡ true → a ≡ false → b ≡ false → c ≡ true
later_ends a b c h k l = ground arith

module _ (accepts : List Text → Text → Bool) (unb64 : Text → Text) where
  emit_then-cases {ℓ κ} :
      {A : Type ℓ} (P : A → Type κ) (b : Bridge) (events : List Text) (go_on rejected : Bridge → A)
      → ((e : List Text) → P (go_on (record b { emitted = e })))
      → ((e : List Text) → P (rejected (record b { emitted = e })))
      → P (emit_then accepts b events go_on rejected)
  emit_then-cases P b events go_on rejected h k = if_cases P _ _ _ (λ _. h _) (λ _. k _)

  abbrev Settles : Option Bridge → Type 0
  Settles o = (r : Bridge) × (o ≡ some r) × IsSettled r

  leave-Settles :
      (message buffer : Text) (b : Bridge) → IsOpen b → Settles (some (leave message buffer b))
  leave-Settles message buffer b o =
      (leave message buffer b, refl, leave-IsSettled message buffer b o)

  pump_end-Settles :
      (pending buffer : Text) (b : Bridge)
      → IsOpen b
      → Settles (some (pump_end accepts pending buffer b))
  unfolding pump_end
  pump_end-Settles pending buffer b o =
      emit_then-cases (λ r. Settles (some r)) b (flush pending).1 (leave [] buffer)
        (leave emit_failed buffer) (λ e. leave-Settles [] buffer (record b { emitted = e }) o)
        (λ e. leave-Settles emit_failed buffer (record b { emitted = e }) o)

  -- When the stream ends, the pump of a bridge that is still open returns, whatever was read,
  -- failed or was refused, and it has closed the bridge exactly once, closed the upstream stream
  -- exactly once and recorded usage exactly once.
  pub pump-IsSettled :
      (pending buffer : Text) (b : Bridge) (answers : List Answer)
      → IsOpen b
      → any ends_stream answers ≡ true
      → (r : Bridge) × (pump accepts unb64 pending buffer b answers ≡ some r) × IsSettled r
  unfolding pump
  pump-IsSettled pending buffer b [] o h = cc
  pump-IsSettled pending buffer b (call_failed e ∷ answers) o h =
      (leave e buffer b, refl, leave-IsSettled e buffer b o)
  pump-IsSettled pending buffer b (undecodable e ∷ answers) o h =
      (leave e buffer b, refl, leave-IsSettled e buffer b o)
  pump-IsSettled pending buffer b (read r ∷ answers) o h =
      let left = (feed pending (unb64 r.payload)).0 in
      let next = with_line_end buffer (unb64 r.payload) in
      if_cases Settles (not (is_nil r.error)) _ _ (λ _. leave-Settles r.error buffer b o)
        (λ ok.
          if_cases Settles (is_nil (unb64 r.payload)) _ _
            (λ _.
              if_cases Settles r.done _ _ (λ _. pump_end-Settles pending buffer b o)
                (λ more. pump-IsSettled pending buffer b answers o (later_ends _ _ _ h ok more)))
            (λ _.
              emit_then-cases Settles b (feed pending (unb64 r.payload)).1
                (λ b'.
                  let loop = pump accepts unb64 left next b' answers in
                  if r.done then some (pump_end accepts left next b') else loop)
                (λ b'. some (leave emit_failed next b'))
                (λ e.
                  if_cases Settles r.done
                    (some (pump_end accepts left next (record b { emitted = e })))
                    (pump accepts unb64 left next (record b { emitted = e }) answers)
                    (λ _. pump_end-Settles left next (record b { emitted = e }) o)
                    (λ more.
                      pump-IsSettled left next (record b { emitted = e }) answers o
                        (later_ends _ _ _ h ok more)))
                (λ e. leave-Settles emit_failed next (record b { emitted = e }) o)))
