-- ===== src/Stream/Delivery.antt =====
-- What a bridge that takes every event gets from a stream that ends well.
use agy_identity_bridge.Base.{
  ◌≡◌, refl, sym, ap, ◌∙◌, ◌≢◌, Bool, true, false, some, List, [], ◌∷◌, ◌++◌, append-nil,
  append_assoc, if◌then◌else◌, is_nil-false, All,
}
use agy_identity_bridge.Text.{Text, trim_space, split}
use agy_identity_bridge.Sse.{feed, feed_all, flush, drain, drain_loop, sse_event_payload}
use agy_identity_bridge.Sse.Chunks.{concat, IsUnsplit}
use agy_identity_bridge.Sse.Frames.{IsPayload, frames, feed_all-frames}
use agy_identity_bridge.Stream.{
  Answer, read, Bridge, idle, leave, return_deferred, close_bridge, emit_upstream_events, emit_then,
  emit_failed, with_line_end, pump_end, pump,
}

module _ (b64 : Text → Text) where
  abbrev pub chunk_read : Text → Bool → Answer
  chunk_read chunk done = read (record { payload = b64 chunk; error = []; done = done })

  -- The answers of the host for a stream of chunks that ends without an error. Where `marked` says
  -- so, the read of the last chunk ends the stream, and otherwise an empty read after it.
  abbrev pub script : Bool → List Text → List Answer
  script marked [] = chunk_read [] true ∷ []
  script true (chunk ∷ []) = chunk_read chunk true ∷ []
  script false (chunk ∷ []) = chunk_read chunk false ∷ chunk_read [] true ∷ []
  script marked (chunk ∷ next ∷ chunks) = chunk_read chunk false ∷ script marked (next ∷ chunks)

-- The buffer handed to the usage recorder: a line feed after each chunk.
abbrev pub buffered : Text → List Text → Text
buffered buffer [] = buffer
buffered buffer (chunk ∷ chunks) = buffered (with_line_end buffer chunk) chunks

flush-nil : flush [] ≡ ([], [])
unfolding flush drain drain_loop sse_event_payload split trim_space
flush-nil = refl

module _ (accepts : List Text → Text → Bool)
    (all_accepted : (before : List Text) (event : Text) → accepts before event ≡ true)
    (b64 unb64 : Text → Text) (decodes : (s : Text) → unb64 (b64 s) ≡ s) where
  emit_all :
      (before events : List Text) → emit_upstream_events accepts before events ≡ (events, true)
  unfolding emit_upstream_events
  emit_all before [] = refl
  emit_all before (event ∷ events) =
      rw (all_accepted before event, emit_all (before ++ event ∷ []) events) refl

  abbrev with_events : List Text → Bridge → Bridge
  with_events events b = record b { emitted = b.emitted ++ events }

  pump_end-all :
      (pending buffer : Text) (b : Bridge)
      → pump_end accepts pending buffer b ≡ leave [] buffer (with_events (flush pending).1 b)
  unfolding pump_end
  pump_end-all pending buffer b = rw (emit_all b.emitted (flush pending).1) refl

  emit_then-all {ℓ} :
      {A : Type ℓ} (b : Bridge) (events : List Text) (go_on rejected : Bridge → A)
      → emit_then accepts b events go_on rejected ≡ go_on (with_events events b)
  emit_then-all b events go_on rejected =
      ap
        (λ (accepted, ok).
          let next = with_events accepted b in if ok then go_on next else rejected next)
        (emit_all b.emitted events)

  pump-chunk :
      (pending buffer : Text) (b : Bridge) (chunk : Text) (answers : List Answer)
      → chunk ≢ []
      → pump accepts unb64 pending buffer b
          (read (record { payload = b64 chunk; error = []; done = false }) ∷ answers)
        ≡ emit_then accepts b
            (feed pending chunk).1
            (λ b'.
              pump accepts unb64 (feed pending chunk).0 (with_line_end buffer chunk) b' answers)
            (λ b'. some (leave emit_failed (with_line_end buffer chunk) b'))
  unfolding pump
  pump-chunk pending buffer b chunk answers n = rw (decodes chunk, is_nil-false chunk n) refl

  pump-last :
      (pending buffer : Text) (b : Bridge)
      → pump accepts unb64 pending buffer b (chunk_read b64 [] true ∷ [])
        ≡ some (pump_end accepts pending buffer b)
  unfolding pump
  pump-last pending buffer b = rw (decodes []) refl

  pub delivered : Text → List Text → List Text
  delivered pending chunks = (feed_all pending chunks).1 ++ (flush (feed_all pending chunks).0).1

  delivered-cons :
      (pending chunk : Text) (chunks : List Text)
      → delivered pending (chunk ∷ chunks)
        ≡ (feed pending chunk).1 ++ delivered (feed pending chunk).0 chunks
  unfolding delivered
  delivered-cons pending chunk chunks =
      unfold feed_all in
      append_assoc (feed pending chunk).1 (feed_all (feed pending chunk).0 chunks).1 _

  -- The bridge after the chunks that are left.
  abbrev left_with : Text → Text → Bridge → List Text → Bridge
  left_with pending buffer b chunks =
      leave [] (buffered buffer chunks) (with_events (delivered pending chunks) b)

  left_with-cons :
      (pending buffer : Text) (b : Bridge) (chunk : Text) (chunks : List Text)
      → left_with
          (feed pending chunk).0
          (with_line_end buffer chunk)
          (with_events (feed pending chunk).1 b)
          chunks
        ≡ left_with pending buffer b (chunk ∷ chunks)
  left_with-cons pending buffer b chunk chunks =
      let (left, events) = feed pending chunk in
      ap (λ es. leave [] (buffered (with_line_end buffer chunk) chunks) (record b { emitted = es }))
        (append_assoc b.emitted events (delivered left chunks)
          ∙ ap (λ es. b.emitted ++ es) (sym (delivered-cons pending chunk chunks)))

  pump-empty :
      (pending buffer : Text) (b : Bridge)
      → pump accepts unb64 pending buffer b (chunk_read b64 [] true ∷ [])
        ≡ some (left_with pending buffer b [])
  pump-empty pending buffer b =
      pump-last pending buffer b
      ∙ ap some (pump_end-all pending buffer b)
      ∙ (unfold delivered feed_all in refl)

  -- A read that brings a chunk and ends the stream.
  pump-marked :
      (pending buffer : Text) (b : Bridge) (chunk : Text)
      → chunk ≢ []
      → pump accepts unb64 pending buffer b (chunk_read b64 chunk true ∷ [])
        ≡ emit_then accepts b
            (feed pending chunk).1
            (λ b'. some (pump_end accepts (feed pending chunk).0 (with_line_end buffer chunk) b'))
            (λ b'. some (leave emit_failed (with_line_end buffer chunk) b'))
  unfolding pump
  pump-marked pending buffer b chunk n = rw (decodes chunk, is_nil-false chunk n) refl

  flushed : (pending : Text) → (flush pending).1 ≡ delivered pending []
  unfolding delivered feed_all
  flushed pending = refl

  pump-marked_last :
      (pending buffer : Text) (b : Bridge) (chunk : Text)
      → chunk ≢ []
      → pump accepts unb64 pending buffer b (chunk_read b64 chunk true ∷ [])
        ≡ some (left_with pending buffer b (chunk ∷ []))
  pump-marked_last pending buffer b chunk n =
      let (left, events) = feed pending chunk in
      pump-marked pending buffer b chunk n
      ∙ emit_then-all b events (λ x. some (pump_end accepts left (with_line_end buffer chunk) x))
          (λ x. some (leave emit_failed (with_line_end buffer chunk) x))
      ∙ ap some (pump_end-all left (with_line_end buffer chunk) (with_events events b))
      ∙ ap
          (λ es.
            some (leave [] (with_line_end buffer chunk) (with_events es (with_events events b))))
          (flushed left)
      ∙ ap some (left_with-cons pending buffer b chunk [])

  -- One chunk more in front of answers whose outcome is known.
  pump-cons :
      (pending buffer : Text) (b : Bridge) (chunk : Text) (chunks : List Text)
      (answers : List Answer)
      → chunk ≢ []
      → pump accepts unb64
          (feed pending chunk).0
          (with_line_end buffer chunk)
          (with_events (feed pending chunk).1 b)
          answers
        ≡ some (
            left_with
              (feed pending chunk).0
              (with_line_end buffer chunk)
              (with_events (feed pending chunk).1 b)
              chunks)
      → pump accepts unb64 pending buffer b (chunk_read b64 chunk false ∷ answers)
        ≡ some (left_with pending buffer b (chunk ∷ chunks))
  pump-cons pending buffer b chunk chunks answers n rest =
      let (left, events) = feed pending chunk in
      pump-chunk pending buffer b chunk answers n
      ∙ emit_then-all b events (λ x. pump accepts unb64 left (with_line_end buffer chunk) x answers)
          (λ x. some (leave emit_failed (with_line_end buffer chunk) x))
      ∙ rest
      ∙ ap some (left_with-cons pending buffer b chunk chunks)

  pub pump-script :
      (marked : Bool) (chunks : List Text) (pending buffer : Text) (b : Bridge)
      → All (λ chunk. chunk ≢ []) chunks
      → pump accepts unb64 pending buffer b (script b64 marked chunks)
        ≡ some (leave [] (buffered buffer chunks) (with_events (delivered pending chunks) b))
  pump-script marked [] pending buffer b h = pump-empty pending buffer b
  pump-script true (chunk ∷ []) pending buffer b (n, h) = pump-marked_last pending buffer b chunk n
  pump-script false (chunk ∷ []) pending buffer b (n, h) =
      let (left, events) = feed pending chunk in
      pump-cons pending buffer b chunk [] _ n
        (pump-empty left (with_line_end buffer chunk) (with_events events b))
  pump-script marked (chunk ∷ next ∷ chunks) pending buffer b (n, h) =
      let (left, events) = feed pending chunk in
      pump-cons pending buffer b chunk (next ∷ chunks) _ n (
        pump-script marked (next ∷ chunks) left (with_line_end buffer chunk) (with_events events b)
          h)

  delivered_of :
      (chunks ps : List Text) → feed_all [] chunks ≡ ([], ps) → delivered [] chunks ≡ ps ++ []
  unfolding delivered
  delivered_of chunks ps d =
      ap (λ (left, events). events ++ (flush left).1) d ∙ ap (λ (_, events). ps ++ events) flush-nil

  abbrev settled : List Text → Text → Bridge
  settled events buffer = record {
    emitted = events;
    closings = [] ∷ [];
    once = true;
    usage = buffer ∷ [];
    upstream_closings = 1;
  }

  -- The payloads of the events are one line each, without CR or LF, not empty, without space at
  -- their ends, and none is the mark DONE in brackets, which ends a stream. The stream of their
  -- frames, `data: ` and the payload with a blank line after it, cut into non-empty chunks in any
  -- way that cuts no CR LF pair, reaches a bridge that takes every event as the payloads in order,
  -- whether the read of the last chunk ends the stream or an empty read after it does. The bridge
  -- is closed once, without an error, and the recorded buffer holds every chunk. Decoding undoes
  -- base64.
  pub pump-frames :
      (marked : Bool) (ps chunks : List Text)
      → All IsPayload ps
      → concat chunks ≡ frames ps
      → IsUnsplit chunks
      → All (λ chunk. chunk ≢ []) chunks
      → pump accepts unb64 [] [] idle (script b64 marked chunks)
        ≡ some (record {
          emitted = ps;
          closings = [] ∷ [];
          once = true;
          usage = buffered [] chunks ∷ [];
          upstream_closings = 1;
        })
  unfolding leave return_deferred close_bridge
  pump-frames marked ps chunks h e k n =
      let d = feed_all-frames ps chunks h e k in
      let now : delivered [] chunks ≡ ps = delivered_of chunks ps d ∙ append-nil ps in
      pump-script marked chunks [] [] idle n ∙ ap (λ es. some (settled es (buffered [] chunks))) now
