-- ===== src/Examples/Streams.antt =====
-- Witnesses about event streams.
use agy_identity_bridge.Text.{◌==◌}
use agy_identity_bridge.Base.{
  ◌≡◌, refl, ◌≢◌, Bool, true, false, some, List, [], ◌∷◌, ◌++◌, arith, take, All,
}
use agy_identity_bridge.Text.{Text, text, trim_space}
use agy_identity_bridge.Text.Splitting.{IsFree}
use agy_identity_bridge.Sse.{feed, feed_all, events_of, sse_event_payload}
use agy_identity_bridge.Sse.Chunks.{concat, IsUnsplit, feed_all-concat}
use agy_identity_bridge.Sse.Crlf.{crlf_end, cut_chunks, feed_all-cut_chunks}
use agy_identity_bridge.Sse.Frames.{IsPayload, frames, feed_all-frames}
use agy_identity_bridge.Stream.{Answer, call_failed, read, Bridge, idle, drain_body, pump}
use agy_identity_bridge.Stream.{executor_stream_batched, ok_envelope}
use agy_identity_bridge.Stream.Batch.{executor_stream_batched-pump}
use agy_identity_bridge.Stream.Body.{whole_body, drain_body-take}
use agy_identity_bridge.Stream.Once.{IsOpen, IsSettled, pump-IsSettled}
use agy_identity_bridge.Stream.Delivery.{script, buffered, pump-frames}

-- Two events in three chunks, the cut being inside the first blank line.
abbrev chunks : List Text
chunks = (text "data: {a}" ++ 10 ∷ []) ∷ (10 ∷ text "data: {b}") ∷ (10 ∷ 10 ∷ []) ∷ []

abbrev payloads : List Text
payloads = text "{a}" ∷ text "{b}" ∷ []

payloads-IsPayload : All IsPayload payloads
unfolding text trim_space ◌==◌
payloads-IsPayload = (
  ((λ e. cc), refl, (refl, (refl, (refl, tt))), (refl, (refl, (refl, tt))), refl),
  (((λ e. cc), refl, (refl, (refl, (refl, tt))), (refl, (refl, (refl, tt))), refl), tt),
)

chunks-frames : concat chunks ≡ frames payloads
unfolding text
chunks-frames = refl

chunks-IsUnsplit : IsUnsplit chunks
unfolding text
chunks-IsUnsplit = (refl, (refl, (refl, tt)))

chunks-ne-nil : All (λ chunk. chunk ≢ []) chunks
unfolding text
chunks-ne-nil = ((λ e. cc), ((λ e. cc), ((λ e. cc), tt)))

feed_all-concat_example : feed_all [] chunks ≡ feed [] (concat chunks)
feed_all-concat_example = feed_all-concat chunks chunks-IsUnsplit

feed_all-frames_example : feed_all [] chunks ≡ ([], payloads)
feed_all-frames_example =
    feed_all-frames payloads chunks payloads-IsPayload chunks-frames chunks-IsUnsplit

abbrev bare_event : Text
bare_event = text "data: {a}"

bare_event-IsFree : IsFree 10 bare_event × IsFree 13 bare_event
unfolding text
bare_event-IsFree = ground arith

feed_all-cut_chunks_example :
    (feed [] (bare_event ++ crlf_end) ≡ ([], events_of (sse_event_payload bare_event) ++ []))
    × (feed_all [] (cut_chunks bare_event) ≡ (bare_event ++ crlf_end, []))
feed_all-cut_chunks_example = feed_all-cut_chunks bare_event bare_event-IsFree.0 bare_event-IsFree.1

abbrev plain : Text → Text
plain s = s

abbrev takes_all : List Text → Text → Bool
takes_all before event = true

pump-frames_example :
    pump takes_all plain [] [] idle (script plain true chunks)
    ≡ some (record {
      emitted = payloads;
      closings = [] ∷ [];
      once = true;
      usage = buffered [] chunks ∷ [];
      upstream_closings = 1;
    })
pump-frames_example =
    pump-frames takes_all (λ before event. refl) plain plain (λ s. refl) true payloads chunks
      payloads-IsPayload chunks-frames chunks-IsUnsplit chunks-ne-nil

executor_stream_batched-pump_example :
    (r : Bridge) × (pump takes_all plain [] [] idle (script plain true chunks) ≡ some r)
    × (executor_stream_batched plain [] (script plain true chunks)
        ≡ some (ok_envelope (buffered [] chunks)))
    × (r.usage ≡ buffered [] chunks ∷ [])
executor_stream_batched-pump_example =
    executor_stream_batched-pump plain plain (λ s. refl) takes_all (λ before event. refl) true
      chunks chunks-ne-nil

-- A chunk, then a failed call.
abbrev broken : List Answer
broken =
    read (record { payload = text "data: {a}"; error = []; done = false })
    ∷ call_failed (text "reset")
    ∷ []

idle-IsOpen : IsOpen idle
idle-IsOpen = (refl, refl, refl, refl)

pump-IsSettled_example :
    (r : Bridge) × (pump takes_all plain [] [] idle broken ≡ some r) × IsSettled r
pump-IsSettled_example = pump-IsSettled takes_all plain [] [] idle broken idle-IsOpen refl

broken-body : whole_body plain broken ≡ some (text "data: {a}" ++ [])
unfolding text
broken-body = refl

drain_body-take_example :
    drain_body plain 4 [] broken ≡ some (take 4 ([] ++ (text "data: {a}" ++ [])))
drain_body-take_example =
    drain_body-take plain 4 [] broken (text "data: {a}" ++ []) (omega arith) broken-body
