-- ===== src/Stream.antt =====
-- src/executor.go: the upstream stream, drained, batched or pumped to the host bridge.
-- The answers of the host to the successive calls that read the stream are a list; a loop that
-- asks for more answers than there are is still waiting, and its result is `none`.
pub mod Body
pub mod Batch
pub mod Once
pub mod Delivery
use agy_identity_bridge.Base.{
  ℕ, suc, ◌-◌, Bool, true, false, not, ◌&&◌, ◌||◌, Option, none, some, List, [], ◌∷◌, ◌++◌, ltb,
  leb, if◌then◌else◌, length, is_nil, take,
}
use agy_identity_bridge.Text.{Text, text, trim_space}
use agy_identity_bridge.Int64.{Int64, is_positive, lt64}
use agy_identity_bridge.Sse.{feed, flush}

-- `hostHTTPStreamRead`
pub record StreamRead : Type 0 where
  pub payload : Text
  pub error : Text
  pub done : Bool

-- A failed host call, an answer that is no JSON, or a chunk.
pub data Answer : Type 0 where
  call_failed undecodable : Text → Answer
  read : StreamRead → Answer

unfoldable pub is_non_success_stream_start : Int64 → Bool
unfolding is_positive
is_non_success_stream_start status = is_positive status && (lt64 status 200 || lt64 299 status)

abbrev pub max_upstream_error_body_bytes : ℕ
max_upstream_error_body_bytes = 8192

unfoldable pub truncate_upstream_error_body : Text → ℕ → Text
truncate_upstream_error_body body limit =
    if leb limit 0 || leb (length body) limit
    then trim_space body
    else trim_space (take limit body) ++ text "... (truncated)"

-- The state behind `closeBridge` and the host calls of the pump: the events accepted by the
-- bridge, the messages it was closed with, whether `closeOnce` has fired, the buffers handed to
-- the usage recorder, and how often the upstream stream was closed.
pub record Bridge : Type 0 where
  pub emitted : List Text
  pub closings : List Text
  pub once : Bool
  pub usage : List Text
  pub upstream_closings : ℕ

abbrev pub idle : Bridge
idle = record { emitted = []; closings = []; once = false; usage = []; upstream_closings = 0 }

unfoldable pub close_bridge : Text → Bridge → Bridge
close_bridge message b =
    if b.once then b else record b { closings = b.closings ++ message ∷ []; once = true }

abbrev pub record_usage : Text → Bridge → Bridge
record_usage buffer b = record b { usage = b.usage ++ buffer ∷ [] }

-- The deferred calls, the last one deferred first.
unfoldable pub return_deferred : Bridge → Bridge
unfolding close_bridge
return_deferred b = close_bridge [] (record b { upstream_closings = suc b.upstream_closings })

-- The path out of the pump after its usage is recorded.
unfoldable pub leave : Text → Text → Bridge → Bridge
unfolding close_bridge return_deferred
leave message buffer b = return_deferred (close_bridge message (record_usage buffer b))

-- What a caller gets from `executorStreamBatched`.
pub data Batched : Type 0 where
  error_envelope : Text → Text → Batched
  ok_envelope : Text → Batched

abbrev pub with_line_end : Text → Text → Text
with_line_end buffer payload = if is_nil payload then buffer else buffer ++ (payload ++ 10 ∷ [])

module _ (unb64 : Text → Text) where
  -- `drainHostHTTPStreamBodyWithReader`, from the bytes read so far.
  unfoldable pub drain_body : ℕ → Text → List Answer → Option Text
  drain_body limit out [] = none
  drain_body limit out (call_failed _ ∷ answers) = some out
  drain_body limit out (undecodable _ ∷ answers) = some out
  drain_body limit out (read r ∷ answers) =
      let payload = unb64 r.payload in
      let remaining = limit - length out in
      let later = drain_body limit (out ++ payload) answers in
      if not (is_nil r.error)
      then some out
      else if not (is_nil payload) && leb remaining 0
      then some out
      else if ltb remaining (length payload)
      then some (out ++ take remaining payload)
      else if r.done
      then some (out ++ payload)
      else later

  unfoldable pub executor_stream_batched : Text → List Answer → Option Batched
  executor_stream_batched buffer [] = none
  executor_stream_batched buffer (call_failed e ∷ answers) =
      some (error_envelope (text "upstream_stream_failed") e)
  executor_stream_batched buffer (undecodable e ∷ answers) =
      some (error_envelope (text "upstream_stream_decode_failed") e)
  executor_stream_batched buffer (read r ∷ answers) =
      let next = with_line_end buffer (unb64 r.payload) in
      let later = executor_stream_batched next answers in
      if not (is_nil r.error)
      then some (error_envelope (text "upstream_stream_error") r.error)
      else if r.done
      then some (ok_envelope next)
      else later

abbrev pub emit_failed : Text
emit_failed = text "host stream emit failed"

-- Whether the bridge takes an event, given the events that it took before.
module _ (accepts : List Text → Text → Bool) where
  -- The events that the bridge accepts now, and whether it took them all.
  unfoldable pub emit_upstream_events : List Text → List Text → List Text × Bool
  emit_upstream_events before [] = ([], true)
  emit_upstream_events before (event ∷ events) =
      let (accepted, ok) = emit_upstream_events (before ++ event ∷ []) events in
      if accepts before event then (event ∷ accepted, ok) else ([], false)

  -- Emit, and go on or leave.
  abbrev pub emit_then {ℓ} : {A : Type ℓ} → Bridge → List Text → (Bridge → A) → (Bridge → A) → A
  emit_then b events go_on rejected =
      let (accepted, ok) = emit_upstream_events b.emitted events in
      let next = record b { emitted = b.emitted ++ accepted } in
      if ok then go_on next else rejected next

  -- After the last chunk.
  unfoldable pub pump_end : Text → Text → Bridge → Bridge
  unfolding leave
  pump_end pending buffer b =
      emit_then b (flush pending).1 (leave [] buffer) (leave emit_failed buffer)

  module _ (unb64 : Text → Text) where
    -- `pumpExecutorStreamToBridge`, from the parser's pending text and the usage buffer.
    unfoldable pub pump : Text → Text → Bridge → List Answer → Option Bridge
    unfolding leave pump_end
    pump pending buffer b [] = none
    pump pending buffer b (call_failed e ∷ answers) = some (leave e buffer b)
    pump pending buffer b (undecodable e ∷ answers) = some (leave e buffer b)
    pump pending buffer b (read r ∷ answers) =
        let payload = unb64 r.payload in
        let next = with_line_end buffer payload in
        let (left, events) = feed pending payload in
        let idle_loop = pump pending buffer b answers in
        if not (is_nil r.error)
        then some (leave r.error buffer b)
        else if is_nil payload
        then (if r.done then some (pump_end pending buffer b) else idle_loop)
        else emit_then b events
            (λ b'.
              let loop = pump left next b' answers in
              if r.done then some (pump_end left next b') else loop)
            (λ b'. some (leave emit_failed next b'))
