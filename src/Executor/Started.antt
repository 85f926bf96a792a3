-- ===== src/Executor/Started.antt =====
-- What a streamed execution answers, by the status with which the stream started.
use agy_identity_bridge.Int64.{Int64}
use mathlib.Core.Option
use agy_identity_bridge.Payload.{force_streaming_payload}
use agy_identity_bridge.Stream.{
  Answer, drain_body, max_upstream_error_body_bytes, executor_stream_batched, idle, pump, Batched,
  error_envelope, ok_envelope, is_non_success_stream_start,
}
use agy_identity_bridge.Executor.{
  host_http_stream_start, Called, refused, answered, RawKeys, HostHttpStreamStart, stream_answer,
}
use agy_identity_bridge.Executor.Context.{
  error_of, ExecutorContext, ExecutorWorld, Reply, ok_reply, Prepared, failed, prepared,
  UpstreamCall, StreamRun,
}
use agy_identity_bridge.Executor.Handlers.{
  prepare, executor_upstream_error, record_executor_upstream_status,
}
use agy_identity_bridge.Executor.Honest.{has_no_status, is_early, is_early-prepare}
use agy_identity_bridge.Executor.Streamed.{
  executor_stream_should_return_early, batched, drained, on_start, on_stream, on_stream_decoded,
  respond_stream, handle_executor_execute_stream,
}
use agy_identity_bridge.Base.{
  not-true, Bool-cases, ◌≢◌, List, ◌∷◌, ◌++◌, ◌≡◌, refl, ap, ◌⊎◌, inl, inr, true, false, Option,
  none, some, [], map, arith, if_cases, is_nil,
}
use agy_identity_bridge.Text.{Text, text, trim_space}

module _ (x : ExecutorContext) (w : ExecutorWorld) where
  abbrev pub answers : List Answer
  answers = map (stream_answer x.json) x.reads

  -- Stopped with this reply: nothing is recorded, and no pump is started.
  abbrev pub IsStopped : Reply → StreamRun → Type 0
  IsStopped reply s =
      (has_no_status reply ≡ true) × (s.reply ≡ some reply) × (s.world ≡ w) × (s.pumped ≡ none)

  -- The request is refused, or the host does not start a stream for it.
  abbrev pub IsEarlyRun : Prepared → StreamRun → Type 0
  IsEarlyRun p s =
      ((reply : Reply) × (p ≡ failed reply) × IsStopped reply s)
      ⊎ ((call : UpstreamCall) × (p ≡ prepared call)
          × (((e : Text) × (x.host_do_stream call.request ≡ refused e)
                × IsStopped (error_of (text "upstream_call_failed") e) s)
              ⊎ ((raw : Text) × (x.host_do_stream call.request ≡ answered raw)
                  × (((e : Text) × (x.json.object_of raw ≡ inl e)
                        × IsStopped (error_of (text "upstream_decode_failed") e) s)
                      ⊎ ((keys : RawKeys) × (x.json.object_of raw ≡ inr keys)
                          × ((host_http_stream_start x.json keys).stream_id ≡ [])
                          × IsStopped
                              (error_of (text "upstream_stream_unavailable")
                                (text "host returned no stream id"))
                              s)))))

  -- A start with an error status: the error body is read, and is the detail of the reply.
  abbrev pub IsFailedStart : HostHttpStreamStart → StreamRun → Type 0
  IsFailedStart start s =
      (is_non_success_stream_start start.status_code ≡ true)
      × (s.pumped ≡ none)
      × (s.world.usage_calls ≡ w.usage_calls)
      × (s.reply
          ≡ Option.map (executor_upstream_error x start.status_code)
              (drain_body x.unb64 max_upstream_error_body_bytes [] answers))

  -- The host has a bridge stream: headers now, and the rest from the pump.
  abbrev pub IsPumped : UpstreamCall → HostHttpStreamStart → StreamRun → Type 0
  IsPumped call start s =
      (is_non_success_stream_start start.status_code ≡ false)
      × (trim_space call.stream_id ≢ [])
      × (s.pumped ≡ some (pump x.accepts x.unb64 [] [] idle answers))
      × (s.world.usage_calls ≡ w.usage_calls)
      × (s.reply ≡ some (ok_reply (record { payload = []; headers = start.headers; chunks = [] })))

  -- What the stream that is read to its end is answered with, and recorded as.
  unfoldable pub BatchReply :
      UpstreamCall → HostHttpStreamStart → Option Batched → StreamRun → Type 0
  BatchReply call start none s = (s.reply ≡ none) × (s.world.usage_calls ≡ w.usage_calls)
  BatchReply call start (some (error_envelope code message)) s =
      (s.reply ≡ some (error_of code message)) × (s.world.usage_calls ≡ w.usage_calls)
  BatchReply call start (some (ok_envelope buffer)) s =
      (s.reply
        ≡ some (
            ok_reply
              (record { payload = []; headers = start.headers; chunks = x.b64 buffer ∷ [] })))
      × (s.world.usage_calls
          ≡ w.usage_calls
            ++ record {
              body = buffer;
              headers = start.headers;
              provider = call.spec.name;
              model = call.model;
              client_app = call.identity.client_app;
              principal = call.identity.principal;
              mode = text "stream";
            }
              ∷ [])

  -- The host has none: the answer waits for the end of the stream.
  abbrev pub IsBatched : UpstreamCall → HostHttpStreamStart → StreamRun → Type 0
  IsBatched call start s =
      (is_non_success_stream_start start.status_code ≡ false)
      × (trim_space call.stream_id ≡ [])
      × (s.pumped ≡ none)
      × BatchReply call start (executor_stream_batched x.unb64 [] answers) s

  -- A stream that the host started: its status is recorded.
  abbrev pub IsStarted : Prepared → StreamRun → Type 0
  IsStarted p s =
      (call : UpstreamCall) × (raw : Text) × (keys : RawKeys) × (p ≡ prepared call)
      × (x.host_do_stream call.request ≡ answered raw)
      × (x.json.object_of raw ≡ inr keys)
      × ((host_http_stream_start x.json keys).stream_id ≢ [])
      × (s.world.last_status ≡ (host_http_stream_start x.json keys).status_code)
      × (IsFailedStart (host_http_stream_start x.json keys) s
          ⊎ (IsPumped call (host_http_stream_start x.json keys) s
              ⊎ IsBatched call (host_http_stream_start x.json keys) s))

  abbrev pub IsServed : Prepared → StreamRun → Type 0
  IsServed p s = IsEarlyRun p s ⊎ IsStarted p s

  -- The stream of a start that names one.
  abbrev IsRun : UpstreamCall → HostHttpStreamStart → StreamRun → Type 0
  IsRun call start s =
      (s.world.last_status ≡ start.status_code)
      × (IsFailedStart start s ⊎ (IsPumped call start s ⊎ IsBatched call start s))

  drained_lem :
      (status : Int64) (body : Option Text)
      → let s = drained x status body (record_executor_upstream_status x status w) in
        (s.world.last_status ≡ status)
        × (s.pumped ≡ none)
        × (s.world.usage_calls ≡ w.usage_calls)
        × (s.reply ≡ Option.map (executor_upstream_error x status) body)
  unfolding record_executor_upstream_status
  drained_lem status none = (refl, refl, refl, refl)
  drained_lem status (some body) = (refl, refl, refl, refl)

  batched_lem :
      (call : UpstreamCall) (start : HostHttpStreamStart) (b : Option Batched)
      → let s = batched x call start b (record_executor_upstream_status x start.status_code w) in
        (s.world.last_status ≡ start.status_code) × (s.pumped ≡ none) × BatchReply call start b s
  unfolding record_executor_upstream_status BatchReply
  batched_lem call start none = (refl, refl, (refl, refl))
  batched_lem call start (some (error_envelope code message)) = (refl, refl, (refl, refl))
  batched_lem call start (some (ok_envelope buffer)) = (refl, refl, (refl, refl))

  stream_id-ne-nil : (id : Text) → is_nil id ≡ false → id ≢ []
  stream_id-ne-nil id h e = ground (arith, ap is_nil e, h)

  stream_id-nil : (id : Text) → is_nil id ≡ true → id ≡ []
  stream_id-nil [] h = refl
  stream_id-nil (c ∷ id) h = ground (arith, h)

  -- Whether the handler returns early, in words of the bridge stream's id.
  early_id : (id : Text) → executor_stream_should_return_early id ≡ true → trim_space id ≢ []
  unfolding executor_stream_should_return_early
  early_id id h = stream_id-ne-nil (trim_space id) (not-true _ h)

  late_id : (id : Text) → executor_stream_should_return_early id ≡ false → trim_space id ≡ []
  unfolding executor_stream_should_return_early
  late_id id h = stream_id-nil (trim_space id) (ground (arith, h))

  IsRun-open :
      (call : UpstreamCall) (start : HostHttpStreamStart)
      → is_nil start.stream_id ≡ false
      → IsRun call start (on_start x call start w)
  unfolding on_start record_executor_upstream_status
  IsRun-open call start named =
      if_cases (IsRun call start) (is_nil start.stream_id) _ _
        (λ unnamed. absurd (ground (arith, named, unnamed)))
        (λ _.
          if_cases (IsRun call start) (is_non_success_stream_start start.status_code) _ _
            (λ failing.
              let (status, pumped, usage, reply) = drained_lem start.status_code _ in
              (status, inl (failing, pumped, usage, reply)))
            (λ fine.
              if_cases (IsRun call start) (executor_stream_should_return_early call.stream_id) _ _
                (λ early. (refl, inr (inl (fine, early_id call.stream_id early, refl, refl, refl))))
                (λ late.
                  let (status, pumped, run) = batched_lem call start _ in
                  (status, inr (inr (fine, late_id call.stream_id late, pumped, run))))))

  IsStopped-unnamed :
      (call : UpstreamCall) (start : HostHttpStreamStart)
      → is_nil start.stream_id ≡ true
      → IsStopped
          (error_of (text "upstream_stream_unavailable") (text "host returned no stream id"))
          (on_start x call start w)
  unfolding on_start has_no_status
  IsStopped-unnamed call start unnamed = rw unnamed (refl, refl, refl, refl)

  IsServed-decoded :
      (call : UpstreamCall) (raw : Text)
      → x.host_do_stream call.request ≡ answered raw
      → (d : Text ⊎ RawKeys) → x.json.object_of raw ≡ d
      → IsServed (prepared call) (on_stream_decoded x call d w)
  unfolding has_no_status
  IsServed-decoded call raw a (inl e) d =
      inl (inr (call, refl, inr (raw, a, inl (e, d, (refl, refl, refl, refl)))))
  IsServed-decoded call raw a (inr keys) d =
      let start = host_http_stream_start x.json keys in
      elim (Bool-cases (is_nil start.stream_id)) [
        | inl unnamed ↦ inl (
            inr (
              call,
              refl,
              inr (
                raw,
                a,
                inr (keys, d, stream_id-nil _ unnamed, IsStopped-unnamed call start unnamed),
              ),
            ))
        | inr named ↦
            let (status, run) = IsRun-open call start named in
            inr (call, raw, keys, refl, a, d, stream_id-ne-nil _ named, status, run)
      ]

  IsServed-called :
      (call : UpstreamCall) (answer : Called)
      → x.host_do_stream call.request ≡ answer
      → IsServed (prepared call) (on_stream x call answer w)
  unfolding has_no_status
  IsServed-called call (refused e) a = inl (inr (call, refl, inl (e, a, (refl, refl, refl, refl))))
  IsServed-called call (answered raw) a = IsServed-decoded call raw a (x.json.object_of raw) refl

  IsServed-respond_stream : (p : Prepared) → is_early p ≡ true → IsServed p (respond_stream x p w)
  unfolding is_early
  IsServed-respond_stream (failed early) h = inl (inl (early, refl, (h, refl, refl, refl)))
  IsServed-respond_stream (prepared call) h =
      IsServed-called call (x.host_do_stream call.request) refl

  -- A streamed execution either stops early or runs. It stops when the request cannot be prepared,
  -- the host refuses the call, its answer is no JSON object, or the answer names no stream; the
  -- reply is the error of that case without a status, nothing is recorded and no pump is started.
  -- It runs in every other case, and records the status of the start. Where that status is an error,
  -- no usage is recorded, no pump is started, and the reply is the upstream error with the body that
  -- is drained, when the drain ends. Where it is not, and the request names a bridge stream that is
  -- not blank, the reply is the headers alone, no usage is recorded by the handler, and the pump is
  -- started on the reads. Where it names none, no pump is started, and the reply is that of the
  -- batched stream when it ends: its error without usage, or its buffer with one observation of it.
  pub handle_executor_execute_stream-IsServed :
      (raw : Text)
      → IsServed
          (prepare x (force_streaming_payload x.unmarshal x.marshal) raw)
          (handle_executor_execute_stream x raw w)
  unfolding handle_executor_execute_stream
  handle_executor_execute_stream-IsServed raw =
      IsServed-respond_stream (prepare x (force_streaming_payload x.unmarshal x.marshal) raw)
        (is_early-prepare x _ raw)
