-- ===== src/Executor/Streamed.antt =====
-- src/executor.go: the handler of a streamed execution.
use agy_identity_bridge.Int64.{Int64}
use agy_identity_bridge.Payload.{force_streaming_payload}
use agy_identity_bridge.Stream.{
  is_non_success_stream_start, max_upstream_error_body_bytes, drain_body, Batched, error_envelope,
  ok_envelope, executor_stream_batched, idle, pump,
}
use agy_identity_bridge.Executor.{
  RawKeys, HostHttpStreamStart, Called, refused, answered, host_http_stream_start, stream_answer,
}
use agy_identity_bridge.Base.{
  ◌⊎◌, inl, inr, Bool, not, Option, none, some, [], ◌∷◌, map, if◌then◌else◌, is_nil,
}
use agy_identity_bridge.Text.{Text, text, trim_space}
use agy_identity_bridge.Executor.Context.{
  ExecutorContext, ExecutorWorld, Reply, ok_reply, error_of, UpstreamCall, Prepared, failed,
  prepared, StreamRun,
}
use agy_identity_bridge.Executor.Handlers.{
  prepare, executor_upstream_error, record_executor_upstream_status, record_use,
}

unfoldable pub executor_stream_should_return_early : Text → Bool
executor_stream_should_return_early stream_id = not (is_nil (trim_space stream_id))

abbrev pub waiting : ExecutorWorld → StreamRun
waiting w = record { reply = none; world = w; pumped = none }

abbrev pub replied : Reply → ExecutorWorld → StreamRun
replied reply w = record { reply = some reply; world = w; pumped = none }

module _ (x : ExecutorContext) where
  -- The batched stream: its chunks in one, and its usage.
  abbrev pub batched :
      UpstreamCall → HostHttpStreamStart → Option Batched → ExecutorWorld → StreamRun
  batched call start none w = waiting w
  batched call start (some (error_envelope code message)) w = replied (error_of code message) w
  batched call start (some (ok_envelope buffer)) w =
      replied
        (ok_reply (record { payload = []; headers = start.headers; chunks = x.b64 buffer ∷ [] }))
        (record_use x (text "stream") call buffer start.headers w)

  abbrev pub drained : Int64 → Option Text → ExecutorWorld → StreamRun
  drained status none w = waiting w
  drained status (some body) w = replied (executor_upstream_error x status body) w

  -- A stream that the host has started.
  unfoldable pub on_start : UpstreamCall → HostHttpStreamStart → ExecutorWorld → StreamRun
  on_start call start w =
      let recorded = record_executor_upstream_status x start.status_code w in
      let answers = map (stream_answer x.json) x.reads in
      if is_nil start.stream_id
      then replied
          (error_of (text "upstream_stream_unavailable") (text "host returned no stream id")) w
      else if is_non_success_stream_start start.status_code
      then drained start.status_code (drain_body x.unb64 max_upstream_error_body_bytes [] answers)
          recorded
      else if executor_stream_should_return_early call.stream_id
      then record {
        reply = some (ok_reply (record { payload = []; headers = start.headers; chunks = [] }));
        world = recorded;
        pumped = some (pump x.accepts x.unb64 [] [] idle answers);
      }
      else batched call start (executor_stream_batched x.unb64 [] answers) recorded

  abbrev pub on_stream_decoded : UpstreamCall → Text ⊎ RawKeys → ExecutorWorld → StreamRun
  on_stream_decoded call (inl e) w = replied (error_of (text "upstream_decode_failed") e) w
  on_stream_decoded call (inr keys) w = on_start call (host_http_stream_start x.json keys) w

  abbrev pub on_stream : UpstreamCall → Called → ExecutorWorld → StreamRun
  on_stream call (refused e) w = replied (error_of (text "upstream_call_failed") e) w
  on_stream call (answered raw) w = on_stream_decoded call (x.json.object_of raw) w

  abbrev pub respond_stream : Prepared → ExecutorWorld → StreamRun
  respond_stream (failed early) w = replied early w
  respond_stream (prepared call) w = on_stream call (x.host_do_stream call.request) w

  unfoldable pub handle_executor_execute_stream : Text → ExecutorWorld → StreamRun
  handle_executor_execute_stream raw w =
      respond_stream (prepare x (force_streaming_payload x.unmarshal x.marshal) raw) w
