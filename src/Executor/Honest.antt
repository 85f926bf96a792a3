-- ===== src/Executor/Honest.antt =====
-- What the replies of the executor handlers tell of the answer of the provider.
use agy_identity_bridge.Payload.{Outcome, returned, panicked}
use agy_identity_bridge.Stream.{is_non_success_stream_start}
use agy_identity_bridge.Upstream.{ExecutorRequest, Built, no_base_url, no_api_key, panic, built}
use agy_identity_bridge.Executor.{
  RawKeys, Called, refused, answered, host_http_response, HostHttpResponse,
}
use agy_identity_bridge.Executor.Context.{
  ExecutorContext, ExecutorWorld, Reply, error_reply, ok_reply, panic_reply, Prepared, failed,
  prepared, UpstreamCall,
}
use agy_identity_bridge.Spec.{ProviderSpec}
use agy_identity_bridge.Executor.Handlers.{
  resolved, on_decoded, built_call, prepare, build, respond, on_response, ok_response,
  execute_response, executor_upstream_error, record_executor_upstream_status,
  handle_executor_execute, handle_executor_count_tokens,
}
use agy_identity_bridge.Base.{
  suc, ◌≡◌, refl, ◌∙◌, ◌⊎◌, inl, inr, Bool, true, false, Option, none, some, arith, eqb,
  if◌then◌else◌, length, length-append,
}
use agy_identity_bridge.Text.{Text, text}

-- A reply that carries no status of the provider: an error with the status 0, or a panic.
unfoldable pub has_no_status : Reply → Bool
has_no_status (error_reply code message status) = eqb status 0
has_no_status (ok_reply envelope) = false
has_no_status panic_reply = true

unfoldable pub is_early : Prepared → Bool
unfolding has_no_status
is_early (failed reply) = has_no_status reply
is_early (prepared call) = true

module _ (x : ExecutorContext) where
  is_early-built_call :
      (spec : _) (req : _) (identity : _) (b : Built)
      → is_early (built_call spec req identity b) ≡ true
  unfolding is_early
  is_early-built_call spec req identity no_base_url = refl
  is_early-built_call spec req identity no_api_key = refl
  is_early-built_call spec req identity panic = refl
  is_early-built_call spec req identity (built request) = refl

  is_early-build :
      (spec : ProviderSpec) (req : ExecutorRequest) (model : Text) (o : Outcome)
      → is_early (build x spec (record req { model = model }) o) ≡ true
  unfolding is_early
  is_early-build spec req model panicked = refl
  is_early-build spec req model (returned payload) =
      is_early-built_call spec (record req { model = model; payload = payload }) _ _

  is_early-resolved :
      (force : Text → Outcome) (raw : Text) (req : Option ExecutorRequest)
      (spec : Option ProviderSpec)
      → is_early (resolved x force raw req spec) ≡ true
  unfolding is_early
  is_early-resolved force raw none spec = refl
  is_early-resolved force raw (some req) none = refl
  is_early-resolved force raw (some req) (some spec) = is_early-build spec req _ _

  -- A handler that stops before it calls the host gives no status.
  pub is_early-prepare :
      (force : Text → Outcome) (raw : Text) → is_early (prepare x force raw) ≡ true
  unfolding prepare
  is_early-prepare force raw = is_early-resolved force raw _ _

  -- What the two handlers that do not stream make of one request.
  abbrev pub Agree : ExecutorWorld → Reply × ExecutorWorld → Reply × ExecutorWorld → Type 0
  Agree w executed counted =
      ((executed ≡ counted) × (executed.1 ≡ w) × (has_no_status executed.0 ≡ true))
      ⊎ ((r : HostHttpResponse) × (executed.1.last_status ≡ r.status_code)
          × (counted.1.last_status ≡ r.status_code)
          × (executed.1.events ≡ counted.1.events)
          × (length executed.1.usage_calls ≡ suc (length w.usage_calls))
          × (length counted.1.usage_calls ≡ suc (length w.usage_calls))
          × (counted.0 ≡ ok_response x r)
          × (executed.0 ≡ (
              if is_non_success_stream_start r.status_code
              then executor_upstream_error x r.status_code (x.unb64 r.body)
              else ok_response x r)))

  Agree-decoded :
      (call : UpstreamCall) (d : Text ⊎ RawKeys) (w : ExecutorWorld)
      → Agree w
          (on_decoded x (execute_response x) (text "execute") call d w)
          (on_decoded x (ok_response x) (text "count_tokens") call d w)
  unfolding execute_response record_executor_upstream_status has_no_status
  Agree-decoded call (inl e) w = inl (refl, refl, refl)
  Agree-decoded call (inr keys) w = inr (
    host_http_response x.json keys,
    refl,
    refl,
    refl,
    length-append w.usage_calls _ ∙ omega arith,
    length-append w.usage_calls _ ∙ omega arith,
    refl,
    refl,
  )

  Agree-called :
      (call : UpstreamCall) (answer : Called) (w : ExecutorWorld)
      → Agree w
          (on_response x (execute_response x) (text "execute") call answer w)
          (on_response x (ok_response x) (text "count_tokens") call answer w)
  unfolding on_response has_no_status
  Agree-called call (refused e) w = inl (refl, refl, refl)
  Agree-called call (answered raw) w = Agree-decoded call (x.json.object_of raw) w

  Agree-prepared :
      (p : Prepared) (w : ExecutorWorld)
      → is_early p ≡ true
      → Agree w
          (respond x (execute_response x) (text "execute") p w)
          (respond x (ok_response x) (text "count_tokens") p w)
  unfolding is_early
  Agree-prepared (failed early) w h = inl (refl, refl, h)
  Agree-prepared (prepared call) w h = Agree-called call (x.host_do call.request) w

  -- For every request, an execution and a count of tokens either stop alike, with a reply that
  -- carries no status and with nothing recorded; or both read one answer of the host, record its
  -- status, the same events and one observation of usage each. The count of tokens then passes the
  -- answer on whatever its status is, and the execution passes it on unless its status is above 0
  -- and outside 200 to 299, when its reply is an upstream error with that status.
  pub handle_executor_execute-count_tokens :
      (raw : Text) (w : ExecutorWorld)
      → Agree w (handle_executor_execute x raw w) (handle_executor_count_tokens x raw w)
  unfolding handle_executor_execute handle_executor_count_tokens
  handle_executor_execute-count_tokens raw w =
      Agree-prepared (prepare x returned raw) w (is_early-prepare returned raw)
