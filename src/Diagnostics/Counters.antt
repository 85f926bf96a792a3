-- ===== src/Diagnostics/Counters.antt =====
-- src/providers.go `recordExecutorUpstreamStatus` and `recordIntercept`: counters for the diagnostics.
use agy_identity_bridge.Base.{◌+◌, ◌%◌, not, List, [], ◌∷◌, ◌++◌, if◌then◌else◌}
use agy_identity_bridge.Text.{Text, text}
use agy_identity_bridge.Int64.{Int64, word, lt64}
use agy_identity_bridge.Candidate.{ProviderCandidate}
use agy_identity_bridge.Headers.{display_provider_name}
use agy_identity_bridge.Identity.{
  normalize_client_app, redacted_identity_label, ClientIdentityContext,
}
use agy_identity_bridge.Registry.{DashboardEvent, record_dashboard_event}

-- `executorRuntimeState`: the last status of the upstream, 0 at first, and its time as a text.
pub record ExecutorRuntime : Type 0 where
  pub last_status : Int64
  pub last_at : Text

-- `fmt.Sprintf("%d", status)` is a parameter.
unfoldable pub record_executor_upstream_status :
    (Int64 → Text) → Text → Int64 → List DashboardEvent → ExecutorRuntime × List DashboardEvent
record_executor_upstream_status show now status events =
    let level =
      if not (lt64 status 400)
      then text "error"
      else if not (lt64 status 300)
      then text "warning"
      else text "info" in
    (
      record { last_status = status; last_at = now },
      record_dashboard_event now level (text "agy2api responded HTTP " ++ show status) events,
    )

-- `interceptState`; the count is a uint64, and the time is empty at first.
pub record InterceptState : Type 0 where
  pub count : Int64
  pub last_at : Text
  pub last_name : Text

unfoldable pub record_intercept :
    Text
    → ProviderCandidate
    → ClientIdentityContext
    → InterceptState × List DashboardEvent
    → InterceptState × List DashboardEvent
record_intercept now candidate identity (state, events) =
    let provider =
      display_provider_name (candidate.name ∷ candidate.provider_key ∷ candidate.to_format ∷ []) in
    (
      record { count = (state.count + 1) % word; last_at = now; last_name = provider },
      record_dashboard_event now (text "info")
          (text "Injected identity for "
            ++ normalize_client_app identity.client_app []
            ++ text " on "
            ++ provider
            ++ text " principal "
            ++ redacted_identity_label identity.principal)
          events,
    )
