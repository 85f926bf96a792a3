-- ===== src/Registry.antt =====
-- src/providers.go: the registry of matched providers, and the ring of dashboard events.
pub mod Longest
pub mod Ring
use agy_identity_bridge.Base.{
  ℕ, ◌-◌, Bool, true, not, ◌&&◌, Option, none, some, List, [], ◌∷◌, ◌++◌, reverse, ltb,
  if◌then◌else◌, length, is_nil, drop,
}
use agy_identity_bridge.Text.{Text, text, trim_space, to_lower, has_prefix}

pub record MatchedProviderRecord : Type 0 where
  pub name : Text
  pub prefix : Text
  pub url : Text
  pub api_key : Text

abbrev pub record_prefix : MatchedProviderRecord → Text
record_prefix r = to_lower (trim_space r.prefix)

-- Whether the record's prefix and a slash begin the model.
abbrev pub owns : Text → MatchedProviderRecord → Bool
owns model r = not (is_nil (record_prefix r)) && has_prefix model (record_prefix r ++ text "/")

-- `best` and `bestLen`; nothing found is a `bestLen` of -1.
abbrev pub Best : Type 0
Best = Option (MatchedProviderRecord × ℕ)

abbrev pub is_longer : ℕ → Best → Bool
is_longer n none = true
is_longer n (some (r, best_length)) = ltb best_length n

abbrev pub better : Text → Best → MatchedProviderRecord → Best
better model best r =
    if owns model r && is_longer (length (record_prefix r)) best
    then some (r, length (record_prefix r))
    else best

unfoldable pub best_record : Text → Best → List MatchedProviderRecord → Best
best_record model best [] = best
best_record model best (r ∷ records) = best_record model (better model best r) records

-- `if bestLen > 0 { return best, true }`
abbrev pub found : Best → Option MatchedProviderRecord
found none = none
found (some (r, n)) = if ltb 0 n then some r else none

abbrev pub normal_model : Text → Text
normal_model model = to_lower (trim_space model)

abbrev pub first_found :
    Option MatchedProviderRecord → Option MatchedProviderRecord → Option MatchedProviderRecord
first_found (some r) later = some r
first_found none later = later

unfoldable pub resolve_record_by_model :
    List MatchedProviderRecord → List Text → Option MatchedProviderRecord
unfolding best_record
resolve_record_by_model records [] = none
resolve_record_by_model records (model ∷ models) =
    let later = resolve_record_by_model records models in
    let here = found (best_record (normal_model model) none records) in
    if is_nil records
    then none
    else if is_nil (normal_model model)
    then later
    else first_found here later

-- A ring: `append`, then the oldest entries beyond `max` are cut off.
unfoldable pub append_bounded {ℓ} : {A : Type ℓ} → ℕ → List A → A → List A
append_bounded max items item =
    let grown = items ++ item ∷ [] in
    let excess = length grown - max in if ltb 0 excess then drop excess grown else grown

pub record DashboardEvent : Type 0 where
  pub at : Text
  pub level : Text
  pub message : Text

abbrev pub max_dashboard_events : ℕ
max_dashboard_events = 8

-- The event of a call at the time `now`.
abbrev pub dashboard_event : Text → Text → Text → DashboardEvent
dashboard_event now level message =
    let l = to_lower (trim_space level) in
    record { at = now; level = if is_nil l then text "info" else l; message = trim_space message }

unfoldable pub record_dashboard_event :
    Text → Text → Text → List DashboardEvent → List DashboardEvent
unfolding append_bounded
record_dashboard_event now level message events =
    if is_nil (trim_space message)
    then events
    else append_bounded max_dashboard_events events (dashboard_event now level message)

unfoldable pub recent_dashboard_events : List DashboardEvent → List DashboardEvent
recent_dashboard_events events = reverse events
