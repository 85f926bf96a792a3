-- ===== src/Auth/Saved.antt =====
-- src/executor.go `ensureAuthRecord`: what the host has saved when it reports no error.
use agy_identity_bridge.Base.{and_true}
use agy_identity_bridge.Base.{
  ◌≡◌, refl, sym, ap, ◌∙◌, true, false, ◌&&◌, Option, none, some, List, [], ◌∷◌, ◌++◌, arith,
  if◌then◌else◌, if_cases, All,
}
use agy_identity_bridge.Text.{Text, text, ◌==◌, split, join}
use agy_identity_bridge.Text.Equality.{==_iff}
use agy_identity_bridge.Text.Splitting.{IsFree, split-join}
use agy_identity_bridge.Config.{PluginSettings}
use agy_identity_bridge.Spec.{ProviderSpec}
use agy_identity_bridge.Auth.{
  SaveCall, AuthWorld, AuthResult, AuthError, missing_base_url_or_api_key, auth_provider,
  auth_parts, auth_fingerprint, auth_fields, save_json, reset_executor_auth_record_state,
  save_auth_record, executor_auth_json, ensure_auth_record, ensure_enabled,
}

-- No part of the auth record holds a NUL.
abbrev pub IsPlain : ProviderSpec → PluginSettings → Type 0
IsPlain spec settings = All (IsFree 0) (auth_parts spec settings)

fingerprint-join :
    (spec : ProviderSpec) (settings : PluginSettings)
    → auth_fingerprint spec settings ≡ join (0 ∷ []) (auth_parts spec settings)
unfolding auth_fingerprint join
fingerprint-join spec settings = refl

auth_fingerprint-injective :
    (spec spec' : ProviderSpec) (settings settings' : PluginSettings)
    → IsPlain spec settings
    → IsPlain spec' settings'
    → auth_fingerprint spec settings ≡ auth_fingerprint spec' settings'
    → auth_parts spec settings ≡ auth_parts spec' settings'
auth_fingerprint-injective spec spec' settings settings' (p, ps) (q, qs) e =
    sym (split-join 0 _ _ p ps)
    ∙ ap (split 0) (sym (fingerprint-join spec settings) ∙ e ∙ fingerprint-join spec' settings')
    ∙ split-join 0 _ _ q qs

-- The record that the host took last.
abbrev pub last_accepted : List SaveCall → Option (Text × Text)
last_accepted [] = none
last_accepted (call ∷ calls) =
    if call.accepted then some (call.name, call.json) else last_accepted calls

-- The state in which the plugin starts.
abbrev pub initial : AuthWorld
initial = record { auth = record { fingerprint = []; ensured = false }; calls = []; events = [] }

-- What the host should hold for a provider: a file named for its key, with the marshalled fields.
abbrev record_of_json : List Text → Option Text → Option (Text × Text)
record_of_json (provider ∷ _) (some json) = some (provider ++ text ".json", json)
record_of_json _ _ = none

pub data AuthStep : Type 0 where
  ensure : Text → ProviderSpec → PluginSettings → Option Text → AuthStep
  reset : AuthStep

abbrev pub IsPlainStep : AuthStep → Type 0
IsPlainStep (ensure now spec settings answer) = IsPlain spec settings
IsPlainStep reset = Unit

module _ (marshal : List (Text × Text) → Option Text) where
  abbrev pub auth_record : List Text → Option (Text × Text)
  auth_record parts = record_of_json parts (marshal (auth_fields parts))

  -- A state that says `ensured` is backed by a provider whose record the host took last.
  record Backed (w : AuthWorld) : Type 0 where
    spec : ProviderSpec
    settings : PluginSettings
    plain : IsPlain spec settings
    print : w.auth.fingerprint ≡ auth_fingerprint spec settings
    saved : last_accepted w.calls ≡ auth_record (auth_parts spec settings)

  abbrev IsBacked : AuthWorld → Type 0
  IsBacked w = w.auth.ensured ≡ true → Backed w

  -- The state stays backed, and where no error is reported the host has the record.
  record IsSaved (parts : List Text) (r : AuthResult) : Type 0 where
    backed : IsBacked r.1
    saved : r.0 ≡ none → last_accepted r.1.calls ≡ auth_record parts

  failed-IsSaved :
      (parts : List Text) (error : AuthError) (w : AuthWorld)
      → IsBacked w
      → IsSaved parts (some error, w)
  failed-IsSaved parts error w h = record { backed = h; saved = λ e. ground arith }

  known-IsSaved :
      (spec : ProviderSpec) (settings : PluginSettings) (w : AuthWorld)
      → IsPlain spec settings
      → Backed w
      → w.auth.fingerprint ≡ auth_fingerprint spec settings
      → IsSaved (auth_parts spec settings) (none, w)
  known-IsSaved spec settings w plain h e =
      let same = auth_fingerprint-injective _ _ _ _ h.plain plain (sym h.print ∙ e) in
      record { backed = λ _. h; saved = λ _. h.saved ∙ ap auth_record same }

  save-IsSaved :
      (now : Text) (spec : ProviderSpec) (settings : PluginSettings) (answer : Option Text)
      (w : AuthWorld) (o : Option Text)
      → IsPlain spec settings
      → IsBacked w
      → executor_auth_json marshal spec settings ≡ o
      → IsSaved (auth_parts spec settings) (
          save_json marshal now
            (auth_fingerprint spec settings)
            (auth_provider settings ++ text ".json")
            o
            answer
            w)
  unfolding save_auth_record executor_auth_json
  save-IsSaved now spec settings answer w none plain h e = failed-IsSaved _ _ w h
  save-IsSaved now spec settings (some error) w (some json) plain h e = record {
    backed = λ k.
        let b = h k in
        record {
          spec = b.spec;
          settings = b.settings;
          plain = b.plain;
          print = b.print;
          saved = b.saved;
        };
    saved = λ k. ground arith;
  }
  save-IsSaved now spec settings none w (some json) plain h e =
      let s = ap (record_of_json (auth_parts spec settings)) (sym e) in
      record {
        backed = λ k. record {
          spec = spec;
          settings = settings;
          plain = plain;
          print = refl;
          saved = s;
        };
        saved = λ k. s;
      }

  enabled-IsSaved :
      (now : Text) (spec : ProviderSpec) (settings : PluginSettings) (answer : Option Text)
      (w : AuthWorld)
      → IsPlain spec settings
      → IsBacked w
      → IsSaved (auth_parts spec settings) (ensure_enabled marshal now spec settings answer w)
  enabled-IsSaved now spec settings answer w plain h =
      if_cases (IsSaved (auth_parts spec settings)) _ _ _
        (λ _. failed-IsSaved _ missing_base_url_or_api_key w h)
        (λ _.
          if_cases (IsSaved (auth_parts spec settings))
            (w.auth.ensured && (w.auth.fingerprint == auth_fingerprint spec settings)) _ _
            (λ e.
              let (on, same) = and_true _ _ e in
              known-IsSaved spec settings w plain (h on) ((==_iff _ _).0 same))
            (λ _. save-IsSaved now spec settings answer w _ plain h refl))

  ensure-IsBacked :
      (now : Text) (spec : ProviderSpec) (settings : PluginSettings) (answer : Option Text)
      (w : AuthWorld)
      → IsPlain spec settings
      → IsBacked w
      → IsBacked (ensure_auth_record marshal now spec settings answer w).1
  unfolding ensure_auth_record
  ensure-IsBacked now spec settings answer w plain h =
      if_cases (λ (r : AuthResult). IsBacked r.1) settings.executor_enabled _ _
        (λ _. (enabled-IsSaved now spec settings answer w plain h).backed) (λ _. h)

  abbrev pub step : AuthStep → AuthWorld → AuthWorld
  step (ensure now spec settings answer) w =
      (ensure_auth_record marshal now spec settings answer w).1
  step reset w = reset_executor_auth_record_state w

  abbrev pub run : List AuthStep → AuthWorld → AuthWorld
  run [] w = w
  run (s ∷ steps) w = run steps (step s w)

  step-IsBacked : (s : AuthStep) (w : AuthWorld) → IsPlainStep s → IsBacked w → IsBacked (step s w)
  unfolding reset_executor_auth_record_state
  step-IsBacked (ensure now spec settings answer) w plain h =
      ensure-IsBacked now spec settings answer w plain h
  step-IsBacked reset w plain h = λ e. ground arith

  run-IsBacked :
      (steps : List AuthStep) (w : AuthWorld)
      → All IsPlainStep steps
      → IsBacked w
      → IsBacked (run steps w)
  run-IsBacked [] w plain h = h
  run-IsBacked (s ∷ steps) w (p, plain) h =
      run-IsBacked steps (step s w) plain (step-IsBacked s w p h)

  -- After any calls and resets from the start of the plugin, whatever the host answered: where the
  -- executor is enabled and a call reports no error, the record that the host took last is the
  -- marshalled record of that provider and these settings, also where the call was skipped. No
  -- part of a record holds a NUL.
  pub ensure_auth_record-auth_record :
      (steps : List AuthStep) (now : Text) (spec : ProviderSpec) (settings : PluginSettings)
      (answer : Option Text)
      → All IsPlainStep steps
      → IsPlain spec settings
      → settings.executor_enabled ≡ true
      → (ensure_auth_record marshal now spec settings answer (run steps initial)).0 ≡ none
      → last_accepted
          (ensure_auth_record marshal now spec settings answer (run steps initial)).1.calls
        ≡ auth_record (auth_parts spec settings)
  unfolding ensure_auth_record auth_provider
  ensure_auth_record-auth_record steps now spec settings answer plain p on =
      rw on
        (enabled-IsSaved now spec settings answer (run steps initial) p
          (run-IsBacked steps initial plain (λ e. ground arith))).saved
