-- ===== src/Registry/Ring.antt =====
-- A bounded list keeps the newest entries.
use agy_identity_bridge.Base.{
  ℕ, zero, suc, ◌+◌, ◌-◌, ◌≤◌, ◌≡◌, refl, sym, ap, ◌∙◌, inl, inr, List, [], ◌∷◌, ◌++◌, reverse,
  append-nil, append_assoc, arith, ltb, if◌then◌else◌, Bool-cases, length, is_nil, drop,
  length-append, length-drop,
}
use agy_identity_bridge.Text.{Text, trim_space}
use agy_identity_bridge.Registry.{
  append_bounded, DashboardEvent, max_dashboard_events, dashboard_event, record_dashboard_event,
  recent_dashboard_events,
}

-- The last `n` entries of a list.
abbrev pub last_of {ℓ} : {A : Type ℓ} → ℕ → List A → List A
last_of n xs = drop (length xs - n) xs

module _ {ℓ} {A : Type ℓ} where
  drop-append_of_le : (n : ℕ) (xs ys : List A) → n ≤ length xs → drop n (xs ++ ys) ≡ drop n xs ++ ys
  drop-append_of_le zero xs ys h = refl
  drop-append_of_le (suc n) [] ys h = absurd (omega arith)
  drop-append_of_le (suc n) (x ∷ xs) ys h = drop-append_of_le n xs ys (omega arith)

  drop-nil : (k : ℕ) → drop {A = A} k [] ≡ []
  drop-nil zero = refl
  drop-nil (suc k) = refl

  cut : (k : ℕ) (xs : List A) → (if ltb 0 k then drop k xs else xs) ≡ drop k xs
  cut zero xs = refl
  cut (suc k) xs = ground arith

  drop-drop : (m n : ℕ) (xs : List A) → drop m (drop n xs) ≡ drop (n + m) xs
  drop-drop m zero xs = let e : m ≡ 0 + m = omega arith in ap (λ k. drop k xs) e
  drop-drop m (suc n) [] = drop-nil m ∙ sym (drop-nil (suc n + m))
  drop-drop m (suc n) (x ∷ xs) =
      let e : suc (n + m) ≡ suc n + m = omega arith in
      drop-drop m n xs ∙ ap (λ k. drop k (x ∷ xs)) e

  append_bounded_last :
      (n : ℕ) (xs : List A) (x : A) → append_bounded n xs x ≡ last_of n (xs ++ x ∷ [])
  unfolding append_bounded
  append_bounded_last n xs x = cut (length (xs ++ x ∷ []) - n) (xs ++ x ∷ [])

  -- Appending to the last `n` entries and cutting again gives the last `n` entries of all.
  pub append_bounded-last_of :
      (n : ℕ) (xs : List A) (x : A) → append_bounded n (last_of n xs) x ≡ last_of n (xs ++ x ∷ [])
  append_bounded-last_of n xs x =
      append_bounded_last n (last_of n xs) x
      ∙ ap (last_of n) (sym (drop-append_of_le (length xs - n) xs (x ∷ []) (omega arith)))
      ∙ drop-drop _ (length xs - n) (xs ++ x ∷ [])
      ∙ ap (λ k. drop k (xs ++ x ∷ []))
          (omega (arith, length-append xs (x ∷ []), length-drop (length xs - n) (xs ++ x ∷ [])))

-- A log call: the time, the level and the message.
abbrev pub Call : Type 0
Call = Text × Text × Text

abbrev pub record_calls : List Call → List DashboardEvent → List DashboardEvent
record_calls [] events = events
record_calls ((now, level, message) ∷ calls) events =
    record_calls calls (record_dashboard_event now level message events)

-- The events of the calls that have a message.
abbrev pub history : List Call → List DashboardEvent
history [] = []
history ((now, level, message) ∷ calls) =
    if is_nil (trim_space message)
    then history calls
    else dashboard_event now level message ∷ history calls

record_calls-last_of :
    (calls : List Call) (past : List DashboardEvent)
    → record_calls calls (last_of max_dashboard_events past)
      ≡ last_of max_dashboard_events (past ++ history calls)
unfolding record_dashboard_event
record_calls-last_of [] past = ap (last_of max_dashboard_events) (sym (append-nil past))
record_calls-last_of ((now, level, message) ∷ calls) past =
    elim (Bool-cases (is_nil (trim_space message))) [
      | inl blank ↦ rw blank (record_calls-last_of calls past)
      | inr text_there ↦ rw text_there (
          let event = dashboard_event now level message in
          ap (record_calls calls) (append_bounded-last_of max_dashboard_events past event)
          ∙ record_calls-last_of calls (past ++ event ∷ [])
          ∙ ap (last_of max_dashboard_events) (append_assoc past (event ∷ []) (history calls)))
    ]

-- After any log calls the status page shows the events of the last eight calls that had a
-- message, the newest first.
pub recent_dashboard_events-record_calls :
    (calls : List Call)
    → recent_dashboard_events (record_calls calls []) ≡ reverse (last_of 8 (history calls))
unfolding recent_dashboard_events
recent_dashboard_events-record_calls calls = ap reverse (record_calls-last_of calls [])
