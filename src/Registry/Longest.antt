-- ===== src/Registry/Longest.antt =====
-- The longest prefix wins.
use agy_identity_bridge.Base.{
  ℕ, ◌≤◌, ◌<◌, ◌≡◌, refl, subst, ◌≢◌, ◌⊎◌, inl, inr, Bool, true, false, not, ◌&&◌, Option, none,
  some, List, [], ◌∷◌, arith, ltb, if◌then◌else◌, Bool-cases, if_cases, length, is_nil, All,
}
use agy_identity_bridge.Text.{Text}
use mathlib.Core.List.{Memᴰ}
use agy_identity_bridge.Registry.{
  MatchedProviderRecord, record_prefix, owns, Best, is_longer, better, best_record, found,
  normal_model, first_found, resolve_record_by_model,
}

bound : Best → ℕ
bound none = 0
bound (some (r, n)) = n

both_left : {a : Bool} (b : Bool) → (a && b) ≡ true → a ≡ true
both_left b h = ground arith

-- What a search for one model says of its answer.
pub IsLongest : Text → List MatchedProviderRecord → Option MatchedProviderRecord → Type 0
IsLongest model records none = All (λ s. owns model s ≡ false) records
IsLongest model records (some r) =
    Memᴰ r records
    × (owns model r ≡ true)
    × All (λ s. owns model s ≡ true → length (record_prefix s) ≤ length (record_prefix r)) records

module _ (model : Text) where
  -- The best is a record of the list, with the length of its prefix, or it is the one before.
  Comes : Best → List MatchedProviderRecord → Best → Type 0
  Comes best records result =
      (result ≡ best)
      ⊎ ((r : MatchedProviderRecord) × Memᴰ r records
          × (owns model r ≡ true)
          × (result ≡ some (r, length (record_prefix r))))

  better-bound :
      (best : Best) (r : MatchedProviderRecord)
      → (bound best ≤ bound (better model best r))
        × (owns model r ≡ true → length (record_prefix r) ≤ bound (better model best r))
  unfolding bound
  better-bound none r = ground arith
  better-bound (some (s, n)) r = ground arith

  best_record-bound :
      (best : Best) (records : List MatchedProviderRecord)
      → (bound best ≤ bound (best_record model best records))
        × All
            (λ s.
              owns model s ≡ true
              → length (record_prefix s) ≤ bound (best_record model best records))
            records
  unfolding best_record
  best_record-bound best [] = (omega arith, tt)
  best_record-bound best (r ∷ records) =
      let (grows, covers) = better-bound best r in
      let (later, rest) = best_record-bound (better model best r) records in
      (omega arith, ((λ o. let c = covers o in omega arith), rest))

  best_record-Comes :
      (best : Best) (records : List MatchedProviderRecord)
      → Comes best records (best_record model best records)
  unfolding best_record Comes
  best_record-Comes best [] = inl refl
  best_record-Comes best (r ∷ records) = elim (best_record-Comes (better model best r) records) [
    | inl same ↦
        if_cases
          (λ b.
            best_record model (better model best r) records ≡ b
            → Comes best (r ∷ records) (best_record model (better model best r) records))
          (owns model r && is_longer (length (record_prefix r)) best)
          (some (r, length (record_prefix r))) best
          (λ here e. inr (r, Memᴰ.head refl, both_left _ here, e)) (λ _ e. inl e) same
    | inr (s, m, o, e) ↦ inr (s, Memᴰ.tail m, o, e)
  ]

  pos : (s : Text) → not (is_nil s) ≡ true → 0 < length s
  pos [] h = ground (arith, h)
  pos (c ∷ s) h = omega arith

  owns-length : (r : MatchedProviderRecord) → owns model r ≡ true → 0 < length (record_prefix r)
  owns-length r h = pos (record_prefix r) (both_left _ h)

  none_owns :
      (records : List MatchedProviderRecord)
      → All (λ s. owns model s ≡ true → length (record_prefix s) ≤ 0) records
      → All (λ s. owns model s ≡ false) records
  none_owns [] h = tt
  none_owns (r ∷ records) (h, k) = (
    elim (Bool-cases (owns model r)) [
      | inl o ↦ (let l = h o in let n = owns-length r o in absurd (omega arith))
      | inr o ↦ o
    ],
    none_owns records k,
  )

  longest :
      (records : List MatchedProviderRecord) (b : Best)
      → best_record model none records ≡ b
      → All (λ s. owns model s ≡ true → length (record_prefix s) ≤ bound b) records
  longest records b e =
      subst (λ b. All (λ s. owns model s ≡ true → length (record_prefix s) ≤ bound b) records) e
        (best_record-bound none records).1

  best_record-IsLongest :
      (records : List MatchedProviderRecord)
      → IsLongest model records (found (best_record model none records))
  unfolding IsLongest Comes bound
  best_record-IsLongest records = elim (best_record-Comes none records) [
    | inl e ↦ rw e (none_owns records (longest records none e))
    | inr (r, m, o, e) ↦ rw e (
        let n : ltb 0 (length (record_prefix r)) ≡ true =
          (let l = owns-length r o in ground arith) in
        rw n (m, o, longest records (some (r, length (record_prefix r))) e))
  ]

-- What `resolveRecordByModel` says of its models: the first that is not blank and that some
-- record owns decides.
pub Resolves : List MatchedProviderRecord → List Text → Option MatchedProviderRecord → Type 0
Resolves records [] answer = answer ≡ none
Resolves records (model ∷ models) answer =
    ((normal_model model ≢ [])
      × (r : MatchedProviderRecord) × (answer ≡ some r)
      × IsLongest (normal_model model) records (some r))
    ⊎ ((normal_model model ≡ []) ⊎ IsLongest (normal_model model) records none)
      × Resolves records models answer

Resolves-step :
    (records : List MatchedProviderRecord) (models : List Text) (m : Text)
    (here later : Option MatchedProviderRecord)
    → IsLongest m records here
    → Resolves records models later
    → ((m ≢ [])
        × (r : MatchedProviderRecord) × ((if is_nil m then later else first_found here later)
            ≡ some r)
        × IsLongest m records (some r))
      ⊎ ((m ≡ []) ⊎ IsLongest m records none)
        × Resolves records models (if is_nil m then later else first_found here later)
Resolves-step records models [] here later l h = inr (inl refl, h)
Resolves-step records models (c ∷ m) none later l h = inr (inr l, h)
Resolves-step records models (c ∷ m) (some r) later l h = inl ((λ e. cc), r, refl, l)

resolve_record_by_model-nil : (models : List Text) → resolve_record_by_model [] models ≡ none
unfolding resolve_record_by_model
resolve_record_by_model-nil [] = refl
resolve_record_by_model-nil (model ∷ models) = refl

-- The record found for a request has the longest of the prefixes, in lower case and trimmed,
-- that begin the first model with such a record; models that are blank or that no record owns
-- are passed over, and without a match there is no record.
pub resolve_record_by_model-Resolves :
    (records : List MatchedProviderRecord) (models : List Text)
    → Resolves records models (resolve_record_by_model records models)
unfolding resolve_record_by_model Resolves IsLongest
resolve_record_by_model-Resolves records [] = refl
resolve_record_by_model-Resolves [] (model ∷ models) =
    (let h = resolve_record_by_model-Resolves [] models in
      inr (inr tt, subst (Resolves [] models) (resolve_record_by_model-nil models) h))
resolve_record_by_model-Resolves (r ∷ records) (model ∷ models) =
    Resolves-step (r ∷ records) models (normal_model model) _ _
      (best_record-IsLongest (normal_model model) (r ∷ records))
      (resolve_record_by_model-Resolves (r ∷ records) models)
