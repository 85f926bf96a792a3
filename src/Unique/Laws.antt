-- ===== src/Unique/Laws.antt =====
-- The de-duplicating loop keeps every key once, and a second run changes nothing.
use agy_identity_bridge.Text.Equality.{==_refl}
use agy_identity_bridge.Base.{◌++◌}
use agy_identity_bridge.Base.{◌||◌}
use agy_identity_bridge.Base.{◌≡◌, refl, ◌≢◌, true, false, List, [], ◌∷◌, map, arith, is_nil, All}
use agy_identity_bridge.Text.{Text}
use agy_identity_bridge.Unique.{mem, unique_loop}

-- No value of the list has a key in `seen`, or the key of a later value.
module _ (key : Text → Text) where
  abbrev pub HasFreshKeys : List Text → List Text → Type 0
  HasFreshKeys seen [] = Unit
  HasFreshKeys seen (v ∷ vs) = (mem (key v) seen ≡ false) × HasFreshKeys (key v ∷ seen) vs

module _ (clean key : Text → Text) where
  -- What the loop returns: cleaned values, none blank, all with different keys.
  abbrev pub IsUnique : List Text → List Text → Type 0
  IsUnique seen vs = All (λ v. (clean v ≡ v) × (v ≢ [])) vs × HasFreshKeys key seen vs

  module _ (clean_idem : (v : Text) → clean (clean v) ≡ clean v) where
    pub unique_loop-IsUnique :
        (seen values : List Text) → IsUnique seen (unique_loop clean key seen values)
    unfolding unique_loop
    unique_loop-IsUnique seen [] = (tt, tt)
    unique_loop-IsUnique seen (v ∷ vs) = ground (
      arith,
      clean_idem v,
      unique_loop-IsUnique seen vs,
      unique_loop-IsUnique (key (clean v) ∷ seen) vs,
    )

  pub unique_loop_of_IsUnique :
      (seen values : List Text) → IsUnique seen values → unique_loop clean key seen values ≡ values
  unfolding unique_loop
  unique_loop_of_IsUnique seen [] h = refl
  unique_loop_of_IsUnique seen (v ∷ vs) ((c, cs), (f, fs)) =
      ground (arith, c.0, c.1, unique_loop_of_IsUnique (key v ∷ seen) vs (cs, fs))

  -- The value adds nothing after `seen` and `values`: it is blank, or its key is known.
  abbrev pub IsKnown : Text → List Text → List Text → Type 0
  IsKnown v seen values =
      (is_nil (clean v) || mem (key (clean v)) seen || mem (key (clean v)) (map key values)) ≡ true

  unique_loop-concat-IsKnown :
      (v : Text) (seen values : List Text)
      → IsKnown v seen (unique_loop clean key seen (values ++ v ∷ []))
  unfolding unique_loop mem
  unique_loop-concat-IsKnown v seen [] = ground (arith, ==_refl (key (clean v)))
  unique_loop-concat-IsKnown v seen (w ∷ ws) = ground (
    arith,
    unique_loop-concat-IsKnown v seen ws,
    unique_loop-concat-IsKnown v (key (clean w) ∷ seen) ws,
  )

  unique_loop-concat_of_IsKnown :
      (v : Text) (seen values : List Text)
      → IsUnique seen values
      → IsKnown v seen values
      → unique_loop clean key seen (values ++ v ∷ []) ≡ values
  unfolding unique_loop mem
  unique_loop-concat_of_IsKnown v seen [] u k = ground arith
  unique_loop-concat_of_IsKnown v seen (w ∷ ws) ((c, cs), (f, fs)) k =
      ground (arith, c.0, c.1, unique_loop-concat_of_IsKnown v (key w ∷ seen) ws (cs, fs))

  -- Adding the last value once more, to what the loop returned, changes nothing.
  pub unique_loop-concat :
      ((v : Text) → clean (clean v) ≡ clean v)
      → (v : Text) (values : List Text)
      → unique_loop clean key [] (unique_loop clean key [] (values ++ v ∷ []) ++ v ∷ [])
        ≡ unique_loop clean key [] (values ++ v ∷ [])
  unique_loop-concat h v values =
      unique_loop-concat_of_IsKnown v [] _ (unique_loop-IsUnique h [] _)
        (unique_loop-concat-IsKnown v [] values)

  pub unique_loop_idem :
      ((v : Text) → clean (clean v) ≡ clean v)
      → (seen values : List Text)
      → unique_loop clean key seen (unique_loop clean key seen values)
        ≡ unique_loop clean key seen values
  unique_loop_idem h seen values =
      unique_loop_of_IsUnique seen _ (unique_loop-IsUnique h seen values)
