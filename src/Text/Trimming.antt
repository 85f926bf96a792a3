-- ===== src/Text/Trimming.antt =====
-- Laws of the trims: they are idempotent, and lower-casing goes through `trim_space`.
use agy_identity_bridge.Base.{◌≢◌}
use agy_identity_bridge.Base.{◌++◌}
use agy_identity_bridge.Base.{sym}
use agy_identity_bridge.Base.{if_cases}
use agy_identity_bridge.Base.{ℕ, Bool, false, [], ◌∷◌, map, ◌≡◌, refl, ap, ◌∙◌, arith, All}
use agy_identity_bridge.Text.{
  Text, is_space, trim_left, push_unless, trim_right, trim, trim_space, lower, to_lower,
}

module _ (p : ℕ → Bool) where
  abbrev pub NoHead : Text → Type 0
  NoHead [] = Unit
  NoHead (c ∷ s) = p c ≡ false

  trim_left-NoHead : (s : Text) → NoHead (trim_left p s)
  unfolding trim_left
  trim_left-NoHead [] = tt
  trim_left-NoHead (c ∷ s) = ground (arith, trim_left-NoHead s)

  trim_left_of_NoHead : (s : Text) → NoHead s → trim_left p s ≡ s
  unfolding trim_left
  trim_left_of_NoHead [] h = refl
  trim_left_of_NoHead (c ∷ s) h = rw h

  trim_right-NoHead : (s : Text) → NoHead s → NoHead (trim_right p s)
  unfolding trim_right
  trim_right-NoHead [] h = tt
  trim_right-NoHead (c ∷ s) h = ground arith

  trim_right-push_unless :
      (c : ℕ) (s : Text) → trim_right p s ≡ s → trim_right p (push_unless p c s) ≡ push_unless p c s
  unfolding trim_right
  trim_right-push_unless c [] h = ground arith
  trim_right-push_unless c (d ∷ s) h = ap (push_unless p c) h

  pub trim_right_idem : (s : Text) → trim_right p (trim_right p s) ≡ trim_right p s
  unfolding trim_right
  trim_right_idem [] = refl
  trim_right_idem (c ∷ s) = trim_right-push_unless c (trim_right p s) (trim_right_idem s)

  pub trim_idem : (s : Text) → trim p (trim p s) ≡ trim p s
  unfolding trim
  trim_idem s =
      ap (trim_right p)
        (trim_left_of_NoHead _ (trim_right-NoHead (trim_left p s) (trim_left-NoHead s)))
      ∙ trim_right_idem (trim_left p s)

  -- A text with no code point to trim is left alone.
  trim_right_of_All : (s : Text) → All (λ c. p c ≡ false) s → trim_right p s ≡ s
  unfolding trim_right
  trim_right_of_All [] h = refl
  trim_right_of_All (c ∷ []) h = rw h.0
  trim_right_of_All (c ∷ d ∷ s) h = ap (push_unless p c) (trim_right_of_All (d ∷ s) h.1)

  pub trim_of_All : (s : Text) → All (λ c. p c ≡ false) s → trim p s ≡ s
  unfolding trim
  trim_of_All [] h = trim_right_of_All [] tt
  trim_of_All (c ∷ s) h =
      ap (trim_right p) (trim_left_of_NoHead (c ∷ s) h.0) ∙ trim_right_of_All (c ∷ s) h

  trim_left-map :
      (f : ℕ → ℕ)
      → ((c : ℕ) → p (f c) ≡ p c)
      → (s : Text) → trim_left p (map f s) ≡ map f (trim_left p s)
  unfolding trim_left
  trim_left-map f h [] = refl
  trim_left-map f h (c ∷ s) = ground (arith, h c, trim_left-map f h s)

  push_unless-map :
      (f : ℕ → ℕ) (c : ℕ) (s : Text)
      → p (f c) ≡ p c
      → push_unless p (f c) (map f s) ≡ map f (push_unless p c s)
  push_unless-map f c [] h = ground arith
  push_unless-map f c (d ∷ s) h = refl

  trim_right-map :
      (f : ℕ → ℕ)
      → ((c : ℕ) → p (f c) ≡ p c)
      → (s : Text) → trim_right p (map f s) ≡ map f (trim_right p s)
  unfolding trim_right
  trim_right-map f h [] = refl
  trim_right-map f h (c ∷ s) =
      ap (push_unless p (f c)) (trim_right-map f h s) ∙ push_unless-map f c (trim_right p s) (h c)

  pub trim-map :
      (f : ℕ → ℕ) → ((c : ℕ) → p (f c) ≡ p c) → (s : Text) → trim p (map f s) ≡ map f (trim p s)
  unfolding trim
  trim-map f h s = ap (trim_right p) (trim_left-map f h s) ∙ trim_right-map f h (trim_left p s)

pub trim_space_idem : (s : Text) → trim_space (trim_space s) ≡ trim_space s
unfolding trim_space
trim_space_idem s = trim_idem is_space s

pub is_space-lower : (c : ℕ) → is_space (lower c) ≡ is_space c
unfolding is_space lower
is_space-lower c = ground arith

pub trim_space-to_lower : (s : Text) → trim_space (to_lower s) ≡ to_lower (trim_space s)
unfolding trim_space to_lower
trim_space-to_lower s = trim-map is_space lower is_space-lower s

pub trim_space_of_All : (s : Text) → All (λ c. is_space c ≡ false) s → trim_space s ≡ s
unfolding trim_space
trim_space_of_All s h = trim_of_All is_space s h

pub trim_space-nil : trim_space [] ≡ []
unfolding trim_space
trim_space-nil = refl

module _ {ℓ} (P : ℕ → Type ℓ) (p : ℕ → Bool) where
  trim_left-All : (s : Text) → All P s → All P (trim_left p s)
  unfolding trim_left
  trim_left-All [] h = tt
  trim_left-All (c ∷ s) h = if_cases (All P) (p c) _ _ (λ _. trim_left-All s h.1) (λ _. h)

  push_unless-All : (c : ℕ) (s : Text) → P c → All P s → All P (push_unless p c s)
  push_unless-All c [] q h = if_cases (All P) (p c) _ _ (λ _. tt) (λ _. (q, tt))
  push_unless-All c (d ∷ s) q h = (q, h)

  pub trim_right-All : (s : Text) → All P s → All P (trim_right p s)
  unfolding trim_right
  trim_right-All [] h = tt
  trim_right-All (c ∷ s) h = push_unless-All c (trim_right p s) h.0 (trim_right-All s h.1)

  pub trim-All : (s : Text) → All P s → All P (trim p s)
  unfolding trim
  trim-All s h = trim_right-All (trim_left p s) (trim_left-All s h)

trim_right-cons-ne : (p : ℕ → Bool) (c : ℕ) (s : Text) → p c ≡ false → trim_right p (c ∷ s) ≢ []
unfolding trim_right
trim_right-cons-ne p c s h e = go (trim_right p s) e
  where
    go : (t : Text) → push_unless p c t ≢ []
    go [] e = ground arith
    go (d ∷ t) e = cc

-- A text that begins with a code point that is no space is not blank.
pub trim_space-cons-ne : (c : ℕ) (s : Text) → is_space c ≡ false → trim_space (c ∷ s) ≢ []
unfolding trim_space trim
trim_space-cons-ne c s h e =
    trim_right-cons-ne is_space c s h
      (sym (ap (trim_right is_space) (trim_left_of_NoHead is_space (c ∷ s) h)) ∙ e)

trim_right-append :
    (p : ℕ → Bool) (tag s : Text)
    → All (λ c. p c ≡ false) tag
    → trim_right p s ≡ s
    → trim_right p (tag ++ s) ≡ tag ++ s
unfolding trim_right
trim_right-append p [] s h e = e
trim_right-append p (c ∷ tag) s (n, h) e =
    ap (push_unless p c) (trim_right-append p tag s h e) ∙ go (tag ++ s)
  where
    go : (t : Text) → push_unless p c t ≡ c ∷ t
    go [] = rw n
    go (d ∷ t) = refl

trim_right_of_trim : (p : ℕ → Bool) (s : Text) → trim p s ≡ s → trim_right p s ≡ s
unfolding trim
trim_right_of_trim p s e = ap (trim_right p) (sym e) ∙ trim_right_idem p (trim_left p s) ∙ e

-- A trimmed value behind a label without spaces is trimmed.
pub trim_space-tagged :
    (c : ℕ) (tag s : Text)
    → All (λ c. is_space c ≡ false) (c ∷ tag)
    → trim_space s ≡ s
    → trim_space (c ∷ tag ++ s) ≡ c ∷ tag ++ s
unfolding trim_space trim
trim_space-tagged c tag s h e =
    ap (trim_right is_space) (trim_left_of_NoHead is_space (c ∷ tag ++ s) h.0)
    ∙ trim_right-append is_space (c ∷ tag) s h (trim_right_of_trim is_space s e)

push_unless-ne : (p : ℕ → Bool) (c : ℕ) (t : Text) → t ≢ [] → push_unless p c t ≡ c ∷ t
push_unless-ne p c [] h = absurd (h refl)
push_unless-ne p c (d ∷ t) h = refl

append-ne-nil : (a s : Text) → s ≢ [] → a ++ s ≢ []
append-ne-nil [] s h e = h e
append-ne-nil (c ∷ a) s h e = cc

trim_right-append_of_ne :
    (p : ℕ → Bool) (a s : Text) → s ≢ [] → trim_right p s ≡ s → trim_right p (a ++ s) ≡ a ++ s
unfolding trim_right
trim_right-append_of_ne p [] s n e = e
trim_right-append_of_ne p (c ∷ a) s n e =
    ap (push_unless p c) (trim_right-append_of_ne p a s n e)
    ∙ push_unless-ne p c (a ++ s) (append-ne-nil a s n)

-- A trimmed value that is not blank is trimmed behind any label that begins with no space.
pub trim_space-label :
    (c : ℕ) (label s : Text)
    → is_space c ≡ false
    → s ≢ []
    → trim_space s ≡ s
    → trim_space (c ∷ label ++ s) ≡ c ∷ label ++ s
unfolding trim_space trim
trim_space-label c label s h n e =
    ap (trim_right is_space) (trim_left_of_NoHead is_space (c ∷ label ++ s) h)
    ∙ trim_right-append_of_ne is_space (c ∷ label) s n (trim_right_of_trim is_space s e)
