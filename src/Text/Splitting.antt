-- ===== src/Text/Splitting.antt =====
-- Splitting at a separator, and joining again.
use agy_identity_bridge.Base.{
  ℕ, ◌≡◌, refl, sym, ap, ap₂, ◌∙◌, ◌≢◌, Bool, true, false, not, List, [], ◌∷◌, ◌++◌, append-nil,
  arith, eqb, length, drop, all, drop-append, All, All-append,
}
use agy_identity_bridge.Text.{Text, split_step, split, join}

module _ (sep : ℕ) where
  abbrev pub IsFree : Text → Type 0
  IsFree s = All (λ c. eqb c sep ≡ false) s

  split_step-IsFree : (c : ℕ) (ws : List Text) → All IsFree ws → All IsFree (split_step sep c ws)
  split_step-IsFree c [] h = ground arith
  split_step-IsFree c (w ∷ ws) h = ground arith

  -- No part holds a separator.
  pub split-IsFree : (s : Text) → All IsFree (split sep s)
  unfolding split
  split-IsFree [] = (tt, tt)
  split-IsFree (c ∷ s) = split_step-IsFree c (split sep s) (split-IsFree s)

  split_step-All :
      (P : ℕ → Type 0) (c : ℕ) (ws : List Text)
      → P c
      → All (All P) ws
      → All (All P) (split_step sep c ws)
  split_step-All P c [] p h = ground arith
  split_step-All P c (w ∷ ws) p h = ground arith

  pub split-All : (P : ℕ → Type 0) (s : Text) → All P s → All (All P) (split sep s)
  unfolding split
  split-All P [] h = (tt, tt)
  split-All P (c ∷ s) (p, h) = split_step-All P c (split sep s) p (split-All P s h)

  pub split_of_IsFree : (s : Text) → IsFree s → split sep s ≡ s ∷ []
  unfolding split
  split_of_IsFree [] h = refl
  split_of_IsFree (c ∷ s) (p, h) = rw (split_of_IsFree s h) (rw p)

  pub split-ne-nil : (s : Text) → split sep s ≢ []
  unfolding split
  split-ne-nil [] h = cc
  split-ne-nil (c ∷ s) h = go (split sep s) h
    where
      go : (ws : List Text) → split_step sep c ws ≢ []
      go [] e = ground arith
      go (w ∷ ws) e = ground arith

  join-split_step :
      (c : ℕ) (ws : List Text)
      → ws ≢ []
      → join (sep ∷ []) (split_step sep c ws) ≡ c ∷ join (sep ∷ []) ws
  unfolding join
  join-split_step c [] h = absurd (h refl)
  join-split_step c (w ∷ []) h = ground arith
  join-split_step c (w ∷ v ∷ ws) h = ground arith

  pub join-split : (s : Text) → join (sep ∷ []) (split sep s) ≡ s
  unfolding split
  join-split [] = unfold join in refl
  join-split (c ∷ s) = join-split_step c (split sep s) (split-ne-nil s) ∙ ap (◌∷◌ c) (join-split s)

module _ (sep : ℕ) where
  split-append_free :
      (w s : Text) (v : Text) (vs : List Text)
      → IsFree sep w
      → split sep s ≡ v ∷ vs
      → split sep (w ++ s) ≡ (w ++ v) ∷ vs
  unfolding split
  split-append_free [] s v vs f e = e
  split-append_free (c ∷ w) s v vs (p, f) e = rw (split-append_free w s v vs f e) (rw p)

  -- Splitting undoes joining where no part holds the separator.
  pub split-join :
      (w : Text) (ws : List Text)
      → IsFree sep w
      → All (IsFree sep) ws
      → split sep (join (sep ∷ []) (w ∷ ws)) ≡ w ∷ ws
  unfolding join
  split-join w [] f h = split_of_IsFree sep w f
  split-join w (v ∷ ws) f (g, h) =
      split-append_free w (sep ∷ join (sep ∷ []) (v ∷ ws)) [] (v ∷ ws) f
        (split-sep (join (sep ∷ []) (v ∷ ws)) v ws (split-join v ws g h))
      ∙ ap (λ u. u ∷ v ∷ ws) (append-nil w)
    where
      split-sep :
          (s u : Text) (us : List Text) → split sep s ≡ u ∷ us → split sep (sep ∷ s) ≡ [] ∷ u ∷ us
      split-sep s u us e = unfold split in rw e (ground arith)

-- A literal that holds no separator, as a test.
abbrev pub is_free : ℕ → Text → Bool
is_free sep s = all (λ c. not (eqb c sep)) s

pub is_free→IsFree : (sep : ℕ) (s : Text) → is_free sep s ≡ true → IsFree sep s
is_free→IsFree sep [] h = tt
is_free→IsFree sep (c ∷ s) h = (ground arith, is_free→IsFree sep s (ground arith))

pub append_cancel : (a x y : Text) → a ++ x ≡ a ++ y → x ≡ y
append_cancel a x y e = sym (drop-append a x) ∙ ap (drop (length a)) e ∙ drop-append a y

-- Labels in front of values.
abbrev pub tagged : List Text → List Text → List Text
tagged [] values = []
tagged (_ ∷ _) [] = []
tagged (tag ∷ tags) (value ∷ values) = (tag ++ value) ∷ tagged tags values

pub tagged-injective :
    (tags xs ys : List Text)
    → length xs ≡ length tags
    → length ys ≡ length tags
    → tagged tags xs ≡ tagged tags ys
    → xs ≡ ys
tagged-injective [] [] [] h k e = refl
tagged-injective [] (x ∷ xs) ys h k e = absurd (omega arith)
tagged-injective [] [] (y ∷ ys) h k e = absurd (omega arith)
tagged-injective (t ∷ tags) [] ys h k e = absurd (omega arith)
tagged-injective (t ∷ tags) (x ∷ xs) [] h k e = absurd (omega arith)
tagged-injective (t ∷ tags) (x ∷ xs) (y ∷ ys) h k e =
    ap₂ ◌∷◌ (append_cancel t x y cc) (tagged-injective tags xs ys (omega arith) (omega arith) cc)

pub tagged-IsFree :
    (sep : ℕ) (tags values : List Text)
    → all (is_free sep) tags ≡ true
    → All (IsFree sep) values
    → All (IsFree sep) (tagged tags values)
tagged-IsFree sep [] values h k = tt
tagged-IsFree sep (t ∷ tags) [] h k = tt
tagged-IsFree sep (t ∷ tags) (v ∷ values) h (f, k) = (
  All-append _ t v (is_free→IsFree sep t (ground arith)) f,
  tagged-IsFree sep tags values (ground arith) k,
)
