-- ===== src/Text/Prefix.antt =====
-- What the tests for a prefix, a suffix and a substring mean.
use agy_identity_bridge.Base.{
  true, [], ◌∷◌, ◌++◌, ◌≡◌, refl, ap, ap₂, ◌↔◌, inl, inr, arith, length, drop, Bool-cases,
  drop-append, length-map,
}
use agy_identity_bridge.Text.{Text, has_prefix, contains, trim_prefix, lower, to_lower}

pub has_prefix-append : (p r : Text) → has_prefix (p ++ r) p ≡ true
unfolding has_prefix
has_prefix-append [] r = refl
has_prefix-append (c ∷ p) r = ground (arith, has_prefix-append p r)

pub has_prefix→append : (s p : Text) → has_prefix s p ≡ true → s ≡ p ++ drop (length p) s
unfolding has_prefix
has_prefix→append s [] h = refl
has_prefix→append [] (d ∷ p) h = cc
has_prefix→append (c ∷ s) (d ∷ p) h = ap₂ ◌∷◌ (ground arith) (has_prefix→append s p (ground arith))

pub has_prefix_iff : (s p : Text) → (has_prefix s p ≡ true) ↔ ((r : Text) × (s ≡ p ++ r))
has_prefix_iff s p =
    (λ h. (drop (length p) s, has_prefix→append s p h), λ (r, e). rw e (has_prefix-append p r))

pub trim_prefix-append : (p r : Text) → trim_prefix (p ++ r) p ≡ r
unfolding trim_prefix
trim_prefix-append p r = rw (has_prefix-append p r, drop-append p r)

-- Lower-casing keeps lengths, so a prefix found in lower case can be cut off the text itself.
pub has_prefix-to_lower :
    (s p : Text) → has_prefix s p ≡ true → has_prefix (to_lower s) (to_lower p) ≡ true
unfolding has_prefix to_lower
has_prefix-to_lower s [] h = refl
has_prefix-to_lower [] (d ∷ p) h = cc
has_prefix-to_lower (c ∷ s) (d ∷ p) h = ground (arith, has_prefix-to_lower s p)

pub length-to_lower : (s : Text) → length (to_lower s) ≡ length s
unfolding to_lower
length-to_lower s = length-map lower s

-- `contains` finds the pattern at some place.
pub contains→append :
    (s p : Text) → contains s p ≡ true → (a : Text) × (b : Text) × (s ≡ a ++ (p ++ b))
unfolding contains
contains→append [] [] h = ([], [], refl)
contains→append [] (c ∷ p) h = cc
contains→append (c ∷ s) p h = elim (Bool-cases (has_prefix (c ∷ s) p)) [
  | inl here ↦ ([], drop (length p) (c ∷ s), has_prefix→append (c ∷ s) p here)
  | inr later ↦ let (a, b, e) = contains→append s p (rw later at h) in (c ∷ a, b, ap (◌∷◌ c) e)
]

pub contains-append : (a p b : Text) → contains (a ++ (p ++ b)) p ≡ true
unfolding contains
contains-append [] [] [] = refl
contains-append [] [] (c ∷ b) = ground (arith, has_prefix-append [] (c ∷ b))
contains-append [] (c ∷ p) b = ground (arith, has_prefix-append (c ∷ p) b)
contains-append (c ∷ a) p b = ground (arith, contains-append a p b)

pub contains_iff :
    (s p : Text) → (contains s p ≡ true) ↔ ((a : Text) × (b : Text) × (s ≡ a ++ (p ++ b)))
contains_iff s p = (contains→append s p, λ (a, b, e). rw e (contains-append a p b))
