-- ===== src/Text/Equality.antt =====
-- Laws of `==` and `to_lower`.
use agy_identity_bridge.Base.{ℕ, true, [], ◌∷◌, ◌++◌, ◌≡◌, refl, ap₂, ◌↔◌, arith, map-append}
use agy_identity_bridge.Text.{Text, ◌==◌, lower, to_lower, equal_fold}

pub ==_iff : (a b : Text) → ((a == b) ≡ true) ↔ (a ≡ b)
unfolding ◌==◌
==_iff [] [] = ground arith
==_iff [] (y ∷ b) = ground arith
==_iff (x ∷ a) [] = ground arith
==_iff (x ∷ a) (y ∷ b) = ground (arith, ==_iff a b)

pub ==_refl : (a : Text) → (a == a) ≡ true
==_refl a = (==_iff a a).1 refl

pub ==_sym : (a b : Text) → (a == b) ≡ (b == a)
==_sym a b = ground (arith, ==_iff a b, ==_iff b a)

pub lower_idem : (c : ℕ) → lower (lower c) ≡ lower c
unfolding lower
lower_idem c = ground arith

pub to_lower_idem : (s : Text) → to_lower (to_lower s) ≡ to_lower s
unfolding to_lower
to_lower_idem [] = refl
to_lower_idem (c ∷ s) = ap₂ ◌∷◌ (lower_idem c) (to_lower_idem s)

pub to_lower-append : (s t : Text) → to_lower (s ++ t) ≡ to_lower s ++ to_lower t
unfolding to_lower
to_lower-append s t = map-append lower s t

pub to_lower-eq-nil : (s : Text) → to_lower s ≡ [] → s ≡ []
unfolding to_lower
to_lower-eq-nil [] h = refl
to_lower-eq-nil (c ∷ s) h = cc

pub equal_fold_iff : (a b : Text) → (equal_fold a b ≡ true) ↔ (to_lower a ≡ to_lower b)
unfolding equal_fold
equal_fold_iff a b = ==_iff (to_lower a) (to_lower b)
