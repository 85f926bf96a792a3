-- ===== src/Value/Order.antt =====
-- The order in which Go's `range` visits a map decides a lookup only where two keys normalise alike.
use agy_identity_bridge.Value.{or_else}
use agy_identity_bridge.Value.{map_value_by_normalized_key}
use agy_identity_bridge.Value.{map_value}
use agy_identity_bridge.Base.{sym}
use agy_identity_bridge.Base.{ap₂}
use agy_identity_bridge.Base.{ap}
use agy_identity_bridge.Base.{List}
use agy_identity_bridge.Base.{subst}
use agy_identity_bridge.Value.{Value}
use mathlib.Core.List.{Permᴰ}
use agy_identity_bridge.Base.{◌∙◌}
use agy_identity_bridge.Base.{◌≡◌, refl, ◌≢◌, none, [], ◌∷◌, arith, All}
use agy_identity_bridge.Text.{Text}
use agy_identity_bridge.Text.Equality.{==_iff}
use agy_identity_bridge.Value.{Map, normalized_map_key, find_normalized}

-- The key `target` stands for at most one entry.
abbrev pub Absent : Text → Map → Type 0
Absent target raw = All (λ (key, _). normalized_map_key key ≢ target) raw

abbrev pub HasDistinctKeys : Map → Type 0
HasDistinctKeys [] = Unit
HasDistinctKeys ((key, _) ∷ raw) = Absent (normalized_map_key key) raw × HasDistinctKeys raw

find_normalized-Absent :
    (target : Text) (raw : Map) → Absent target raw → find_normalized target raw ≡ none
unfolding find_normalized
find_normalized-Absent target [] h = refl
find_normalized-Absent target ((key, v) ∷ raw) h =
    ground (arith, ==_iff (normalized_map_key key) target, find_normalized-Absent target raw h.1)

pub All-perm {ℓ κ} :
    {A : Type ℓ} (P : A → Type κ) {xs ys : List A} → Permᴰ xs ys → All P xs → All P ys
All-perm P Permᴰ.nil h = tt
All-perm P (Permᴰ.cons e d) (p, h) = (subst P e p, All-perm P d h)
All-perm P (Permᴰ.swap e f) (p, (q, h)) = (subst P f q, (subst P e p, h))
All-perm P (Permᴰ.trans d d') h = All-perm P d' (All-perm P d h)

abbrev key_of : Text × Value → Text
key_of (key, _) = normalized_map_key key

perm-HasDistinctKeys : {xs ys : Map} → Permᴰ xs ys → HasDistinctKeys xs → HasDistinctKeys ys
perm-HasDistinctKeys Permᴰ.nil h = tt
perm-HasDistinctKeys (Permᴰ.cons {a} {b} {l₂} e d) (p, h) =
    (subst (λ x. Absent (key_of x) l₂) e (All-perm _ d p), perm-HasDistinctKeys d h)
perm-HasDistinctKeys (Permᴰ.swap {a} {b} {a'} {b'} {l} e f) ((ne, p), (q, h)) = (
  ((λ same. ne (ap key_of f ∙ sym same ∙ sym (ap key_of e))), subst (λ x. Absent (key_of x) l) f q),
  (subst (λ x. Absent (key_of x) l) e p, h),
)
perm-HasDistinctKeys (Permᴰ.trans d d') h = perm-HasDistinctKeys d' (perm-HasDistinctKeys d h)

find_normalized-swap :
    (target : Text) (a b : Text × Value) (l : Map)
    → key_of b ≢ key_of a
    → find_normalized target (a ∷ b ∷ l) ≡ find_normalized target (b ∷ a ∷ l)
unfolding find_normalized
find_normalized-swap target (a, v) (b, w) l ne =
    ground (arith, ==_iff (normalized_map_key a) target, ==_iff (normalized_map_key b) target)

find_normalized-cons :
    (target : Text) (a : Text × Value) (l m : Map)
    → find_normalized target l ≡ find_normalized target m
    → find_normalized target (a ∷ l) ≡ find_normalized target (a ∷ m)
unfolding find_normalized
find_normalized-cons target (a, v) l m e = ground arith

find_normalized-perm :
    {xs ys : Map} (target : Text)
    → Permᴰ xs ys
    → HasDistinctKeys xs
    → find_normalized target xs ≡ find_normalized target ys
find_normalized-perm target Permᴰ.nil h = refl
find_normalized-perm target (Permᴰ.cons {a} {b} {l₂} e d) (_, h) =
    find_normalized-cons target a _ _ (find_normalized-perm target d h)
    ∙ ap (λ x. find_normalized target (x ∷ l₂)) e
find_normalized-perm target (Permᴰ.swap {a} {b} {a'} {b'} {l} e f) ((ne, _), _) =
    find_normalized-swap target a b l ne ∙ ap₂ (λ x y. find_normalized target (x ∷ y ∷ l)) f e
find_normalized-perm target (Permᴰ.trans d d') h =
    find_normalized-perm target d h ∙ find_normalized-perm target d' (perm-HasDistinctKeys d h)

-- If no two keys of a map normalise alike, the order in which Go visits the map decides nothing:
-- every lookup by a list of accepted spellings gives one answer.
pub map_value-perm :
    (keys : List Text) {xs ys : Map}
    → Permᴰ xs ys
    → HasDistinctKeys xs
    → map_value xs keys ≡ map_value ys keys
unfolding map_value map_value_by_normalized_key
map_value-perm [] d h = refl
map_value-perm (key ∷ keys) d h =
    ap₂ or_else (find_normalized-perm (normalized_map_key key) d h) (map_value-perm keys d h)
