-- ===== src/Text.antt =====
-- Go's `strings` functions, as far as the program uses them, on texts as lists of code points.
pub mod Equality
pub mod Trimming
pub mod Prefix
pub mod Splitting
use Prim.Native.Char.{code}
use Prim.Native.String.{String}
use agy_identity_bridge.Base.{
  ℕ, ◌+◌, Bool, true, false, ◌&&◌, ◌||◌, List, [], ◌∷◌, ◌++◌, map, reverse, leb, eqb, if◌then◌else◌,
  length, is_nil, drop,
}

abbrev pub Text : Type 0
Text = List ℕ

-- A string literal of the source. It stays shut in proofs that do not read the literal.
unfoldable pub text : String → Text
text String.[] = []
text (String.◌∷◌ c s) = code c ∷ text s

infix 50 ◌==◌
unfoldable pub ◌==◌ : Text → Text → Bool
[] == [] = true
[] == (_ ∷ _) = false
(_ ∷ _) == [] = false
(x ∷ a) == (y ∷ b) = eqb x y && a == b

-- `unicode.IsSpace`
unfoldable pub is_space : ℕ → Bool
is_space c =
    (leb 9 c && leb c 13)
    || eqb c 32
    || eqb c 0x85
    || eqb c 0xa0
    || eqb c 0x1680
    || (leb 0x2000 c && leb c 0x200a)
    || eqb c 0x2028
    || eqb c 0x2029
    || eqb c 0x202f
    || eqb c 0x205f
    || eqb c 0x3000

-- `strings.TrimLeftFunc`, `strings.TrimRightFunc`, `strings.TrimFunc`
pub trim_left : (ℕ → Bool) → Text → Text
trim_left p [] = []
trim_left p (c ∷ s) = let rest = trim_left p s in if p c then rest else c ∷ s

abbrev pub push_unless : (ℕ → Bool) → ℕ → Text → Text
push_unless p c [] = if p c then [] else c ∷ []
push_unless p c (d ∷ s) = c ∷ d ∷ s

pub trim_right : (ℕ → Bool) → Text → Text
trim_right p [] = []
trim_right p (c ∷ s) = push_unless p c (trim_right p s)

unfoldable pub trim : (ℕ → Bool) → Text → Text
unfolding trim_left trim_right
trim p s = trim_right p (trim_left p s)

unfoldable pub trim_space : Text → Text
unfolding trim is_space
trim_space s = trim is_space s

-- `strings.TrimRight(s, "/")` and `strings.Trim(s, "-")`
unfoldable pub trim_slashes : Text → Text
unfolding trim_right
trim_slashes s = trim_right (λ c. eqb c b'/') s

unfoldable pub trim_dashes : Text → Text
unfolding trim
trim_dashes s = trim (λ c. eqb c b'-') s

-- `unicode.ToLower` on ASCII letters; every other code point stays as it is.
unfoldable pub lower : ℕ → ℕ
lower c = if leb b'A' c && leb c b'Z' then c + 32 else c

unfoldable pub to_lower : Text → Text
unfolding lower
to_lower s = map lower s

-- `strings.EqualFold`
unfoldable pub equal_fold : Text → Text → Bool
unfolding to_lower ◌==◌
equal_fold a b = to_lower a == to_lower b

unfoldable pub has_prefix : Text → Text → Bool
has_prefix s [] = true
has_prefix [] (_ ∷ _) = false
has_prefix (c ∷ s) (d ∷ p) = eqb c d && has_prefix s p

unfoldable pub has_suffix : Text → Text → Bool
unfolding has_prefix
has_suffix s p = has_prefix (reverse s) (reverse p)

unfoldable pub contains : Text → Text → Bool
unfolding has_prefix
contains [] p = is_nil p
contains (c ∷ s) p = has_prefix (c ∷ s) p || contains s p

-- `strings.TrimPrefix`, `strings.TrimSuffix`
unfoldable pub trim_prefix : Text → Text → Text
unfolding has_prefix
trim_prefix s p = if has_prefix s p then drop (length p) s else s

unfoldable pub trim_suffix : Text → Text → Text
unfolding has_suffix
trim_suffix s p = if has_suffix s p then reverse (drop (length p) (reverse s)) else s

-- `strings.Split(s, sep)` at a separator of one code point.
abbrev pub split_step : ℕ → ℕ → List Text → List Text
split_step sep c [] = (if eqb c sep then [] ∷ [] ∷ [] else (c ∷ []) ∷ [])
split_step sep c (w ∷ ws) = if eqb c sep then [] ∷ w ∷ ws else (c ∷ w) ∷ ws

unfoldable pub split : ℕ → Text → List Text
split sep [] = [] ∷ []
split sep (c ∷ s) = split_step sep c (split sep s)

-- `strings.Join`
unfoldable pub join : Text → List Text → Text
join sep [] = []
join sep (w ∷ []) = w
join sep (w ∷ v ∷ ws) = w ++ (sep ++ join sep (v ∷ ws))
