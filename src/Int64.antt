-- ===== src/Int64.antt =====
-- Signed 64-bit integers as bit patterns below 2^64, with Go's decimal parsers.
use agy_identity_bridge.Base.{
  ℕ, ◌+◌, ◌-◌, ◌*◌, ◌%◌, ◌≡◌, refl, ◌⊎◌, inl, inr, Bool, true, false, ◌&&◌, Option, none, some, [],
  ◌∷◌, ltb, leb, eqb, if◌then◌else◌,
}
use agy_identity_bridge.Text.{Text, text}

abbrev pub Int64 : Type 0
Int64 = ℕ

abbrev pub word : ℕ
word = 18446744073709551616

abbrev pub half : ℕ
half = 9223372036854775808

-- `a + b` wraps around.
unfoldable pub add64 : Int64 → Int64 → Int64
add64 a b = (a + b) % word

-- `0 < a` and `a < b` on signed values: the sign bit is flipped, then the patterns are compared.
unfoldable pub is_positive : Int64 → Bool
is_positive a = ltb 0 a && ltb a half

unfoldable pub lt64 : Int64 → Int64 → Bool
lt64 a b = ltb ((a + half) % word) ((b + half) % word)

unfoldable pub max64 : Int64 → Int64 → Int64
unfolding lt64
max64 left right = if lt64 right left then left else right

abbrev pub is_digit : ℕ → Bool
is_digit c = leb b'0' c && leb c b'9'

-- The decimal digits at the front of a text, their value, and what follows.
pub digits : Text → ℕ → (ℕ × Text)
digits [] n = (n, [])
digits (c ∷ s) n =
    let rest = digits s (n * 10 + (c - b'0')) in if is_digit c then rest else (n, c ∷ s)

abbrev starts_digit : Text → Bool
starts_digit [] = false
starts_digit (c ∷ _) = is_digit c

-- An optional sign: whether it is `-`, and what follows.
abbrev signed : Text → (Bool × Text)
signed [] = (false, [])
signed (c ∷ s) = if eqb c b'-' then (true, s) else if eqb c b'+' then (false, s) else (false, c ∷ s)

-- A magnitude with its sign: `inr` holds the nearest value when it is out of range.
abbrev pub in_range : Bool → ℕ → Int64 ⊎ Int64
in_range true n = if leb n half then inl ((word - n) % word) else inr half
in_range false n = if ltb n half then inl n else inr (half - 1)

pub data Parsed : Type 0 where
  bad_syntax : Parsed
  out_of_range : Int64 → ℕ → Text → Parsed
  number : Int64 → Text → Parsed

abbrev parsed : Int64 ⊎ Int64 → ℕ → Text → Parsed
parsed (inl v) n rest = number v rest
parsed (inr v) n rest = out_of_range v n rest

abbrev magnitude : Bool → (ℕ × Text) → Parsed
magnitude negative (n, rest) = parsed (in_range negative n) n rest

abbrev after_sign : (Bool × Text) → Parsed
after_sign (negative, s) = if starts_digit s then magnitude negative (digits s 0) else bad_syntax

parse_prefix : Text → Parsed
parse_prefix s = after_sign (signed s)

-- `fmt.Sscanf(s, "%d", &n)`: a number at the front; what follows it is not read.
abbrev scanned : Parsed → Option Int64
scanned (number n rest) = some n
scanned _ = none

unfoldable pub scan_int : Text → Option Int64
unfolding parse_prefix digits
scan_int s = scanned (parse_prefix s)

-- `n, _ := strconv.ParseInt(s, 10, 64)`: 0 for bad syntax, the nearest value when out of range.
-- Digits beyond 64 bits are refused before the rest of the text is looked at.
abbrev whole : Parsed → Int64
whole (number n []) = n
whole (number n (_ ∷ _)) = 0
whole (out_of_range v n []) = v
whole (out_of_range v n (_ ∷ _)) = if ltb n word then 0 else v
whole bad_syntax = 0

unfoldable pub parse_int : Text → Int64
unfolding parse_prefix digits
parse_int s = whole (parse_prefix s)

scan_port : scan_int (text "-12abc") ≡ some (word - 12)
unfolding scan_int text
scan_port = refl

parse_clamps : parse_int (text "99999999999999999999") ≡ half - 1
unfolding parse_int text
parse_clamps = refl

parse_rejects : parse_int (text "12x") ≡ 0
unfolding parse_int text
parse_rejects = refl
