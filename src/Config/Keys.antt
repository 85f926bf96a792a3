-- ===== src/Config/Keys.antt =====
-- src/config.go: `normalizeProviderKey` and `normalizeExecutorProviderKey`.
pub mod Laws
use agy_identity_bridge.Base.{
  ℕ, ◌≡◌, refl, Bool, ◌&&◌, ◌||◌, List, [], ◌∷◌, leb, eqb, if◌then◌else◌,
}
use agy_identity_bridge.Text.{Text, text, trim_space, trim_dashes, equal_fold, split}

pub is_key_char : ℕ → Bool
is_key_char c =
    (leb b'a' c && leb c b'z')
    || (leb b'A' c && leb c b'Z')
    || (leb b'0' c && leb c b'9')
    || eqb c b'-'
    || eqb c b'_'
    || eqb c b'.'

is_dashed : ℕ → Bool
is_dashed c = eqb c b' ' || eqb c b'/' || eqb c 92

-- The loop over the runes: 92 is the backslash.
pub key_chars : Text → Text
unfolding is_key_char is_dashed
key_chars [] = []
key_chars (r ∷ value) =
    let rest = key_chars value in
    if is_key_char r then r ∷ rest else if is_dashed r then b'-' ∷ rest else rest

unfoldable pub normalize_provider_key : Text → Text
unfolding key_chars
normalize_provider_key value = trim_dashes (key_chars (trim_space value))

-- `parts` of a value that was split at its dashes.
pub collapse_parts : Text → List Text → Text
collapse_parts value (a ∷ b ∷ []) = if equal_fold a b then a else value
collapse_parts value _ = value

unfoldable pub normalize_executor_provider_key : Text → Text
unfolding collapse_parts
normalize_executor_provider_key value =
    collapse_parts (normalize_provider_key value) (split b'-' (normalize_provider_key value))

duplicated :
    normalize_executor_provider_key (text " ln.Antigravity-LN.antigravity") ≡ text "ln.Antigravity"
unfolding normalize_executor_provider_key normalize_provider_key trim_space trim_dashes split
    equal_fold text
duplicated = refl
