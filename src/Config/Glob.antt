-- ===== src/Config/Glob.antt =====
-- src/config.go `matchText`: a substring test, or the table of the matcher for `*` and `?`.
-- A row of the table is the list of its cells; `ups` are the cells above, `diag` the one above left.
pub mod Pieces
pub mod Table
pub mod Meaning
use agy_identity_bridge.Base.{
  ℕ, ◌≡◌, refl, Bool, true, false, ◌&&◌, ◌||◌, List, [], ◌∷◌, eqb, if◌then◌else◌, is_nil, any,
}
use agy_identity_bridge.Text.{Text, text, trim_space, to_lower, contains}

-- The `switch` on the code point `c` of the pattern, for the cell under `up`.
unfoldable pub cell : ℕ → Bool → Bool → Bool → ℕ → Bool
cell c left diag up x =
    if eqb c b'*' then up || left else if eqb c b'?' then diag else diag && eqb c x

-- The loop over `j`.
unfoldable pub row_from : ℕ → Bool → Bool → List Bool → Text → List Bool
row_from c left diag (up ∷ ups) (x ∷ v) =
    cell c left diag up x ∷ row_from c (cell c left diag up x) up ups v
row_from c left diag _ _ = []

unfoldable pub next_row : ℕ → List Bool → Text → List Bool
next_row c [] v = []
next_row c (up ∷ ups) v = (eqb c b'*' && up) ∷ row_from c (eqb c b'*' && up) up ups v

-- The loop over `i`.
unfoldable pub rows_from : Text → List Bool → Text → List Bool
rows_from [] row v = row
rows_from (c ∷ p) row v = rows_from p (next_row c row v) v

abbrev pub falses : Text → List Bool
falses [] = []
falses (_ ∷ v) = false ∷ falses v

abbrev pub last_cell : List Bool → Bool
last_cell [] = false
last_cell (b ∷ []) = b
last_cell (b ∷ d ∷ bs) = last_cell (d ∷ bs)

unfoldable pub glob : Text → Text → Bool
unfolding rows_from next_row row_from cell
glob p v = last_cell (rows_from p (true ∷ falses v) v)

-- `strings.ContainsAny(pattern, "*?")`
unfoldable pub has_wildcard : Text → Bool
has_wildcard p = any (λ c. eqb c b'*' || eqb c b'?') p

unfoldable pub match_text : Text → Text → Bool
unfolding glob has_wildcard
match_text pattern value =
    let p = to_lower (trim_space pattern) in
    let v = to_lower (trim_space value) in
    if is_nil p || is_nil v then false else if has_wildcard p then glob p v else contains v p

unfoldable pub any_text_match : List Text → List Text → Bool
unfolding match_text
any_text_match patterns values =
    any (λ pattern. any (λ value. match_text pattern value) values) patterns

star_prefix : match_text (text "agy/*") (text " AGY/gemini-3.5") ≡ true
unfolding match_text text to_lower trim_space contains
star_prefix = refl

one_char : match_text (text "a?c*") (text "ac") ≡ false
unfolding match_text text to_lower trim_space contains
one_char = refl
