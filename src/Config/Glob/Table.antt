-- ===== src/Config/Glob/Table.antt =====
-- The table decides `Pieces`: each row holds the answers for one prefix of the pattern.
use agy_identity_bridge.Base.{
  ℕ, ◌≡◌, refl, sym, ap, ap₂, ◌∙◌, ◌↔◌, inl, inr, Bool, true, false, ◌&&◌, List, [], ◌∷◌, ◌++◌,
  reverse, append-nil, append_assoc, arith, eqb, Bool-cases, take,
}
use mathlib.Core.List.{reverse-cons, reverse-append, reverse-reverse}
use mathlib.Core.Path.{subst₂}
use agy_identity_bridge.Text.{Text}
use agy_identity_bridge.Config.Glob.{cell, row_from, next_row, rows_from, falses, last_cell, glob}
use agy_identity_bridge.Config.Glob.Pieces.{Accepts, Pieces, done, piece, Pieces-append}

-- The matcher by recursion on the pattern and the text read so far, both from the right.
back_match : Text → Text → Bool
back_match [] [] = true
back_match [] (_ ∷ _) = false
back_match (c ∷ p) [] = eqb c b'*' && back_match p []
back_match (c ∷ p) (x ∷ s) = cell c (back_match (c ∷ p) s) (back_match p s) (back_match p (x ∷ s)) x

-- The cells after the first in the row of the pattern `p`, with the text `s` behind.
cells : Text → Text → Text → List Bool
cells p s [] = []
cells p s (x ∷ v) = back_match p (x ∷ s) ∷ cells p (x ∷ s) v

row_from-cells :
    (c : ℕ) (p s v : Text)
    → row_from c (back_match (c ∷ p) s) (back_match p s) (cells p s v) v ≡ cells (c ∷ p) s v
unfolding row_from cells back_match
row_from-cells c p s [] = refl
row_from-cells c p s (x ∷ v) = ap (◌∷◌ (back_match (c ∷ p) (x ∷ s))) (row_from-cells c p (x ∷ s) v)

abbrev row : Text → Text → List Bool
row p v = back_match p [] ∷ cells p [] v

next_row-row : (c : ℕ) (p v : Text) → next_row c (row p v) v ≡ row (c ∷ p) v
unfolding next_row back_match row_from
next_row-row c p v = ap (◌∷◌ (back_match (c ∷ p) [])) (row_from-cells c p [] v)

rows_from-row : (p q v : Text) → rows_from p (row q v) v ≡ row (reverse p ++ q) v
unfolding rows_from
rows_from-row [] q v = refl
rows_from-row (c ∷ p) q v =
    ap (λ r. rows_from p r v) (next_row-row c q v)
    ∙ rows_from-row p (c ∷ q) v
    ∙ ap (λ r. row r v)
        (sym (append_assoc (reverse p) (c ∷ []) q) ∙ ap (λ r. r ++ q) (sym (reverse-cons c p)))

cells-falses : (s v : Text) → cells [] s v ≡ falses v
unfolding cells back_match
cells-falses s [] = refl
cells-falses s (x ∷ v) = ap (◌∷◌ false) (cells-falses (x ∷ s) v)

last_cell-cells :
    (p s v : Text) → last_cell (back_match p s ∷ cells p s v) ≡ back_match p (reverse v ++ s)
unfolding cells
last_cell-cells p s [] = refl
last_cell-cells p s (x ∷ v) =
    last_cell-cells p (x ∷ s) v
    ∙ ap (back_match p)
        (sym (append_assoc (reverse v) (x ∷ []) s) ∙ ap (λ r. r ++ s) (sym (reverse-cons x v)))

glob-back_match : (p v : Text) → glob p v ≡ back_match (reverse p) (reverse v)
unfolding glob back_match
glob-back_match p v =
    ap (λ fs. last_cell (rows_from p (true ∷ fs) v)) (sym (cells-falses [] v))
    ∙ ap last_cell (rows_from-row p [] v)
    ∙ last_cell-cells (reverse p ++ []) [] v
    ∙ ap₂ back_match (append-nil (reverse p)) (append-nil (reverse v))

star-cons : {c x : ℕ} {p s : Text} → c ≡ b'*' → Pieces (c ∷ p) s → Pieces (c ∷ p) (x ∷ s)
star-cons {x} star (piece {w} a r e) = piece {w = x ∷ w} (inl star) r (ap (◌∷◌ x) e)

back_match→Pieces : (p s : Text) → back_match p s ≡ true → Pieces p s
unfolding back_match cell
back_match→Pieces [] [] h = done
back_match→Pieces [] (x ∷ s) h = cc
back_match→Pieces (c ∷ p) [] h =
    piece {w = []} (inl (ground arith)) (back_match→Pieces p [] (ground arith)) refl
back_match→Pieces (c ∷ p) (x ∷ s) h = elim (Bool-cases (eqb c b'*')) [
  | inl star ↦ elim (Bool-cases (back_match p (x ∷ s))) [
    | inl leave ↦ piece {w = []} (inl (ground arith)) (back_match→Pieces p (x ∷ s) leave) refl
    | inr take ↦ star-cons (ground arith) (back_match→Pieces (c ∷ p) s (ground arith))
  ]
  | inr other ↦
      piece {w = x ∷ []} (inr (ground arith, x, refl, ground arith))
        (back_match→Pieces p s (ground arith)) refl
]

star-append :
    (c : ℕ) (p w s : Text) → c ≡ b'*' → back_match p s ≡ true → back_match (c ∷ p) (w ++ s) ≡ true
unfolding back_match cell
star-append c p [] [] star h = ground arith
star-append c p [] (x ∷ s) star h = ground arith
star-append c p (x ∷ w) s star h = ground (arith, star-append c p w s star h)

Accepts-append :
    (c : ℕ) (p w s : Text)
    → Accepts c w
    → back_match p s ≡ true
    → back_match (c ∷ p) (w ++ s) ≡ true
unfolding back_match cell
Accepts-append c p w s (inl star) h = star-append c p w s star h
Accepts-append c p w s (inr (ne, x, e, which)) h = rw e (ground arith)

Pieces→back_match : {p s : Text} → Pieces p s → back_match p s ≡ true
unfolding back_match
Pieces→back_match done = refl
Pieces→back_match (piece {c} {p} {w} {s} a r e) =
    rw e (Accepts-append c p w s a (Pieces→back_match r))

Accepts-reverse : {c : ℕ} {w : Text} → Accepts c w → Accepts c (reverse w)
Accepts-reverse (inl star) = inl star
Accepts-reverse (inr (ne, x, e, which)) = inr (ne, x, ap reverse e, which)

Pieces-reverse : {p s : Text} → Pieces p s → Pieces (reverse p) (reverse s)
Pieces-reverse done = done
Pieces-reverse (piece {c} {p} {w} {s} {t} a r e) =
    rw (reverse-cons c p, ap reverse e ∙ reverse-append w s)
      (Pieces-append (Pieces-reverse r)
        (piece (Accepts-reverse a) done (sym (append-nil (reverse w)))))

-- The table of `matchText` answers true exactly on the values that the pattern cuts into pieces.
pub glob_iff : (p v : Text) → (glob p v ≡ true) ↔ Pieces p v
glob_iff p v = (
  λ h.
      subst₂ Pieces (reverse-reverse p) (reverse-reverse v) (
        Pieces-reverse (back_match→Pieces (reverse p) (reverse v) (sym (glob-back_match p v) ∙ h))),
  λ d. glob-back_match p v ∙ Pieces→back_match (Pieces-reverse d),
)
