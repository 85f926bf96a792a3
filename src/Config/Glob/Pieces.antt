-- ===== src/Config/Glob/Pieces.antt =====
-- What a wildcard pattern means, with no table in it: the value is cut into pieces, one for each
-- code point of the pattern.
use agy_identity_bridge.Base.{ℕ, ◌≡◌, ap, ◌∙◌, ◌≢◌, ◌⊎◌, [], ◌∷◌, ◌++◌, append_assoc}
use agy_identity_bridge.Text.{Text}

-- `*` takes any piece, `?` any one code point, and another code point takes itself.
abbrev pub Accepts : ℕ → Text → Type 0
Accepts c w = (c ≡ b'*') ⊎ (((c ≢ b'*') × (x : ℕ) × (w ≡ x ∷ []) × ((c ≡ b'?') ⊎ (c ≡ x))))

pub data Pieces : Text → Text → Type 0 where
  done : Pieces [] []
  piece : {c : ℕ} {p w s t : Text} → Accepts c w → Pieces p s → t ≡ w ++ s → Pieces (c ∷ p) t

pub Pieces-append : {p s q t : Text} → Pieces p s → Pieces q t → Pieces (p ++ q) (s ++ t)
Pieces-append done d = d
Pieces-append {t} (piece {w} {s} a r e) d =
    piece a (Pieces-append r d) (ap (λ u. u ++ t) e ∙ append_assoc w s t)
