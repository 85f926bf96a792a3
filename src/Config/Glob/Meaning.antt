-- ===== src/Config/Glob/Meaning.antt =====
-- What `matchText` decides, in words of its two texts.
use agy_identity_bridge.Base.{
  ◌≡◌, ◌≢◌, ◌↔◌, ◌⊎◌, inl, inr, Bool, true, false, ◌||◌, [], ◌++◌, arith, if◌then◌else◌, Bool-cases,
  is_nil, is_nil-false,
}
use agy_identity_bridge.Text.{Text, trim_space, to_lower, contains}
use agy_identity_bridge.Text.Prefix.{contains_iff}
use agy_identity_bridge.Config.Glob.{glob, has_wildcard, match_text}
use agy_identity_bridge.Config.Glob.Pieces.{Pieces}
use agy_identity_bridge.Config.Glob.Table.{glob_iff}

abbrev pub folded : Text → Text
folded s = to_lower (trim_space s)

-- A pattern with a wildcard cuts the whole value into pieces; any other is a part of the value.
abbrev pub Describes : Text → Text → Type 0
Describes p v =
    ((has_wildcard p ≡ true) × Pieces p v)
    ⊎ ((has_wildcard p ≡ false) × ((a : Text) × (b : Text) × (v ≡ a ++ (p ++ b))))

module _ (p v : Text) where
  abbrev decided : Bool
  decided =
      if is_nil p || is_nil v then false else if has_wildcard p then glob p v else contains v p

  decided→Describes : decided ≡ true → (p ≢ []) × (v ≢ []) × Describes p v
  decided→Describes h = elim (Bool-cases (has_wildcard p)) [
    | inl wild ↦ (ground arith, ground arith, inl (wild, (glob_iff p v).0 (ground arith)))
    | inr plain ↦ (ground arith, ground arith, inr (plain, (contains_iff v p).0 (ground arith)))
  ]

  Describes→decided : (p ≢ []) × (v ≢ []) × Describes p v → decided ≡ true
  Describes→decided (np, nv, inl (wild, d)) =
      rw (is_nil-false p np, is_nil-false v nv, wild) ((glob_iff p v).1 d)
  Describes→decided (np, nv, inr (plain, d)) =
      rw (is_nil-false p np, is_nil-false v nv, plain) ((contains_iff v p).1 d)

-- `matchText` answers true exactly when neither text is blank and, in lower case and trimmed, the
-- pattern describes the value.
pub match_text_iff :
    (pattern value : Text)
    → (match_text pattern value ≡ true)
      ↔ ((folded pattern ≢ []) × (folded value ≢ []) × Describes (folded pattern) (folded value))
unfolding match_text
match_text_iff pattern value = (
  decided→Describes (folded pattern) (folded value),
  Describes→decided (folded pattern) (folded value),
)
