-- ===== src/Routes/Models.antt =====
-- Model names: the public prefix and the level in parentheses.
use agy_identity_bridge.Base.{
  ℕ, ◌+◌, ◌≡◌, refl, sym, ap, ap₂, ◌∙◌, subst, ◌≢◌, inl, inr, true, false, none, some, List, [],
  ◌∷◌, ◌++◌, append_assoc, map-append, arith, eqb, if◌then◌else◌, Bool-cases, length, is_nil, drop,
  any, length-append, is_nil-false, drop-append, All,
}
use agy_identity_bridge.Text.{
  Text, text, ◌==◌, trim_space, lower, to_lower, has_prefix, has_suffix, trim_suffix,
}
use mathlib.Core.List.{reverse-append}
use agy_identity_bridge.Text.Equality.{==_iff}
use agy_identity_bridge.Text.Prefix.{has_prefix-append, length-to_lower}
use agy_identity_bridge.Text.Splitting.{IsFree}
use agy_identity_bridge.Routes.{
  strip_model_prefix, cut_last, thinking_levels, at_parenthesis, normalize_thinking_model_name,
}

to_lower-append : (a b : Text) → to_lower (a ++ b) ≡ to_lower a ++ to_lower b
unfolding to_lower
to_lower-append a b = map-append _ a b

same_length : (a b : Text) → to_lower a ≡ to_lower b → length b ≡ length a
same_length a b e = sym (length-to_lower b) ∙ sym (ap length e) ∙ length-to_lower a

slash_lower : (model : Text) → to_lower (text "/" ++ model) ≡ text "/" ++ to_lower model
unfolding text to_lower lower
slash_lower model = refl

slash_length : (used : Text) → length used + 1 ≡ length (used ++ text "/")
unfolding text
slash_length used = sym (length-append used (b'/' ∷ []))

lowered :
    (used p model : Text)
    → to_lower used ≡ to_lower p
    → has_prefix (to_lower (used ++ (text "/" ++ model))) (to_lower p ++ text "/") ≡ true
lowered used p model e =
    ap (λ s. has_prefix s (to_lower p ++ text "/"))
      (to_lower-append used (text "/" ++ model)
        ∙ ap₂ ◌++◌ e (slash_lower model)
        ∙ sym (append_assoc (to_lower p) (text "/") (to_lower model)))
    ∙ has_prefix-append (to_lower p ++ text "/") (to_lower model)

drop_prefix :
    (used p model : Text)
    → length p ≡ length used
    → drop (length p + 1) (used ++ (text "/" ++ model)) ≡ model
drop_prefix used p model e =
    ap₂ drop (ap (λ n. n + 1) e ∙ slash_length used) (sym (append_assoc used (text "/") model))
    ∙ drop-append (used ++ text "/") model

-- A model behind the public prefix, in any case and with or without a slash at the prefix's end,
-- loses exactly the prefix and the slash. The name is trimmed, as its reads leave it, and the
-- prefix is not blank.
pub strip_model_prefix-append :
    (used prefix model : Text)
    → trim_suffix (trim_space prefix) (text "/") ≢ []
    → to_lower used ≡ to_lower (trim_suffix (trim_space prefix) (text "/"))
    → trim_space (used ++ (text "/" ++ model)) ≡ used ++ (text "/" ++ model)
    → strip_model_prefix (used ++ (text "/" ++ model)) prefix ≡ model
unfolding strip_model_prefix
strip_model_prefix-append used prefix model n e t =
    let p = trim_suffix (trim_space prefix) (text "/") in
    rw (t, is_nil-false p n)
      (rw (lowered used p model e) (drop_prefix used p model (same_length used p e)))

cut_last_of_IsFree : (c : ℕ) (s : Text) → IsFree c s → cut_last c s ≡ none
unfolding cut_last
cut_last_of_IsFree c [] h = refl
cut_last_of_IsFree c (d ∷ s) (h, k) = rw (cut_last_of_IsFree c s k, h) refl

cut_last-append : (c : ℕ) (s t : Text) → IsFree c t → cut_last c (s ++ c ∷ t) ≡ some (s, t)
unfolding cut_last
cut_last-append c [] t h =
    rw (cut_last_of_IsFree c t h) (let e : eqb c c ≡ true = ground arith in rw e refl)
cut_last-append c (d ∷ s) t h = rw (cut_last-append c s t h) refl

-- What the level list guarantees of a level.
abbrev IsLevel : Text → Type 0
IsLevel level =
    (to_lower (trim_space level) ≡ level)
    × IsFree b'(' (level ++ text ")")
    × (trim_suffix (level ++ text ")") (text ")") ≡ level)
    × (is_nil (level ++ text ")") ≡ false)

thinking_levels-IsLevel : All IsLevel thinking_levels
unfolding text to_lower trim_space trim_suffix has_suffix lower
thinking_levels-IsLevel = ground arith

any-All :
    (P : Text → Type 0) (level : Text) (known : List Text)
    → All P known
    → any (λ k. level == k) known ≡ true
    → P level
any-All P level [] h e = ground (arith, e)
any-All P level (k ∷ known) (p, h) e = elim (Bool-cases (level == k)) [
  | inl same ↦ subst P (sym ((==_iff level k).0 same)) p
  | inr other ↦ any-All P level known h (rw other at e)
]

has_suffix-snoc : (s : Text) (c : ℕ) → has_suffix (s ++ c ∷ []) (c ∷ []) ≡ true
unfolding has_suffix has_prefix
has_suffix-snoc s c =
    ap (λ r. has_prefix r (c ∷ [])) (reverse-append s (c ∷ []))
    ∙ (let e : eqb c c ≡ true = ground arith in rw e refl)

closes :
    (model level : Text) → has_suffix (model ++ (text "(" ++ (level ++ text ")"))) (text ")") ≡ true
unfolding text
closes model level =
    ap (λ s. has_suffix s (b')' ∷ []))
      (ap (λ t. model ++ t) (sym (append_assoc (b'(' ∷ []) level (b')' ∷ [])))
        ∙ sym (append_assoc model (b'(' ∷ level) (b')' ∷ [])))
    ∙ has_suffix-snoc (model ++ b'(' ∷ level) b')'

opens :
    (model tail : Text)
    → IsFree b'(' tail
    → cut_last b'(' (model ++ (text "(" ++ tail)) ≡ some (model, tail)
unfolding text
opens model tail free = cut_last-append b'(' model tail free

-- A model name followed by a known level in parentheses is split into the two, and the level
-- `off` is read as `none`.
pub normalize_thinking_model_name-append :
    (model level : Text)
    → trim_space model ≡ model
    → any (λ known. level == known) thinking_levels ≡ true
    → trim_space (model ++ (text "(" ++ (level ++ text ")")))
      ≡ model ++ (text "(" ++ (level ++ text ")"))
    → normalize_thinking_model_name (model ++ (text "(" ++ (level ++ text ")")))
      ≡ (model, if level == text "off" then text "none" else level)
unfolding normalize_thinking_model_name
normalize_thinking_model_name-append model level m l t =
    let tail = level ++ text ")" in
    let full = model ++ (text "(" ++ tail) in
    let (clean, free, inner, there) =
      any-All IsLevel level thinking_levels thinking_levels-IsLevel l in
    let suffix : has_suffix full (text ")") ≡ true = closes model level in
    rw t (
      ap (at_parenthesis full) (opens model tail free)
      ∙ rw (suffix, there, inner, clean, l, m) refl)
