-- ===== src/Config/Keys/Laws.antt =====
-- A normalised provider key is made of key characters, and normalising it again changes nothing.
use agy_identity_bridge.Base.{
  ℕ, ◌≡◌, refl, ap, ◌∙◌, ◌⊎◌, inl, inr, true, false, List, [], ◌∷◌, arith, Bool-cases, All,
}
use agy_identity_bridge.Text.{Text, is_space, trim_space, trim_dashes, equal_fold, split}
use agy_identity_bridge.Text.Trimming.{trim_idem, trim_of_All, trim-All, trim_space_of_All}
use agy_identity_bridge.Text.Splitting.{IsFree, split-IsFree, split-All, split_of_IsFree}
use agy_identity_bridge.Config.Keys.{
  is_key_char, key_chars, normalize_provider_key, collapse_parts, normalize_executor_provider_key,
}

abbrev pub IsKeyText : Text → Type 0
IsKeyText s = All (λ c. is_key_char c ≡ true) s

key_chars-IsKeyText : (s : Text) → IsKeyText (key_chars s)
unfolding key_chars
key_chars-IsKeyText [] = tt
key_chars-IsKeyText (c ∷ s) = ground (arith, key_chars-IsKeyText s)

key_chars_of_IsKeyText : (s : Text) → IsKeyText s → key_chars s ≡ s
unfolding key_chars
key_chars_of_IsKeyText [] h = refl
key_chars_of_IsKeyText (c ∷ s) (k, h) = ground (arith, key_chars_of_IsKeyText s h)

is_space_of_is_key_char : (c : ℕ) → is_key_char c ≡ true → is_space c ≡ false
unfolding is_key_char is_space
is_space_of_is_key_char c h = ground arith

IsKeyText-no_space : (s : Text) → IsKeyText s → All (λ c. is_space c ≡ false) s
IsKeyText-no_space [] h = tt
IsKeyText-no_space (c ∷ s) (k, h) = (is_space_of_is_key_char c k, IsKeyText-no_space s h)

-- A key holds letters, digits, dashes, underscores and dots only.
pub normalize_provider_key-IsKeyText : (value : Text) → IsKeyText (normalize_provider_key value)
unfolding normalize_provider_key trim_dashes
normalize_provider_key-IsKeyText value = trim-All _ _ _ (key_chars-IsKeyText (trim_space value))

-- A key of key characters only loses dashes at its ends.
normalize_provider_key_of_IsKeyText :
    (s : Text) → IsKeyText s → normalize_provider_key s ≡ trim_dashes s
unfolding normalize_provider_key
normalize_provider_key_of_IsKeyText s h =
    ap (λ t. trim_dashes (key_chars t)) (trim_space_of_All s (IsKeyText-no_space s h))
    ∙ ap trim_dashes (key_chars_of_IsKeyText s h)

pub normalize_provider_key_idem :
    (value : Text)
    → normalize_provider_key (normalize_provider_key value) ≡ normalize_provider_key value
normalize_provider_key_idem value =
    normalize_provider_key_of_IsKeyText _ (normalize_provider_key-IsKeyText value)
    ∙ (unfold normalize_provider_key trim_dashes in trim_idem _ (key_chars (trim_space value)))

-- What the executor key is: the key itself, or one half of a doubled key, which has no dash.
collapse_parts_cases :
    (value : Text) (parts : List Text)
    → All (IsFree b'-') parts
    → All IsKeyText parts
    → (collapse_parts value parts ≡ value)
      ⊎ (IsFree b'-' (collapse_parts value parts) × IsKeyText (collapse_parts value parts))
unfolding collapse_parts
collapse_parts_cases value [] f k = inl refl
collapse_parts_cases value (a ∷ []) f k = inl refl
collapse_parts_cases value (a ∷ b ∷ []) f k = elim (Bool-cases (equal_fold a b)) [
  | inl same ↦ rw same (inr (f.0, k.0))
  | inr other ↦ rw other (inl refl)
]
collapse_parts_cases value (a ∷ b ∷ c ∷ parts) f k = inl refl

normalize_executor_provider_key_of_IsFree :
    (s : Text) → IsFree b'-' s → IsKeyText s → normalize_executor_provider_key s ≡ s
unfolding normalize_executor_provider_key
normalize_executor_provider_key_of_IsFree s f k =
    let same : normalize_provider_key s ≡ s =
      normalize_provider_key_of_IsKeyText s k ∙ (unfold trim_dashes in trim_of_All _ s f) in
    rw same (rw (split_of_IsFree b'-' s f) (unfold collapse_parts in refl))

abbrev collapsed : Text → Text
collapsed key = collapse_parts key (split b'-' key)

normalize_executor_provider_key_of_same :
    (value : Text)
    → collapsed (normalize_provider_key value) ≡ normalize_provider_key value
    → normalize_executor_provider_key (normalize_executor_provider_key value)
      ≡ normalize_executor_provider_key value
unfolding normalize_executor_provider_key
normalize_executor_provider_key_of_same value same =
    ap (λ k. collapsed (normalize_provider_key k)) same
    ∙ ap collapsed (normalize_provider_key_idem value)

-- The executor key is stable: normalising it a second time, as when it goes round through an
-- editor, changes nothing.
pub normalize_executor_provider_key_idem :
    (value : Text)
    → normalize_executor_provider_key (normalize_executor_provider_key value)
      ≡ normalize_executor_provider_key value
normalize_executor_provider_key_idem value =
    let key = normalize_provider_key value in
    elim (collapse_parts_cases key (split b'-' key) (split-IsFree b'-' key)
      (split-All b'-' _ key (normalize_provider_key-IsKeyText value))) [
        | inl same ↦ normalize_executor_provider_key_of_same value same
        | inr (f, k) ↦
            unfold normalize_executor_provider_key in
            normalize_executor_provider_key_of_IsFree (collapsed key) f k
      ]
