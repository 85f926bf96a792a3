-- ===== src/Unique.antt =====
-- src/config.go `uniqueStrings`, the two loops of `normalizeSettings`, and `normalizeThinkingLevels`
-- and `normalizeModalities` of src/modelcache.go and src/providerspec.go: one loop, which skips
-- blank values and values whose key was seen.
use agy_identity_bridge.Base.{Bool, false, ◌||◌, List, [], ◌∷◌, if◌then◌else◌, is_nil}
use agy_identity_bridge.Text.{Text, ◌==◌, trim_space, to_lower}
pub mod Laws

-- The lookup in the map `seen`.
unfoldable pub mem : Text → List Text → Bool
mem a [] = false
mem a (b ∷ bs) = a == b || mem a bs

-- `clean` is what the loop does to a value first, `key` what it looks up in `seen`.
module _ (clean key : Text → Text) where
  unfoldable pub unique_loop : List Text → List Text → List Text
  unique_loop seen [] = []
  unique_loop seen (value ∷ values) =
      let skipped = unique_loop seen values in
      let kept = clean value ∷ unique_loop (key (clean value) ∷ seen) values in
      if is_nil (clean value)
      then skipped
      else if mem (key (clean value)) seen
      then skipped
      else kept

unfoldable pub unique_strings : List Text → List Text
unfolding unique_loop mem
unique_strings values = unique_loop trim_space (λ value. value) [] values

-- Selectors are compared in lower case and kept as they are written.
unfoldable pub unique_selectors : List Text → List Text
unfolding unique_loop mem
unique_selectors values = unique_loop trim_space to_lower [] values

abbrev pub clean_lower : Text → Text
clean_lower value = to_lower (trim_space value)

unfoldable pub normalize_thinking_levels : List Text → List Text
unfolding unique_loop mem
normalize_thinking_levels raw = unique_loop clean_lower (λ level. level) [] raw

-- A nil result and an empty one are the same list.
unfoldable pub normalize_modalities : List Text → List Text
unfolding unique_loop mem
normalize_modalities raw = unique_loop clean_lower (λ modality. modality) [] raw
