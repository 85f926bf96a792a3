-- ===== src/Spec/Thinking.antt =====
-- The thinking levels that are published.
use agy_identity_bridge.Base.{
  ◌≡◌, refl, sym, ap, ◌∙◌, inl, inr, Bool, true, false, not, ◌&&◌, ◌||◌, Option, none, some, List,
  [], ◌∷◌, ◌++◌, arith, if◌then◌else◌, Bool-cases,
}
use agy_identity_bridge.Text.{Text, text, ◌==◌, trim_space, to_lower, equal_fold}
use agy_identity_bridge.Text.Equality.{to_lower_idem}
use agy_identity_bridge.Text.Trimming.{trim_space_idem, trim_space-to_lower}
use agy_identity_bridge.Unique.{mem, clean_lower, normalize_thinking_levels}
use agy_identity_bridge.Unique.Laws.{
  HasFreshKeys, IsUnique, unique_loop-IsUnique, unique_loop_of_IsUnique,
}
use agy_identity_bridge.Spec.{ThinkingSpec, contains_thinking_level, effective_thinking}

clean_lower_idem : (v : Text) → clean_lower (clean_lower v) ≡ clean_lower v
clean_lower_idem v =
    ap to_lower (trim_space-to_lower (trim_space v))
    ∙ to_lower_idem (trim_space (trim_space v))
    ∙ ap to_lower (trim_space_idem v)

-- Levels as they are published: trimmed, in lower case, not blank and without repeats.
abbrev pub IsPublished : List Text → Type 0
IsPublished levels = IsUnique clean_lower (λ level. level) [] levels

pub normalize_thinking_levels-IsPublished :
    (raw : List Text) → IsPublished (normalize_thinking_levels raw)
unfolding normalize_thinking_levels
normalize_thinking_levels-IsPublished raw =
    unique_loop-IsUnique clean_lower (λ level. level) clean_lower_idem [] raw

pub normalize_thinking_levels_of_IsPublished :
    (levels : List Text) → IsPublished levels → normalize_thinking_levels levels ≡ levels
unfolding normalize_thinking_levels
normalize_thinking_levels_of_IsPublished levels h =
    unique_loop_of_IsUnique clean_lower (λ level. level) [] levels h

abbrev none_level : Text
none_level = text "none"

mem-snoc :
    (v x : Text) (seen : List Text)
    → mem v seen ≡ false
    → (v == x) ≡ false
    → mem v (seen ++ x ∷ []) ≡ false
unfolding mem
mem-snoc v x [] h k = rw k refl
mem-snoc v x (s ∷ seen) h k = ground (arith, mem-snoc v x seen)

is_none : (v : Text) → clean_lower v ≡ v → equal_fold (trim_space v) none_level ≡ (v == none_level)
unfolding equal_fold text to_lower
is_none v c = ap (λ w. w == none_level) c

or_left : (a b : Bool) → (a || b) ≡ false → (a ≡ false) × (b ≡ false)
or_left a b h = ground arith

-- Levels that do not contain `none` stay fresh when it is seen before them.
fresh_behind :
    (seen levels : List Text)
    → IsUnique clean_lower (λ level. level) seen levels
    → contains_thinking_level levels none_level ≡ false
    → HasFreshKeys (λ level. level) (seen ++ none_level ∷ []) levels
unfolding contains_thinking_level
fresh_behind seen [] h k = tt
fresh_behind seen (v ∷ levels) ((c, cs), (f, fs)) k =
    let (here, later) = or_left (equal_fold (trim_space v) none_level) _ k in
    (
      mem-snoc v none_level seen f (sym (is_none v c.0) ∙ here),
      fresh_behind (v ∷ seen) levels (cs, fs) later,
    )

none_first-IsPublished :
    (levels : List Text)
    → IsPublished levels
    → contains_thinking_level levels none_level ≡ false
    → IsPublished (none_level ∷ levels)
unfolding text to_lower trim_space mem
none_first-IsPublished levels (c, f) k =
    (((refl, λ e. cc), c), (refl, fresh_behind [] levels (c, f) k))

-- The levels that `effectiveThinking` publishes.
effective_levels : Bool → List Text → List Text
effective_levels zero_allowed levels =
    if zero_allowed && not (contains_thinking_level levels none_level)
    then none_level ∷ levels
    else levels

contains_first :
    (levels : List Text) → contains_thinking_level (none_level ∷ levels) none_level ≡ true
unfolding contains_thinking_level equal_fold text to_lower trim_space ◌==◌
contains_first levels = refl

effective_levels-IsPublished :
    (z : Bool) (levels : List Text)
    → IsPublished levels
    → IsPublished (effective_levels z levels)
      × (effective_levels z (effective_levels z levels) ≡ effective_levels z levels)
unfolding effective_levels
effective_levels-IsPublished false levels h = (h, refl)
effective_levels-IsPublished true levels h =
    elim (Bool-cases (contains_thinking_level levels none_level)) [
      | inl has ↦ rw has (h, (rw has refl))
      | inr has_not ↦
          rw has_not (none_first-IsPublished levels h has_not, (rw (contains_first levels) refl))
    ]

-- Publishing the thinking levels of a model that were published before, as a mirrored or cached
-- catalogue does, changes nothing: `none` is added once, and no level twice.
pub effective_thinking_idem :
    (thinking : Option ThinkingSpec)
    → effective_thinking (effective_thinking thinking) ≡ effective_thinking thinking
unfolding effective_thinking effective_levels
effective_thinking_idem none = refl
effective_thinking_idem (some t) =
    let levels = normalize_thinking_levels t.levels in
    let (published, same) =
      effective_levels-IsPublished t.zero_allowed levels
        (normalize_thinking_levels-IsPublished t.levels) in
    ap (λ ls. some (record t { levels = ls }))
      (ap (effective_levels t.zero_allowed) (
          normalize_thinking_levels_of_IsPublished (effective_levels t.zero_allowed levels)
            published)
        ∙ same)
