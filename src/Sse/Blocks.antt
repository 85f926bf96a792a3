-- ===== src/Sse/Blocks.antt =====
-- The blocks that `drain` takes out of a text, as a relation.
use agy_identity_bridge.Base.{
  ℕ, zero, suc, ◌≤◌, ◌<◌, ◌≡◌, refl, sym, ap, ap₂, ◌∙◌, subst, inl, inr, false, ◌&&◌, Option, none,
  some, List, [], ◌∷◌, ◌++◌, append_assoc, arith, eqb, Bool-cases, Option-cases, length, drop,
}
use agy_identity_bridge.Text.{Text}
use agy_identity_bridge.Sse.{
  starts_line, behind_some, cut_block, sse_event_payload, events_of, drain_loop,
}

-- `Drains pending blocks left`: cutting `pending` at blank lines yields the blocks, and `left`.
pub data Drains : Text → List Text → Text → Type 0 where
  at_end : {p : Text} → cut_block p ≡ none → Drains p [] p
  cut_off :
      {p b r l : Text} {bs : List Text}
      → cut_block p ≡ some (b, r)
      → Drains r bs l
      → Drains p (b ∷ bs) l

abbrev pub events_in : List Text → List Text
events_in [] = []
events_in (b ∷ bs) = events_of (sse_event_payload b) ++ events_in bs

pub events_in-append : (cs bs : List Text) → events_in (cs ++ bs) ≡ events_in cs ++ events_in bs
events_in-append [] bs = refl
events_in-append (a ∷ cs) bs = rw (
  events_in-append cs bs,
  append_assoc (events_of (sse_event_payload a)) (events_in cs) (events_in bs),
)

none-some : {x : Text × Text} → none ≡ some x → ⊥
none-some e = ground (arith, e)

value_or : Text × Text → Option (Text × Text) → Text × Text
value_or d none = d
value_or d (some x) = x

some_pair :
    {a b q r : Text}
    → ◌≡◌ {A = Option (Text × Text)} (some (a, q)) (some (b, r))
    → (a ≡ b) × (q ≡ r)
unfolding value_or
some_pair e = (ap (λ o. (value_or ([], []) o).0) e, ap (λ o. (value_or ([], []) o).1) e)

length-drop_one : (s : Text) → length (drop 1 s) ≤ length s
length-drop_one [] = omega arith
length-drop_one (c ∷ s) = omega arith

-- Of a cut behind a code point: the cut itself.
behind_some-inv :
    (c : ℕ) (o : Option (Text × Text)) (b r : Text)
    → behind_some c o ≡ some (b, r)
    → (a : Text) × ((o ≡ some (a, r)) × (b ≡ c ∷ a))
behind_some-inv c none b r e = cc
behind_some-inv c (some (a, q)) b r e =
    let (f, g) = some_pair e in (a, (ap (λ x. some (a, x)) g, sym f))

-- A cut shortens the text.
cut_block-length : (p b r : Text) → cut_block p ≡ some (b, r) → length r < length p
unfolding cut_block
cut_block-length [] b r e = cc
cut_block-length (c ∷ s) b r e = elim (Bool-cases (eqb c 10 && starts_line s)) [
  | inl here ↦
      let (_, g) = some_pair (rw here at e) in omega (arith, length-drop_one s, ap length g)
  | inr later ↦
      let (a, (f, _)) = behind_some-inv c (cut_block s) b r (rw later at e) in
      omega (arith, cut_block-length s a r f)
]

cut_block-later :
    (c d : ℕ) (s : Text)
    → (eqb c 10 && eqb d 10) ≡ false
    → cut_block (c ∷ d ∷ s) ≡ behind_some c (cut_block (d ∷ s))
unfolding cut_block
cut_block-later c d s h = rw h refl

-- A cut stays where it is when the text grows.
pub cut_block-append :
    (p b r s : Text) → cut_block p ≡ some (b, r) → cut_block (p ++ s) ≡ some (b, r ++ s)
unfolding cut_block
cut_block-append [] b r t e = cc
cut_block-append (c ∷ []) b r t e = ground (arith, e)
cut_block-append (c ∷ d ∷ s) b r t e = elim (Bool-cases (eqb c 10 && eqb d 10)) [
  | inl here ↦
      let (f, g) = some_pair (rw here at e) in
      rw here (ap₂ (λ x y. some (x, y)) f (ap (λ x. x ++ t) g))
  | inr later ↦
      let (a, (f, g)) = behind_some-inv c (cut_block (d ∷ s)) b r (rw later at e) in
      cut_block-later c d (s ++ t) later
      ∙ ap (behind_some c) (cut_block-append (d ∷ s) a r t f)
      ∙ ap (λ x. some (x, r ++ t)) (sym g)
]

-- The loop follows the relation on cs much fuel cs the text is long.
pub drain_loop-Drains :
    (fuel : ℕ) (p : Text)
    → length p ≤ fuel
    → (bs : List Text) × Drains p bs (drain_loop fuel p).1 × ((drain_loop fuel p).0 ≡ events_in bs)
unfolding drain_loop cut_block
drain_loop-Drains zero [] h = ([], at_end refl, refl)
drain_loop-Drains zero (c ∷ p) h = absurd (omega arith)
drain_loop-Drains (suc fuel) p h = elim (Option-cases (cut_block p)) [
  | inl stop ↦ rw stop ([], at_end stop, refl)
  | inr ((b, r), cut) ↦
      let (bs, d, e) = drain_loop-Drains fuel r (omega (arith, cut_block-length p b r cut)) in
      rw cut (b ∷ bs, cut_off cut d, ap (λ es. events_of (sse_event_payload b) ++ es) e)
]

-- Draining goes on where it stopped.
pub Drains-append :
    {p l m : Text} (s : Text) {cs bs : List Text}
    → Drains p cs l
    → Drains (l ++ s) bs m
    → Drains (p ++ s) (cs ++ bs) m
Drains-append s (at_end e) d = d
Drains-append s (cut_off e c) d = cut_off (cut_block-append _ _ _ s e) (Drains-append s c d)

-- The blocks and what is left are determined.
pub Drains-unique :
    {p l m : Text} {cs bs : List Text} → Drains p cs l → Drains p bs m → (cs ≡ bs) × (l ≡ m)
Drains-unique (at_end e) (at_end f) = (refl, refl)
Drains-unique (at_end e) (cut_off f d) = absurd (none-some (sym e ∙ f))
Drains-unique (cut_off e c) (at_end f) = absurd (none-some (sym f ∙ e))
Drains-unique {m = m} (cut_off e c) (cut_off {bs = bs'} f d) =
    let (g, h) = some_pair (sym e ∙ f) in
    let (i, j) = Drains-unique c (subst (λ x. Drains x bs' m) (sym h) d) in (ap₂ ◌∷◌ g i, j)
