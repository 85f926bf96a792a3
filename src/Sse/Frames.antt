-- ===== src/Sse/Frames.antt =====
-- The frames that an upstream writes come back as its payloads.
use agy_identity_bridge.Base.{
  ◌≡◌, refl, sym, ap, ap₂, ◌∙◌, subst, ◌≢◌, false, some, List, [], ◌∷◌, ◌++◌, map, append_assoc,
  arith, eqb, is_nil-false, All, All-append,
}
use agy_identity_bridge.Text.{Text, text, ◌==◌, is_space, trim_space, has_prefix, trim_prefix, join}
use agy_identity_bridge.Text.Trimming.{trim_space-label}
use agy_identity_bridge.Text.Splitting.{IsFree, split_of_IsFree}
use agy_identity_bridge.Sse.{
  replace_crlf, cut_block, sse_event_payload, field_of_line, events_of, feed, feed_all,
}
use agy_identity_bridge.Sse.Blocks.{Drains, at_end, cut_off, events_in}
use agy_identity_bridge.Sse.Chunks.{
  concat, IsUnsplit, Parses, Parses-unique, feed-Parses, feed_all-concat,
}

-- One line of data, as a server writes it for one event.
abbrev pub IsPayload : Text → Type 0
IsPayload p =
    (p ≢ []) × (trim_space p ≡ p) × IsFree 10 p × IsFree 13 p × ((p == text "[DONE]") ≡ false)

abbrev pub line : Text → Text
line p = text "data: " ++ p

abbrev pub frame : Text → Text
frame p = line p ++ 10 ∷ 10 ∷ []

abbrev pub frames : List Text → Text
frames [] = []
frames (p ∷ ps) = frame p ++ frames ps

trim_space-line : (p : Text) → p ≢ [] → trim_space p ≡ p → trim_space (line p) ≡ line p
unfolding text is_space
trim_space-line p n e = trim_space-label b'd' (text "ata: ") p refl n e

field_of_line-line : (p : Text) → p ≢ [] → trim_space p ≡ p → field_of_line (line p) ≡ p ∷ []
unfolding text has_prefix trim_prefix
field_of_line-line p n e = rw (trim_space-line p n e, e, is_nil-false p n) refl

line-IsFree : (p : Text) → IsFree 10 p → IsFree 10 (line p)
unfolding text
line-IsFree p h = (refl, (refl, (refl, (refl, (refl, (refl, h))))))

sse_event_payload-line : (p : Text) → IsPayload p → sse_event_payload (line p) ≡ some p
unfolding sse_event_payload ◌==◌ trim_space join
sse_event_payload-line p (n, e, f, r, d) =
    rw (split_of_IsFree 10 (line p) (line-IsFree p f), field_of_line-line p n e, e, d) refl

pub cut_block-IsFree : (b s : Text) → IsFree 10 b → cut_block (b ++ 10 ∷ 10 ∷ s) ≡ some (b, s)
unfolding cut_block
cut_block-IsFree [] s h = refl
cut_block-IsFree (c ∷ b) s (h, k) = ground (arith, cut_block-IsFree b s k)

pub replace_crlf_of_IsFree : (s : Text) → IsFree 13 s → replace_crlf s ≡ s
unfolding replace_crlf
replace_crlf_of_IsFree [] h = refl
replace_crlf_of_IsFree (c ∷ s) (h, k) = rw (h, replace_crlf_of_IsFree s k)

frames-IsFree : (ps : List Text) → All IsPayload ps → IsFree 13 (frames ps)
unfolding text
frames-IsFree [] h = tt
frames-IsFree (p ∷ ps) ((n, e, f, r, d), h) = (
  refl,
  (
    refl,
    (
      refl,
      (
        refl,
        (
          refl,
          (
            refl,
            All-append (λ c. eqb c 13 ≡ false) (p ++ 10 ∷ 10 ∷ []) (frames ps)
                (All-append (λ c. eqb c 13 ≡ false) p (10 ∷ 10 ∷ []) r (refl, (refl, tt)))
                (frames-IsFree ps h),
          ),
        ),
      ),
    ),
  ),
)

frames-Drains : (ps : List Text) → All IsPayload ps → Drains (frames ps) (map line ps) []
frames-Drains [] h = at_end {p = []} (unfold cut_block in refl)
frames-Drains (p ∷ ps) ((n, e, f, r, d), h) =
    cut_off
      (ap cut_block (append_assoc (line p) (10 ∷ 10 ∷ []) (frames ps))
        ∙ cut_block-IsFree (line p) (frames ps) (line-IsFree p f))
      (frames-Drains ps h)

events_in-line : (ps : List Text) → All IsPayload ps → events_in (map line ps) ≡ ps
events_in-line [] h = refl
events_in-line (p ∷ ps) (h, k) =
    ap₂ (λ o es. events_of o ++ es) (sse_event_payload-line p h) (events_in-line ps k)

-- However a stream of event frames is cut into chunks, as long as no CR LF pair is cut in two,
-- feeding the chunks yields the payloads in order and leaves nothing in the parser. The payloads are trimmed single lines, not blank, and none
-- is the mark DONE in brackets, which ends a stream.
pub feed_all-frames :
    (ps chunks : List Text)
    → All IsPayload ps
    → concat chunks ≡ frames ps
    → IsUnsplit chunks
    → feed_all [] chunks ≡ ([], ps)
feed_all-frames ps chunks h e k =
    feed_all-concat chunks k
    ∙ ap (feed []) e
    ∙ Parses-unique (frames ps) (feed [] (frames ps)) ([], ps)
        (subst (λ s. Parses s (feed [] (frames ps)))
          (replace_crlf_of_IsFree (frames ps) (frames-IsFree ps h)) (feed-Parses [] (frames ps)))
        (map line ps, frames-Drains ps h, sym (events_in-line ps h))
