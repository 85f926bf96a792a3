-- ===== src/Sse/Crlf.antt =====
-- A CR LF pair whose two bytes arrive in different chunks.
use agy_identity_bridge.Base.{
  ◌≡◌, refl, ap, ◌∙◌, subst, false, none, List, [], ◌∷◌, ◌++◌, append_assoc,
}
use agy_identity_bridge.Text.{Text}
use agy_identity_bridge.Text.Splitting.{IsFree}
use agy_identity_bridge.Sse.{replace_crlf, cut_block, sse_event_payload, events_of, feed, feed_all}
use agy_identity_bridge.Sse.Blocks.{at_end, cut_off}
use agy_identity_bridge.Sse.Chunks.{
  Parses, Parses-unique, feed-Parses, feed_all-Parses, replaced, replace_crlf-append, ends_return,
}
use agy_identity_bridge.Sse.Frames.{cut_block-IsFree, replace_crlf_of_IsFree}

-- The end of an event with CR LF line ends, and the same bytes cut inside both pairs.
abbrev pub crlf_end : Text
crlf_end = 13 ∷ 10 ∷ 13 ∷ 10 ∷ []

abbrev pub cut_chunks : Text → List Text
cut_chunks d = (d ++ 13 ∷ []) ∷ (10 ∷ 13 ∷ []) ∷ (10 ∷ []) ∷ []

cut_block-crlf : (d : Text) → IsFree 10 d → cut_block (d ++ crlf_end) ≡ none
unfolding cut_block
cut_block-crlf [] h = refl
cut_block-crlf (c ∷ d) (h, k) = rw (h, cut_block-crlf d k) refl

ends_return-false : (d : Text) → IsFree 13 d → ends_return d ≡ false
ends_return-false [] h = refl
ends_return-false (c ∷ []) (h, k) = h
ends_return-false (c ∷ d ∷ s) (h, k) = ends_return-false (d ∷ s) k

replace_crlf-before : (d s : Text) → IsFree 13 d → replace_crlf (d ++ s) ≡ d ++ replace_crlf s
replace_crlf-before d s k =
    replace_crlf-append d s (rw (ends_return-false d k) refl)
    ∙ ap (λ t. t ++ replace_crlf s) (replace_crlf_of_IsFree d k)

replaced-cut : (d : Text) → IsFree 13 d → replaced (cut_chunks d) ≡ d ++ crlf_end
replaced-cut d k =
    ap (λ t. t ++ (replace_crlf (10 ∷ 13 ∷ []) ++ (replace_crlf (10 ∷ []) ++ [])))
      (replace_crlf-before d (13 ∷ []) k)
    ∙ (unfold replace_crlf in append_assoc d (13 ∷ []) (10 ∷ 13 ∷ 10 ∷ []))

-- A block of one line that ends in two CR LF pairs yields its payload, if it has one, when it
-- arrives in one chunk. When the same bytes arrive in chunks that cut both pairs, nothing is
-- yielded and all of it stays in the parser.
pub feed_all-cut_chunks :
    (d : Text)
    → IsFree 10 d
    → IsFree 13 d
    → (feed [] (d ++ crlf_end) ≡ ([], events_of (sse_event_payload d) ++ []))
      × (feed_all [] (cut_chunks d) ≡ (d ++ crlf_end, []))
feed_all-cut_chunks d h k = (
  Parses-unique (d ++ 10 ∷ 10 ∷ []) (feed [] (d ++ crlf_end))
      ([], events_of (sse_event_payload d) ++ [])
      (subst (λ s. Parses s (feed [] (d ++ crlf_end)))
        (replace_crlf-before d crlf_end k ∙ ap (λ t. d ++ t) (unfold replace_crlf in refl))
        (feed-Parses [] (d ++ crlf_end)))
      (
        d ∷ [],
        cut_off (cut_block-IsFree d [] h) (at_end {p = []} (unfold cut_block in refl)),
        refl,
      ),
  Parses-unique (d ++ crlf_end) (feed_all [] (cut_chunks d)) (d ++ crlf_end, [])
      (subst (λ s. Parses s (feed_all [] (cut_chunks d))) (replaced-cut d k)
        (feed_all-Parses [] (cut_chunks d) (unfold cut_block in refl)))
      ([], at_end (cut_block-crlf d h), refl),
)
