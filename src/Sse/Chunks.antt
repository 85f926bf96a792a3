-- ===== src/Sse/Chunks.antt =====
-- The events do not depend on how the stream is cut into chunks.
use agy_identity_bridge.Base.{
  ◌≡◌, refl, sym, ap, ap₂, ◌∙◌, subst, Bool, false, ◌&&◌, none, List, [], ◌∷◌, ◌++◌, append-nil,
  append_assoc, arith, eqb, length,
}
use agy_identity_bridge.Text.{Text}
use agy_identity_bridge.Sse.{starts_line, replace_crlf, cut_block, drain, feed, feed_all}
use agy_identity_bridge.Sse.Blocks.{
  Drains, at_end, cut_off, events_in, events_in-append, drain_loop-Drains, Drains-append,
  Drains-unique,
}

abbrev pub concat : List Text → Text
concat [] = []
concat (chunk ∷ chunks) = chunk ++ concat chunks

abbrev pub ends_return : Text → Bool
ends_return [] = false
ends_return (c ∷ []) = eqb c 13
ends_return (c ∷ d ∷ s) = ends_return (d ∷ s)

-- No CR LF pair has its two bytes in different chunks.
abbrev pub IsUnsplit : List Text → Type 0
IsUnsplit [] = Unit
IsUnsplit (chunk ∷ chunks) =
    ((ends_return chunk && starts_line (concat chunks)) ≡ false) × IsUnsplit chunks

pub replace_crlf-append :
    (a b : Text)
    → (ends_return a && starts_line b) ≡ false
    → replace_crlf (a ++ b) ≡ replace_crlf a ++ replace_crlf b
unfolding replace_crlf
replace_crlf-append [] b h = refl
replace_crlf-append (c ∷ []) b h = ground (arith, h)
replace_crlf-append (c ∷ d ∷ a) b h = ground (arith, replace_crlf-append (d ∷ a) b h)

abbrev pub replaced : List Text → Text
replaced [] = []
replaced (chunk ∷ chunks) = replace_crlf chunk ++ replaced chunks

replace_crlf-concat :
    (chunks : List Text) → IsUnsplit chunks → replace_crlf (concat chunks) ≡ replaced chunks
replace_crlf-concat [] h = unfold replace_crlf in refl
replace_crlf-concat (chunk ∷ chunks) (h, k) =
    replace_crlf-append chunk (concat chunks) h
    ∙ ap (◌++◌ (replace_crlf chunk)) (replace_crlf-concat chunks k)

-- What a call of `feed` or several of them do.
abbrev pub Parses : Text → Text × List Text → Type 0
Parses stream (left, events) = (bs : List Text) × Drains stream bs left × (events ≡ events_in bs)

pub feed-Parses :
    (pending chunk : Text) → Parses (pending ++ replace_crlf chunk) (feed pending chunk)
unfolding feed drain replace_crlf
feed-Parses pending [] = drain_loop-Drains (length (pending ++ [])) (pending ++ []) (omega arith)
feed-Parses pending (c ∷ chunk) =
    drain_loop-Drains (length (pending ++ replace_crlf (c ∷ chunk)))
      (pending ++ replace_crlf (c ∷ chunk)) (omega arith)

Drains-left : {p l : Text} {bs : List Text} → Drains p bs l → cut_block l ≡ none
Drains-left (at_end e) = e
Drains-left (cut_off e d) = Drains-left d

pub feed_all-Parses :
    (pending : Text) (chunks : List Text)
    → cut_block pending ≡ none
    → Parses (pending ++ replaced chunks) (feed_all pending chunks)
unfolding feed_all
feed_all-Parses pending [] h = rw (append-nil pending) ([], at_end h, refl)
feed_all-Parses pending (chunk ∷ chunks) h =
    let (bs, d, e) = feed-Parses pending chunk in
    let (cs, c, f) = feed_all-Parses (feed pending chunk).0 chunks (Drains-left d) in
    (
      bs ++ cs,
      rw (sym (append_assoc pending (replace_crlf chunk) (replaced chunks)))
          (Drains-append (replaced chunks) d c),
      ap₂ ◌++◌ e f ∙ sym (events_in-append bs cs),
    )

pub Parses-unique :
    (stream : Text) (x y : Text × List Text) → Parses stream x → Parses stream y → x ≡ y
Parses-unique stream (l, es) (m, fs) (bs, c, e) (cs, d, f) =
    let (g, h) = Drains-unique c d in ap₂ (λ l es. (l, es)) h (e ∙ ap events_in g ∙ sym f)

-- Feeding a stream in chunks leaves the same pending text and yields the same events in the same
-- order as feeding it whole, if no CR LF pair is cut in two.
pub feed_all-concat :
    (chunks : List Text) → IsUnsplit chunks → feed_all [] chunks ≡ feed [] (concat chunks)
feed_all-concat chunks h =
    Parses-unique (replaced chunks) (feed_all [] chunks) (feed [] (concat chunks))
      (feed_all-Parses [] chunks (unfold cut_block in refl))
      (subst (λ s. Parses s (feed [] (concat chunks))) (replace_crlf-concat chunks h)
        (feed-Parses [] (concat chunks)))
