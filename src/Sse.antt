-- ===== src/Sse.antt =====
-- src/executor.go `sseStreamParser`: server-sent events taken out of the chunks of a stream.
pub mod Blocks
pub mod Chunks
pub mod Crlf
pub mod Frames
use agy_identity_bridge.Base.{
  ℕ, zero, suc, Bool, true, false, not, ◌&&◌, ◌||◌, Option, none, some, List, [], ◌∷◌, ◌++◌, eqb,
  if◌then◌else◌, length, is_nil, drop,
}
use agy_identity_bridge.Text.{Text, text, ◌==◌, trim_space, has_prefix, trim_prefix, split, join}

abbrev pub starts_line : Text → Bool
starts_line [] = false
starts_line (c ∷ s) = eqb c 10

-- `strings.ReplaceAll(s, "\r\n", "\n")`
unfoldable pub replace_crlf : Text → Text
replace_crlf [] = []
replace_crlf (c ∷ s) =
    let rest = replace_crlf s in if eqb c 13 && starts_line s then rest else c ∷ rest

abbrev pub behind : ℕ → Text × Text → Text × Text
behind c (block, rest) = (c ∷ block, rest)

abbrev pub behind_some : ℕ → Option (Text × Text) → Option (Text × Text)
behind_some c none = none
behind_some c (some cut) = some (behind c cut)

-- What stands before and after the first blank line: `strings.Index(pending, "\n\n")`.
unfoldable pub cut_block : Text → Option (Text × Text)
cut_block [] = none
cut_block (c ∷ s) =
    let later = cut_block s in
    if eqb c 10 && starts_line s then some ([], drop 1 s) else behind_some c later

abbrev pub field_of_line : Text → List Text
field_of_line line =
    let trimmed = trim_space line in
    let value = trim_prefix (trim_prefix trimmed (text "data:")) (text " ") in
    if is_nil trimmed || has_prefix trimmed (text ":")
    then []
    else if not (has_prefix trimmed (text "data:"))
    then []
    else if is_nil (trim_space value)
    then []
    else value ∷ []

-- The loop over the lines of a block.
abbrev pub data_lines : List Text → List Text
data_lines [] = []
data_lines (line ∷ lines) = field_of_line line ++ data_lines lines

unfoldable pub sse_event_payload : Text → Option Text
sse_event_payload block =
    let values = data_lines (split 10 block) in
    let joined = join (10 ∷ []) values in
    if is_nil values then none else if trim_space joined == text "[DONE]" then none else some joined

abbrev pub events_of : Option Text → List Text
events_of none = []
events_of (some payload) = payload ∷ []

-- The loop of `drain`: the events of the complete blocks, and what is left. Each round takes
-- two code points at least, so the length of the text is enough fuel.
abbrev pub drain_step : (Text → List Text × Text) → Text → Option (Text × Text) → List Text × Text
drain_step loop pending none = ([], pending)
drain_step loop pending (some (block, rest)) =
    let (events, left) = loop rest in (events_of (sse_event_payload block) ++ events, left)

unfoldable pub drain_loop : ℕ → Text → List Text × Text
drain_loop zero pending = ([], pending)
drain_loop (suc fuel) pending = drain_step (drain_loop fuel) pending (cut_block pending)

-- The pending text after the call, and the events.
unfoldable pub drain : Text → Bool → Text × List Text
unfolding drain_loop
drain pending final =
    let (events, rest) = drain_loop (length pending) pending in
    if final then ([], events ++ events_of (sse_event_payload rest)) else (rest, events)

unfoldable pub feed : Text → Text → Text × List Text
unfolding drain replace_crlf
feed pending chunk = drain (pending ++ (if is_nil chunk then [] else replace_crlf chunk)) false

unfoldable pub flush : Text → Text × List Text
unfolding drain
flush pending = drain pending true

-- A parser fed with one chunk after another.
unfoldable pub feed_all : Text → List Text → Text × List Text
unfolding feed
feed_all pending [] = (pending, [])
feed_all pending (chunk ∷ chunks) =
    let (next, events) = feed pending chunk in
    let (last, more) = feed_all next chunks in (last, events ++ more)
