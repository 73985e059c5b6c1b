-- ===== src/Sse.antt =====
-- Server-sent events on the wire: the frames that the adapter writes (`writeSseEvent` of
-- apps/openclaw-adapter/src/server.ts) and the reading loop that `relayAdapterEvents` and
-- `parseAdapterEvent` of apps/mobile-api/src/tasks/tasks.service.ts and `flush` of
-- apps/mobile/src/services/stream.ts share. A text is a list of UTF-16 units.
pub mod Frames
pub mod Chunks
pub mod Wire
mod Examples
use mathlib.Core.Option
use claw_work.Prelude.{
  ℕ, List, Option, Text, [], decimal, drop, find, if◌then◌else◌, js, length, none, some,
  starts_with, suc, zero, ◌&&◌, ◌++◌, ◌==◌, ◌∷◌, map,
}

abbrev pub lf : ℕ
lf = 10

abbrev pub cr : ℕ
cr = 13

-- `replace(/\r\n/g, "\n")`
unfoldable pub replace_crlf : Text → Text
replace_crlf [] = []
replace_crlf (c ∷ []) = c ∷ []
replace_crlf (c ∷ d ∷ s) =
    let rest = replace_crlf (d ∷ s) in if c == cr && d == lf then rest else c ∷ rest

abbrev pub keep_unit : ℕ → Option (Text × Text) → Option (Text × Text)
keep_unit c none = none
keep_unit c (some (s, t)) = some (c ∷ s, t)

-- `indexOf("\n\n")` and the two `slice`s: the text before the first "\n\n", and that behind it.
unfoldable pub cut : Text → Option (Text × Text)
cut [] = none
cut (c ∷ []) = none
cut (c ∷ d ∷ s) =
    let later = keep_unit c (cut (d ∷ s)) in if c == lf && d == lf then some ([], s) else later

-- The loop `while (buffer.includes("\n\n"))`: the raw frames, and the buffer that is left.
unfoldable pub drain_fuel : ℕ → Text → List Text × Text
drain_fuel zero b = ([], b)
drain_fuel (suc fuel) b = elim (cut b) [
  | none ↦ ([], b)
  | some (raw, b') ↦ let (raws, rest) = drain_fuel fuel b' in (raw ∷ raws, rest)
]

unfoldable pub drain : Text → List Text × Text
unfolding drain_fuel
drain b = drain_fuel (suc (length b)) b

-- A chunk arrives: `buffer += chunk.replace(…)`, then the loop.
unfoldable pub feed : Text → Text → List Text × Text
unfolding drain replace_crlf
feed b chunk = drain (b ++ replace_crlf chunk)

unfoldable pub feed_all : Text → List Text → List Text × Text
unfolding feed
feed_all b [] = ([], b)
feed_all b (chunk ∷ chunks) =
    let (raws, b') = feed b chunk in let (more, rest) = feed_all b' chunks in (raws ++ more, rest)

abbrev push_front : ℕ → List Text → List Text
push_front c [] = (c ∷ []) ∷ []
push_front c (l ∷ ls) = (c ∷ l) ∷ ls

-- `split("\n")`
unfoldable pub lines : Text → List Text
lines [] = [] ∷ []
lines (c ∷ s) = let rest = lines s in if c == lf then [] ∷ rest else push_front c rest

-- `lines.find((line) => line.startsWith(prefix))?.slice(prefix.length)`
unfoldable pub line_after : Text → List Text → Option Text
unfolding starts_with
line_after prefix ls = Option.map (drop (length prefix)) (find (λ l. starts_with l prefix) ls)

-- The `id` and `data` of a raw frame.
unfoldable pub parse_frame : Text → Option Text × Option Text
unfolding lines line_after
parse_frame raw = (line_after (js "id: ") (lines raw), line_after (js "data: ") (lines raw))

-- `writeSseEvent`, given the JSON text of the event.
unfoldable pub write_sse_event : ℕ → Text → Text
write_sse_event id json =
    js "id: " ++ (decimal id ++ (lf ∷ (js "data: " ++ (json ++ lf ∷ lf ∷ []))))
