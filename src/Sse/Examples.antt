-- ===== src/Sse/Examples.antt =====
-- Tests of the reading loop, and the theorems about it at concrete texts.
use claw_work.Prelude.{List, Text, [], arith, decimal, find, js, map, refl, some, ℕ, ◌++◌, ◌∷◌, ◌≡◌}
use claw_work.Sse.{lf, cr, drain, feed_all, parse_frame, write_sse_event, cut}
use claw_work.Sse.Chunks.{concat, feed_all-concat, feed_all_split_crlf}
use claw_work.Sse.Wire.{write_all, feed_all-write_all}

abbrev wire : Text
wire = js "id: 12\ndata: {}\n\nid: 13"

drains_one : drain wire ≡ (js "id: 12\ndata: {}" ∷ [], js "id: 13")
unfolding drain cut
drains_one = refl

parses_frame : parse_frame (js "id: 12\ndata: {}") ≡ (some (js "12"), some (js "{}"))
unfolding parse_frame find
parses_frame = refl

abbrev in_two : List Text
in_two = js "id: 12\ndata: {}\n" ∷ js "\nid: 13" ∷ []

feed_all-concat_example : feed_all [] in_two ≡ drain (concat in_two)
feed_all-concat_example = feed_all-concat in_two (omega arith)

abbrev hello : Text
hello = js "id: 1\ndata: {}"

feed_all_split_crlf_example :
    (feed_all [] ((hello ++ cr ∷ lf ∷ cr ∷ lf ∷ []) ∷ []) ≡ (hello ∷ [], []))
    × (feed_all [] ((hello ++ cr ∷ []) ∷ (lf ∷ cr ∷ lf ∷ []) ∷ []) ≡ ((hello ++ cr ∷ []) ∷ [], []))
    × (feed_all [] ((hello ++ cr ∷ []) ∷ (lf ∷ cr ∷ []) ∷ (lf ∷ []) ∷ [])
        ≡ ([], hello ++ cr ∷ lf ∷ cr ∷ lf ∷ []))
feed_all_split_crlf_example = feed_all_split_crlf hello (unfold cut in refl) (omega arith)

abbrev items : List (ℕ × Text)
items = (1, js "{}") ∷ (2, js "[]") ∷ []

abbrev cut_up : List Text
cut_up = js "id: 1\ndata: {}\n" ∷ js "\nid: 2\ndata: []\n\n" ∷ []

cut_up-write_all : concat cut_up ≡ write_all items
unfolding write_all write_sse_event decimal
cut_up-write_all = refl

feed_all-write_all_example :
    (map parse_frame (feed_all [] cut_up).0
      ≡ map (λ (i : ℕ × Text). (some (decimal i.0), some i.1)) items)
    × ((feed_all [] cut_up).1 ≡ [])
feed_all-write_all_example = feed_all-write_all items cut_up (omega arith) cut_up-write_all
