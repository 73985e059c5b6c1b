-- ===== src/Sse/Wire.antt =====
-- What the adapter writes is what its clients read, across any cut into chunks.
use claw_work.Prelude.{
  ℕ, All-append, All-map, Text, [], arith, decimal, decimal-IsDigit, find, js, refl, some, ◌++◌,
  ◌∷◌, ◌≡◌, ◌≢◌, All, All-split, List, ap, append-nil, append_assoc, ◌∙◌, ap₂, map,
}
use claw_work.Sse.{
  lf, cut, lines, line_after, parse_frame, write_sse_event, keep_unit, cr, drain, feed_all,
}
use claw_work.Sse.Frames.{Drains, stop, drain-Drains, Drains_unique}
use claw_work.Sse.Chunks.{NoLf, NoCr, concat, cut-NoLf, feed_all-concat, put_front}

lines-NoLf : (s : Text) → NoLf s → lines s ≡ s ∷ []
unfolding lines
lines-NoLf [] h = refl
lines-NoLf (c ∷ s) (h, k) = ground (arith, lines-NoLf s k)

lines-line : (s t : Text) → NoLf s → lines (s ++ lf ∷ t) ≡ s ∷ lines t
unfolding lines
lines-line [] t h = refl
lines-line (c ∷ s) t (h, k) = ground (arith, lines-line s t k)

-- The frame that `writeSseEvent` writes, without its end.
abbrev frame_body : ℕ → Text → Text
frame_body id json = (js "id: " ++ decimal id) ++ (lf ∷ (js "data: " ++ json))

decimal-NoLf : (id : ℕ) → NoLf (decimal id)
decimal-NoLf id = All-map (decimal id) (λ c h. omega arith) (decimal-IsDigit id)

id_line-NoLf : (id : ℕ) → NoLf (js "id: " ++ decimal id)
id_line-NoLf id = All-append (λ c. c ≢ lf) (js "id: ") (decimal id) (omega arith) (decimal-NoLf id)

data_line-NoLf : (json : Text) → NoLf json → NoLf (js "data: " ++ json)
data_line-NoLf json h = All-append (λ c. c ≢ lf) (js "data: ") json (omega arith) h

parse_frame-body :
    (id : ℕ) (json : Text)
    → NoLf json
    → parse_frame (frame_body id json) ≡ (some (decimal id), some json)
unfolding parse_frame
parse_frame-body id json h =
    rw (lines-line _ _ (id_line-NoLf id), lines-NoLf _ (data_line-NoLf json h))
      (unfold line_after find in refl)

write-append :
    (id : ℕ) (json rest : Text)
    → write_sse_event id json ++ rest
      ≡ (js "id: " ++ decimal id) ++ (lf ∷ ((js "data: " ++ json) ++ (lf ∷ lf ∷ rest)))
unfolding write_sse_event
write-append id json rest = simp append_assoc

cut-single_lf : (d : ℕ) (s : Text) → d ≢ lf → cut (lf ∷ d ∷ s) ≡ keep_unit lf (cut (d ∷ s))
unfolding cut
cut-single_lf d s h = ground arith

cut-data :
    (json rest : Text)
    → NoLf json
    → cut ((js "data: " ++ json) ++ (lf ∷ lf ∷ rest)) ≡ some (js "data: " ++ json, rest)
cut-data json rest h =
    cut-NoLf (js "data: " ++ json) (lf ∷ lf ∷ rest) (data_line-NoLf json h)
    ∙ unfold cut in rw append-nil refl

cut-write :
    (id : ℕ) (json rest : Text)
    → NoLf json
    → cut (write_sse_event id json ++ rest) ≡ some (frame_body id json, rest)
cut-write id json rest h =
    ap cut (write-append id json rest)
    ∙ cut-NoLf (js "id: " ++ decimal id) _ (id_line-NoLf id)
    ∙ ap (put_front (js "id: " ++ decimal id))
        (cut-single_lf 100 _ (omega arith) ∙ ap (keep_unit lf) (cut-data json rest h))

-- The frames of a list of numbered JSON texts, one after another.
unfoldable pub write_all : List (ℕ × Text) → Text
write_all [] = []
write_all ((id, json) ∷ items) = write_sse_event id json ++ write_all items

pub bodies : List (ℕ × Text) → List Text
bodies [] = []
bodies ((id, json) ∷ items) = frame_body id json ∷ bodies items

abbrev pub OneLine : ℕ × Text → Type 0
OneLine i = NoLf i.1 × NoCr i.1

write_all-Drains :
    (items : List (ℕ × Text)) → All OneLine items → Drains (write_all items) (bodies items) []
unfolding write_all bodies
write_all-Drains [] h = stop {b = []} (unfold cut in refl)
write_all-Drains ((id, json) ∷ items) (h, hs) =
    Drains.take (cut-write id json (write_all items) h.0) (write_all-Drains items hs)

parse_frame-bodies :
    (items : List (ℕ × Text))
    → All OneLine items
    → map parse_frame (bodies items) ≡ map (λ (i : ℕ × Text). (some (decimal i.0), some i.1)) items
unfolding bodies
parse_frame-bodies [] h = refl
parse_frame-bodies ((id, json) ∷ items) (h, hs) =
    ap₂ ◌∷◌ (parse_frame-body id json h.0) (parse_frame-bodies items hs)

write-NoCr : (id : ℕ) (json : Text) → NoCr json → NoCr (write_sse_event id json)
unfolding write_sse_event
write-NoCr id json h =
    let digits : NoCr (decimal id) =
      All-map (decimal id) (λ c d. omega arith) (decimal-IsDigit id) in
    let ended : NoCr (json ++ lf ∷ lf ∷ []) =
      All-append (λ c. c ≢ cr) json (lf ∷ lf ∷ []) h (omega arith) in
    let back : NoCr (lf ∷ (js "data: " ++ (json ++ lf ∷ lf ∷ []))) =
      (omega arith, All-append (λ c. c ≢ cr) (js "data: ") _ (omega arith) ended) in
    All-append (λ c. c ≢ cr) (js "id: ") _ (omega arith)
      (All-append (λ c. c ≢ cr) (decimal id) _ digits back)

write_all-NoCr : (items : List (ℕ × Text)) → All OneLine items → NoCr (write_all items)
unfolding write_all write_sse_event
write_all-NoCr [] h = tt
write_all-NoCr ((id, json) ∷ items) (h, hs) =
    All-append (λ c. c ≢ cr) (write_sse_event id json) (write_all items) (write-NoCr id json h.1)
      (write_all-NoCr items hs)

NoCr-chunks : (chunks : List Text) → NoCr (concat chunks) → All NoCr chunks
NoCr-chunks [] h = tt
NoCr-chunks (s ∷ chunks) h =
    let (a, b) = All-split (λ c. c ≢ cr) s (concat chunks) h in (a, NoCr-chunks chunks b)

-- Events that the adapter writes to a stream, each JSON text on one line, are read back by the
-- clients' loop with their numbers and their JSON texts, in order and with nothing left over,
-- however the network cuts the stream into chunks.
pub feed_all-write_all :
    (items : List (ℕ × Text)) (chunks : List Text)
    → All OneLine items
    → concat chunks ≡ write_all items
    → (map parse_frame (feed_all [] chunks).0
        ≡ map (λ (i : ℕ × Text). (some (decimal i.0), some i.1)) items)
      × ((feed_all [] chunks).1 ≡ [])
feed_all-write_all items chunks h e =
    let free : All NoCr chunks = NoCr-chunks chunks (rw e (write_all-NoCr items h)) in
    let all : feed_all [] chunks ≡ (bodies items, []) =
      feed_all-concat chunks free
      ∙ ap drain e
      ∙ Drains_unique (drain-Drains (write_all items)) (write_all-Drains items h) in
    rw all (parse_frame-bodies items h, refl)
