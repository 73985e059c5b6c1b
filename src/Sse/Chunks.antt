-- ===== src/Sse/Chunks.antt =====
-- Reading in chunks: the frames do not depend on where the network cuts the text, as long as it
-- holds no carriage return; a "\r\n" that is cut in two is not recognised.
use claw_work.Prelude.{
  All, List, Option, Text, [], append-nil, append_assoc, arith, none, refl, some, ◌++◌, ◌∷◌, ◌≡◌,
  ◌≢◌, ap, ◌∙◌, ◌==◌, ◌&&◌, ℕ, Bool-cases, inl, inr, false,
}
use claw_work.Sse.{lf, cr, keep_unit, replace_crlf, cut, drain, feed, feed_all}
use claw_work.Sse.Frames.{Drains, stop, take, drain-Drains, Drains-append, Drains_unique}

abbrev pub NoCr : Text → Type 0
NoCr s = All (λ c. c ≢ cr) s

abbrev pub NoLf : Text → Type 0
NoLf s = All (λ c. c ≢ lf) s

abbrev pub concat : List Text → Text
concat [] = []
concat (s ∷ ss) = s ++ concat ss

pub replace_crlf-NoCr : (s : Text) → NoCr s → replace_crlf s ≡ s
unfolding replace_crlf
replace_crlf-NoCr [] h = refl
replace_crlf-NoCr (c ∷ []) h = refl
replace_crlf-NoCr (c ∷ d ∷ s) (h, k) = ground (arith, replace_crlf-NoCr (d ∷ s) k)

Drains-rest : {b r : Text} {raws : List Text} → Drains b raws r → cut r ≡ none
Drains-rest (stop e) = e
Drains-rest (take e d) = Drains-rest d

feed_all-Drains :
    (b : Text) (chunks : List Text)
    → cut b ≡ none
    → All NoCr chunks
    → Drains (b ++ concat chunks) (feed_all b chunks).0 (feed_all b chunks).1
unfolding feed_all
feed_all-Drains b [] e h = rw append-nil (stop e)
feed_all-Drains b (chunk ∷ chunks) e (h, hs) =
    unfold feed in
    rw (replace_crlf-NoCr chunk h, ← append_assoc)
      (Drains-append (concat chunks) (drain-Drains (b ++ chunk)) (
        feed_all-Drains (drain (b ++ chunk)).1 chunks (Drains-rest (drain-Drains (b ++ chunk))) hs))

-- Where no chunk holds a carriage return, the frames that are read and the rest that is kept are
-- those of the whole text, wherever it is cut into chunks.
pub feed_all-concat :
    (chunks : List Text) → All NoCr chunks → feed_all [] chunks ≡ drain (concat chunks)
feed_all-concat chunks h =
    Drains_unique (feed_all-Drains [] chunks (unfold cut in refl) h) (drain-Drains (concat chunks))

abbrev pub put_front : Text → Option (Text × Text) → Option (Text × Text)
put_front s none = none
put_front s (some (t, u)) = some (s ++ t, u)

pub cut-NoLf : (s u : Text) → NoLf s → cut (s ++ u) ≡ put_front s (cut u)
unfolding cut
cut-NoLf [] u h = ground arith
cut-NoLf (c ∷ []) [] h = refl
cut-NoLf (c ∷ []) (d ∷ u) (h, k) = ground (arith)
cut-NoLf (c ∷ d ∷ s) u (h, k) = ground (arith, cut-NoLf (d ∷ s) u k)

replace_crlf-append_NoCr : (s u : Text) → NoCr s → replace_crlf (s ++ u) ≡ s ++ replace_crlf u
unfolding replace_crlf
replace_crlf-append_NoCr [] u h = refl
replace_crlf-append_NoCr (c ∷ []) [] h = refl
replace_crlf-append_NoCr (c ∷ []) (d ∷ u) (h, k) = ground arith
replace_crlf-append_NoCr (c ∷ d ∷ s) u (h, k) = ground (arith, replace_crlf-append_NoCr (d ∷ s) u k)

drain-cut-none : (b : Text) → cut b ≡ none → drain b ≡ ([], b)
drain-cut-none b e = Drains_unique (drain-Drains b) (stop e)

-- A text without an empty line that does not end in "\n": what a frame is.
abbrev pub OneFrame : Text → Type 0
OneFrame s = cut (s ++ lf ∷ []) ≡ none

keep_unit-none : (c : ℕ) (o : Option (Text × Text)) → keep_unit c o ≡ none → o ≡ none
keep_unit-none c none h = refl
keep_unit-none c (some (s, t)) h = absurd (ground arith)

cut-tail :
    (c d : ℕ) (s : Text)
    → cut (c ∷ d ∷ s) ≡ none
    → ((c == lf && d == lf) ≡ false) × (cut (d ∷ s) ≡ none)
unfolding cut
cut-tail c d s h = elim (Bool-cases (c == lf && d == lf)) [
  | inl y ↦ absurd (ground arith)
  | inr n ↦ (n, keep_unit-none c (cut (d ∷ s)) (ground arith))
]

cut-unended : (s u : Text) → OneFrame s → cut (cr ∷ u) ≡ none → cut (s ++ cr ∷ u) ≡ none
unfolding cut
cut-unended [] u h e = e
cut-unended (c ∷ []) u h e = rw e (ground arith)
cut-unended (c ∷ d ∷ s) u h e =
    let (n, k) = cut-tail c d (s ++ lf ∷ []) h in rw (n, cut-unended (d ∷ s) u k e) refl

cut-ended : (s : Text) → OneFrame s → cut (s ++ lf ∷ lf ∷ []) ≡ some (s, [])
unfolding cut
cut-ended [] h = refl
cut-ended (c ∷ []) h = let (n, k) = cut-tail c lf [] h in rw n refl
cut-ended (c ∷ d ∷ s) h =
    let (n, k) = cut-tail c d (s ++ lf ∷ []) h in rw (n, cut-ended (d ∷ s) k) refl

-- What a chunk does that completes no frame.
feed-none :
    (b chunk u : Text) → replace_crlf chunk ≡ u → cut (b ++ u) ≡ none → feed b chunk ≡ ([], b ++ u)
unfolding feed
feed-none b chunk u e h = rw e (drain-cut-none (b ++ u) h)

module _ (s : Text) (frame : OneFrame s) (no_cr : NoCr s) where
  feed-cr : feed [] (s ++ cr ∷ []) ≡ ([], s ++ cr ∷ [])
  unfolding replace_crlf
  feed-cr =
      feed-none [] (s ++ cr ∷ []) (s ++ cr ∷ []) (replace_crlf-append_NoCr s (cr ∷ []) no_cr)
        (cut-unended s _ frame (unfold cut in refl))

  feed-lf-cr : feed (s ++ cr ∷ []) (lf ∷ cr ∷ []) ≡ ([], s ++ cr ∷ lf ∷ cr ∷ [])
  feed-lf-cr =
      feed-none (s ++ cr ∷ []) (lf ∷ cr ∷ []) (lf ∷ cr ∷ []) (unfold replace_crlf in refl)
        (rw append_assoc (cut-unended s _ frame (unfold cut in refl)))
      ∙ ap (λ (t : Text). ([], t)) (append_assoc s (cr ∷ []) (lf ∷ cr ∷ []))

  feed-lf : feed (s ++ cr ∷ lf ∷ cr ∷ []) (lf ∷ []) ≡ ([], s ++ cr ∷ lf ∷ cr ∷ lf ∷ [])
  feed-lf =
      feed-none (s ++ cr ∷ lf ∷ cr ∷ []) (lf ∷ []) (lf ∷ []) (unfold replace_crlf in refl)
        (rw append_assoc (cut-unended s _ frame (unfold cut in refl)))
      ∙ ap (λ (t : Text). ([], t)) (append_assoc s (cr ∷ lf ∷ cr ∷ []) (lf ∷ []))

  feed-lf-cr-lf : feed (s ++ cr ∷ []) (lf ∷ cr ∷ lf ∷ []) ≡ ((s ++ cr ∷ []) ∷ [], [])
  unfolding feed
  feed-lf-cr-lf =
      unfold replace_crlf in Drains_unique (drain-Drains ((s ++ cr ∷ []) ++ lf ∷ lf ∷ [])) taken
    where
      taken : Drains ((s ++ cr ∷ []) ++ lf ∷ lf ∷ []) ((s ++ cr ∷ []) ∷ []) []
      taken =
          take {b' = []} {raw = s ++ cr ∷ []}
            (cut-ended (s ++ cr ∷ [])
              (rw append_assoc (cut-unended s (lf ∷ []) frame (unfold cut in refl))))
            (stop {b = []} (unfold cut in refl))

  feed_whole : feed [] (s ++ cr ∷ lf ∷ cr ∷ lf ∷ []) ≡ (s ∷ [], [])
  unfolding feed
  feed_whole =
      rw (replace_crlf-append_NoCr s (cr ∷ lf ∷ cr ∷ lf ∷ []) no_cr)
        (unfold replace_crlf in Drains_unique (drain-Drains (s ++ lf ∷ lf ∷ [])) taken)
    where
      taken : Drains (s ++ lf ∷ lf ∷ []) (s ∷ []) []
      taken = take {b' = []} {raw = s} (cut-ended s frame) (stop {b = []} (unfold cut in refl))

-- A frame `s` whose end "\r\n\r\n" is cut inside both of its "\r\n" is lost for the reader: nothing
-- is read and each raw "\r" stays in the buffer. The same text in one chunk gives the frame, and cut
-- inside the first "\r\n" alone it gives the frame with a raw "\r" at its end. The lines of `s` may
-- be joined by "\n"; it has no "\r", no empty line and no "\n" at its end.
pub feed_all_split_crlf :
    (s : Text)
    → OneFrame s
    → NoCr s
    → (feed_all [] ((s ++ cr ∷ lf ∷ cr ∷ lf ∷ []) ∷ []) ≡ (s ∷ [], []))
      × (feed_all [] ((s ++ cr ∷ []) ∷ (lf ∷ cr ∷ lf ∷ []) ∷ []) ≡ ((s ++ cr ∷ []) ∷ [], []))
      × (feed_all [] ((s ++ cr ∷ []) ∷ (lf ∷ cr ∷ []) ∷ (lf ∷ []) ∷ [])
          ≡ ([], s ++ cr ∷ lf ∷ cr ∷ lf ∷ []))
unfolding feed_all
feed_all_split_crlf s frame no_cr = (
  rw (feed_whole s frame no_cr) refl,
  rw (feed-cr s frame no_cr, feed-lf-cr-lf s frame no_cr) refl,
  rw (feed-cr s frame no_cr, feed-lf-cr s frame no_cr, feed-lf s frame no_cr) refl,
)
