-- ===== src/TaskStream/Delivery.antt =====
-- What a client of the stream receives.
use claw_work.Event.{is_terminal_event}
use claw_work.Prelude.{
  ℕ, Bool-cases, List, [], any, ap, ap₂, arith, false, inl, inr, leb, refl, sym, true, ◌++◌, ◌∙◌,
  ◌∷◌, ◌≡◌,
}
use claw_work.TaskStream.{
  PersistedTaskEvent, Stream, open_stream, sort, emit_all, on_replay, on_live_all, next,
}
use claw_work.TaskStream.Order.{
  Ascending, Ascending-left, fresh, fresh-Ascending, fresh-overlap, sort-overlap,
}
use claw_work.TaskStream.Emit.{
  until_terminal, IsLive, closed-emit_all, emit_all-last, emit_all-sent, last_of, last_of-Ascending,
  on_live_all-closed, on_live_all-queue, on_live_all-sent,
}

until_terminal-stop :
    (ps qs : List PersistedTaskEvent)
    → any (λ p. is_terminal_event p.event) (until_terminal ps) ≡ true
    → until_terminal (ps ++ qs) ≡ until_terminal ps
unfolding until_terminal any
until_terminal-stop [] qs h = cc
until_terminal-stop (p ∷ ps) qs h = ground (arith, until_terminal-stop ps qs)

until_terminal-go :
    (ps qs : List PersistedTaskEvent)
    → any (λ p. is_terminal_event p.event) (until_terminal ps) ≡ false
    → until_terminal (ps ++ qs) ≡ until_terminal ps ++ until_terminal qs
unfolding until_terminal any
until_terminal-go [] qs h = refl
until_terminal-go (p ∷ ps) qs h = ground (arith, until_terminal-go ps qs)

emit_all-subscribed :
    (ps : List PersistedTaskEvent) (s : Stream)
    → s.closed ≡ false
    → s.subscribed ≡ true
    → (emit_all ps s).closed ≡ false
    → (emit_all ps s).subscribed ≡ true
unfolding emit_all
emit_all-subscribed [] s h u c = u
emit_all-subscribed (p ∷ ps) s h u c = elim (Bool-cases (leb p.id s.last_sent_id)) [
  | inl e ↦ ground (arith, emit_all-subscribed ps s h u)
  | inr e ↦ elim (Bool-cases (is_terminal_event p.event)) [
    | inl t ↦ ground arith
    | inr t ↦ ground (arith, emit_all-subscribed ps (next p s) h u)
  ]
]

-- The stream between the replay and the later live events.
module _ (after : ℕ) (xs bs cs ds : List PersistedTaskEvent)
    (order : Ascending after ((xs ++ (bs ++ cs)) ++ ds)) where
  queued : Stream
  queued = record (open_stream after) { live_queue = bs ++ cs }

  joined : Stream
  joined = emit_all (sort ((xs ++ bs) ++ (bs ++ cs))) queued

  fresh-joined : fresh after (sort ((xs ++ bs) ++ (bs ++ cs))) ≡ xs ++ (bs ++ cs)
  fresh-joined =
      let o = Ascending-left after (xs ++ (bs ++ cs)) ds order in
      ap (fresh after) (sort-overlap after xs bs cs o) ∙ fresh-overlap after xs bs cs o

  joined-sent : joined.sent ≡ until_terminal (xs ++ (bs ++ cs))
  unfolding joined queued open_stream
  joined-sent =
      emit_all-sent (sort ((xs ++ bs) ++ (bs ++ cs))) queued refl ∙ ap until_terminal fresh-joined

  joined-closed :
      joined.closed ≡ any (λ p. is_terminal_event p.event) (until_terminal (xs ++ (bs ++ cs)))
  unfolding joined queued open_stream
  joined-closed =
      closed-emit_all (sort ((xs ++ bs) ++ (bs ++ cs))) queued refl
      ∙ ap (λ ps. any (λ p. is_terminal_event p.event) (until_terminal ps)) fresh-joined

  replayed_closed :
      joined.closed ≡ true
      → on_replay (xs ++ bs) queued ≡ record joined { replaying = false; subscribed = false }
  unfolding on_replay joined queued
  replayed_closed c = rw c refl

  replayed_live :
      joined.closed ≡ false → on_replay (xs ++ bs) queued ≡ record joined { replaying = false }
  unfolding on_replay joined queued
  replayed_live c = rw c refl

  live-last : joined.closed ≡ false → fresh joined.last_sent_id ds ≡ ds
  unfolding joined queued open_stream
  live-last c =
      let e : joined.last_sent_id ≡ last_of after (xs ++ (bs ++ cs)) =
        emit_all-last (sort ((xs ++ bs) ++ (bs ++ cs))) queued refl c
        ∙ ap (last_of after) fresh-joined in
      rw e (fresh-Ascending _ ds (last_of-Ascending after (xs ++ (bs ++ cs)) ds order))

  joined-IsLive : joined.closed ≡ false → IsLive (record joined { replaying = false })
  unfolding joined queued open_stream
  joined-IsLive c =
      (c, refl, emit_all-subscribed (sort ((xs ++ bs) ++ (bs ++ cs))) queued refl refl c)

  later-sent :
      (on_live_all ds (on_replay (xs ++ bs) queued)).sent
      ≡ until_terminal ((xs ++ (bs ++ cs)) ++ ds)
  later-sent = elim (Bool-cases joined.closed) [
    | inl c ↦
        ap (λ (x : Stream). (on_live_all ds x).sent) (replayed_closed c)
        ∙ ap (λ (x : Stream). x.sent) (on_live_all-closed ds _ refl)
        ∙ joined-sent
        ∙ sym (until_terminal-stop (xs ++ (bs ++ cs)) ds (sym joined-closed ∙ c))
    | inr c ↦
        ap (λ (x : Stream). (on_live_all ds x).sent) (replayed_live c)
        ∙ on_live_all-sent ds (record joined { replaying = false }) (joined-IsLive c)
        ∙ ap₂ (λ (a b : List PersistedTaskEvent). a ++ until_terminal b) joined-sent (live-last c)
        ∙ sym (until_terminal-go (xs ++ (bs ++ cs)) ds (sym joined-closed ∙ c))
  ]

-- A client asks for the events after `after`. While the replay is loaded, the events of `bs` and
-- `cs` arrive from the hub; the replay holds those of `xs` and `bs`; `ds` arrives later. If these
-- are in the order of their numbers, the client gets each event once and in order, up to the first
-- terminal event and nothing behind it.
pub stream-delivers :
    (after : ℕ) (xs bs cs ds : List PersistedTaskEvent)
    → Ascending after ((xs ++ (bs ++ cs)) ++ ds)
    → (on_live_all ds (on_replay (xs ++ bs) (on_live_all (bs ++ cs) (open_stream after)))).sent
      ≡ until_terminal ((xs ++ (bs ++ cs)) ++ ds)
unfolding open_stream
stream-delivers after xs bs cs ds order =
    let q : on_live_all (bs ++ cs) (open_stream after)
        ≡ record (open_stream after) { live_queue = bs ++ cs } =
      on_live_all-queue (bs ++ cs) (open_stream after) refl refl in
    ap (λ (x : Stream). (on_live_all ds (on_replay (xs ++ bs) x)).sent) q
    ∙ (unfold queued in later-sent after xs bs cs ds order)
