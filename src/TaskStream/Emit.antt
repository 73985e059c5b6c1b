-- ===== src/TaskStream/Emit.antt =====
-- The two ways in which events reach the client: the loop over the replay, and live events.
use claw_work.Event.{is_terminal_event}
use claw_work.Prelude.{
  ℕ, Bool-cases, List, [], append-nil, arith, false, if◌then◌else◌, inl, inr, leb, refl, ◌++◌, ◌∷◌,
  ◌≡◌, any, ap, append_assoc, ◌∙◌, true,
}
use claw_work.TaskStream.Order.{Ascending, fresh}
use claw_work.TaskStream.{
  PersistedTaskEvent, Stream, emit, next, complete, emit_all, on_live, on_live_all,
}

-- The events up to the first terminal one, with it.
unfoldable pub until_terminal : List PersistedTaskEvent → List PersistedTaskEvent
until_terminal [] = []
until_terminal (p ∷ ps) = p ∷ (if is_terminal_event p.event then [] else until_terminal ps)

pub emit_all-sent :
    (ps : List PersistedTaskEvent) (s : Stream)
    → s.closed ≡ false
    → (emit_all ps s).sent ≡ s.sent ++ until_terminal (fresh s.last_sent_id ps)
unfolding emit_all fresh until_terminal
emit_all-sent [] s h = rw append-nil refl
emit_all-sent (p ∷ ps) s h = elim (Bool-cases (leb p.id s.last_sent_id)) [
  | inl e ↦ ground (arith, emit_all-sent ps s h)
  | inr e ↦ elim (Bool-cases (is_terminal_event p.event)) [
    | inl t ↦ ground arith
    | inr t ↦ ground (
      arith,
      emit_all-sent ps (next p s) h,
      append_assoc s.sent (p ∷ []) (until_terminal (fresh p.id ps)),
    )
  ]
]

pub closed-emit_all :
    (ps : List PersistedTaskEvent) (s : Stream)
    → s.closed ≡ false
    → ((emit_all ps s).closed
        ≡ any (λ p. is_terminal_event p.event) (until_terminal (fresh s.last_sent_id ps)))
unfolding emit_all fresh until_terminal any
closed-emit_all [] s h = h
closed-emit_all (p ∷ ps) s h = elim (Bool-cases (leb p.id s.last_sent_id)) [
  | inl e ↦ ground (arith, closed-emit_all ps s h)
  | inr e ↦ elim (Bool-cases (is_terminal_event p.event)) [
    | inl t ↦ ground arith
    | inr t ↦ ground (arith, closed-emit_all ps (next p s) h)
  ]
]

on_live-queue :
    (p : PersistedTaskEvent) (s : Stream)
    → s.subscribed ≡ true
    → s.replaying ≡ true
    → on_live p s ≡ record s { live_queue = s.live_queue ++ p ∷ [] }
unfolding on_live
on_live-queue p s h r = ground arith

pub on_live_all-queue :
    (ps : List PersistedTaskEvent) (s : Stream)
    → s.subscribed ≡ true
    → s.replaying ≡ true
    → on_live_all ps s ≡ record s { live_queue = s.live_queue ++ ps }
unfolding on_live_all
on_live_all-queue [] s h r = ground (arith, append-nil s.live_queue)
on_live_all-queue (p ∷ ps) s h r =
    ap (on_live_all ps) (on_live-queue p s h r)
    ∙ on_live_all-queue ps (record s { live_queue = s.live_queue ++ p ∷ [] }) h r
    ∙ ap (λ (q : List PersistedTaskEvent). record s { live_queue = q })
        (append_assoc s.live_queue (p ∷ []) ps)

pub last_of : ℕ → List PersistedTaskEvent → ℕ
last_of k [] = k
last_of k (p ∷ ps) = last_of p.id ps

pub emit_all-last :
    (ps : List PersistedTaskEvent) (s : Stream)
    → s.closed ≡ false
    → (emit_all ps s).closed ≡ false
    → (emit_all ps s).last_sent_id ≡ last_of s.last_sent_id (fresh s.last_sent_id ps)
unfolding emit_all fresh last_of
emit_all-last [] s h c = refl
emit_all-last (p ∷ ps) s h c = elim (Bool-cases (leb p.id s.last_sent_id)) [
  | inl e ↦ ground (arith, emit_all-last ps s h)
  | inr e ↦ elim (Bool-cases (is_terminal_event p.event)) [
    | inl t ↦ ground arith
    | inr t ↦ ground (arith, emit_all-last ps (next p s) h)
  ]
]

pub last_of-Ascending :
    (k : ℕ) (ps qs : List PersistedTaskEvent) → Ascending k (ps ++ qs) → Ascending (last_of k ps) qs
unfolding last_of
last_of-Ascending k [] qs h = h
last_of-Ascending k (p ∷ ps) qs (h, a) = last_of-Ascending p.id ps qs a

on_live-closed : (p : PersistedTaskEvent) (s : Stream) → s.subscribed ≡ false → on_live p s ≡ s
unfolding on_live
on_live-closed p s h = ground arith

pub on_live_all-closed :
    (ps : List PersistedTaskEvent) (s : Stream) → s.subscribed ≡ false → on_live_all ps s ≡ s
unfolding on_live_all
on_live_all-closed [] s h = refl
on_live_all-closed (p ∷ ps) s h =
    ap (on_live_all ps) (on_live-closed p s h) ∙ on_live_all-closed ps s h

-- The state in which live events go straight to the client.
abbrev pub IsLive : Stream → Type 0
IsLive s = (s.closed ≡ false) × (s.replaying ≡ false) × (s.subscribed ≡ true)

on_live-emit : (p : PersistedTaskEvent) (s : Stream) → IsLive s → on_live p s ≡ emit p s
unfolding on_live
on_live-emit p s (c, r, h) = ground arith

pub on_live_all-sent :
    (ps : List PersistedTaskEvent) (s : Stream)
    → IsLive s
    → (on_live_all ps s).sent ≡ s.sent ++ until_terminal (fresh s.last_sent_id ps)
unfolding on_live_all fresh until_terminal next
on_live_all-sent [] s l = rw append-nil refl
on_live_all-sent (p ∷ ps) s l = elim (Bool-cases (leb p.id s.last_sent_id)) [
  | inl e ↦
      let k : emit p s ≡ s = unfold emit in ground arith in
      ap (λ (x : Stream). (on_live_all ps x).sent) (on_live-emit p s l ∙ k)
      ∙ ground (arith, on_live_all-sent ps s l)
  | inr e ↦ elim (Bool-cases (is_terminal_event p.event)) [
    | inl t ↦
        let k : emit p s ≡ complete (next p s) = unfold emit in ground arith in
        let o : (complete (next p s)).subscribed ≡ false = unfold complete in refl in
        ap (λ (x : Stream). (on_live_all ps x).sent) (on_live-emit p s l ∙ k)
        ∙ ap (λ (x : Stream). x.sent) (on_live_all-closed ps (complete (next p s)) o)
        ∙ unfold complete in ground arith
    | inr t ↦
        let k : emit p s ≡ next p s = unfold emit in ground arith in
        ap (λ (x : Stream). (on_live_all ps x).sent) (on_live-emit p s l ∙ k)
        ∙ ground (
          arith,
          on_live_all-sent ps (next p s) l,
          append_assoc s.sent (p ∷ []) (until_terminal (fresh p.id ps)),
        )
  ]
]
