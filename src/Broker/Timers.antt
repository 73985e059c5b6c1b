-- ===== src/Broker/Timers.antt =====
-- The broker's clean-up timers, and what a terminal event does to a task.
use claw_work.Broker.Replay.{Op, apply, cleaned, closed, published, subscribed, unsubscribed}
use claw_work.Event.{TaskStreamEvent, is_terminal_event}
use claw_work.Prelude.{
  ℕ, All, All-filter, All-map, Dict, List, Option, Text, arith, lookup, lookup-insert_self, none,
  not, some, ◌<◌, ◌==◌, ◌≡◌, ◌≢◌, Bool-cases, [], inl, inr, lookup-erase_ne, lookup-insert_ne, refl,
  ◌∙◌, ◌∷◌, ◌⊎◌, Option-cases, erase, lookup-erase_self, text_eq, true, ==_iff, filter,
}
use claw_work.Broker.{
  Broker, cleanup, clear_timeout, schedule_cleanup, clear_all, settle, close, fire, fire_list,
  new_broker, publish, record_event, subscribe, timer_handles, unsubscribe, next_id, replay,
}

-- A pending timer is the one that the map holds for its task, and its handle has been given out.
abbrev Registered : Dict ℕ → ℕ → ℕ × Text → Type 0
Registered timers bound p = (lookup p.1 timers ≡ some p.0) × (p.0 < bound)

abbrev pub TimersMatch : Broker → Type 0
TimersMatch b = All (Registered b.cleanup_timers b.next_handle) b.pending

clear_timeout-All :
    {P Q : ℕ × Text → Type 0} (o : Option ℕ)
    → ((p : ℕ × Text) → P p → o ≢ some p.0 → Q p)
    → (pending : List (ℕ × Text)) → All P pending
    → All Q (clear_timeout o pending)
unfolding clear_timeout
clear_timeout-All none f pending h = All-map pending (λ p a. f p a (λ e. cc)) h
clear_timeout-All (some n) f pending h =
    All-filter (λ p. not (p.0 == n)) (λ p a e. f p a (λ k. ground arith)) pending h

module _ (b : Broker) (m : TimersMatch b) where
  schedule_cleanup-TimersMatch : (t : Text) → TimersMatch (schedule_cleanup t b)
  unfolding schedule_cleanup
  schedule_cleanup-TimersMatch t = (
    (lookup-insert_self t _ _, omega arith),
    clear_timeout-All (lookup t b.cleanup_timers)
        (λ p r fresh. (lookup-insert_ne _ _ (λ e. fresh (rw e r.0)) ∙ r.0, omega arith)) b.pending
        m,
  )

  cleanup-TimersMatch : (t : Text) → TimersMatch (cleanup t b)
  unfolding cleanup
  cleanup-TimersMatch t =
      clear_timeout-All (lookup t b.cleanup_timers)
        (λ p r fresh. (lookup-erase_ne _ (λ e. fresh (rw e r.0)) ∙ r.0, r.1)) b.pending m

settle-TimersMatch :
    (b : Broker) → TimersMatch b → (t : Text) (e : TaskStreamEvent) → TimersMatch (settle t e b)
unfolding settle
settle-TimersMatch b m t e = elim (Bool-cases (is_terminal_event e)) [
  | inl y ↦ rw y (schedule_cleanup-TimersMatch (record b { listeners = erase t b.listeners }) m t)
  | inr n ↦ rw n m
]

unsubscribe-TimersMatch :
    (b : Broker) → TimersMatch b → (t : Text) (l : ℕ) → TimersMatch (unsubscribe t l b)
unfolding unsubscribe
unsubscribe-TimersMatch b m t l = elim (Option-cases (lookup t b.listeners)) [
  | inl e ↦ rw (e, unsubscribe) m
  | inr (ls, e) ↦ rw (e, unsubscribe) m
]

IsIn : ℕ → List ℕ → Type 0
IsIn h [] = ⊥
IsIn h (x ∷ xs) = (x ≡ h) ⊎ IsIn h xs

clear_all-nil :
    (hs : List ℕ) (pending : List (ℕ × Text))
    → All (λ p. IsIn p.0 hs) pending
    → clear_all hs pending ≡ []
unfolding clear_all IsIn
clear_all-nil [] [] h = refl
clear_all-nil [] (p ∷ ps) h = absurd h.0
clear_all-nil (x ∷ hs) pending h =
    clear_all-nil hs _ (clear_timeout-All (some x) (λ p i k. ground arith) pending h)

lookup-timer_handles :
    (k : Text) (m : Dict ℕ) {h : ℕ} → lookup k m ≡ some h → IsIn h (timer_handles m)
unfolding lookup IsIn
lookup-timer_handles k [] e = cc
lookup-timer_handles k ((j, n) ∷ m) {h} e = elim (Bool-cases (text_eq j k)) [
  | inl y ↦ inl (ground arith)
  | inr n ↦ inr (lookup-timer_handles k m (rw n at e))
]

close-pending : (b : Broker) → TimersMatch b → (close b).pending ≡ []
unfolding close
close-pending b m =
    clear_all-nil (timer_handles b.cleanup_timers) b.pending
      (All-map b.pending (λ p r. lookup-timer_handles p.1 b.cleanup_timers r.0) m)

apply-TimersMatch : (op : Op) (b : Broker) → TimersMatch b → TimersMatch (apply op b)
unfolding apply
apply-TimersMatch (published t e) b m = unfold publish record_event in settle-TimersMatch _ m t e
apply-TimersMatch (subscribed t l) b m = unfold subscribe in m
apply-TimersMatch (unsubscribed t l) b m = unsubscribe-TimersMatch b m t l
apply-TimersMatch (cleaned t) b m = cleanup-TimersMatch b m t
apply-TimersMatch closed b m = rw (close-pending b m) tt

fire_list-TimersMatch :
    (h : ℕ) (ps : List (ℕ × Text)) (b : Broker) → TimersMatch b → TimersMatch (fire_list h ps b)
unfolding fire_list
fire_list-TimersMatch h [] b m = m
fire_list-TimersMatch h ((j, t) ∷ ps) b m = elim (Bool-cases (j == h)) [
  | inl y ↦ rw y (cleanup-TimersMatch b m t)
  | inr n ↦ rw n (fire_list-TimersMatch h ps b m)
]

fire-TimersMatch : (h : ℕ) (b : Broker) → TimersMatch b → TimersMatch (fire h b)
unfolding fire
fire-TimersMatch h b m =
    fire_list-TimersMatch h b.pending _ (clear_timeout-All (some h) (λ p r n. r) b.pending m)

-- What the program and the runtime do: a call of a method, or the firing of a timer.
pub data Call : Type 0 where
  called : Op → Call
  fired : ℕ → Call

pub step : Call → Broker → Broker
step (called op) b = apply op b
step (fired h) b = fire h b

pub steps : List Call → Broker → Broker
steps [] b = b
steps (c ∷ cs) b = steps cs (step c b)

steps-TimersMatch_from : (cs : List Call) (b : Broker) → TimersMatch b → TimersMatch (steps cs b)
unfolding steps step
steps-TimersMatch_from [] b m = m
steps-TimersMatch_from (called op ∷ cs) b m =
    steps-TimersMatch_from cs (apply op b) (apply-TimersMatch op b m)
steps-TimersMatch_from (fired h ∷ cs) b m =
    steps-TimersMatch_from cs (fire h b) (fire-TimersMatch h b m)

-- Whatever is called and whichever timers fire, every timer that is still pending is the one that
-- `cleanupTimers` holds for its task, with a handle that the runtime has given out: so a task
-- never has two pending timers, and none outlives its task's entry.
pub steps-TimersMatch :
    (retention most : ℕ) (cs : List Call) → TimersMatch (steps cs (new_broker retention most))
steps-TimersMatch retention most cs =
    steps-TimersMatch_from cs (new_broker retention most) (unfold new_broker in tt)

-- After `close` no timer is pending, whatever was called and fired before.
pub close-steps_pending :
    (retention most : ℕ) (cs : List Call)
    → (close (steps cs (new_broker retention most))).pending ≡ []
close-steps_pending retention most cs = close-pending _ (steps-TimersMatch retention most cs)

module _ (t : Text) (e : TaskStreamEvent) (b : Broker) (terminal : is_terminal_event e ≡ true) where
  fire-publish_eq :
      fire b.next_handle (publish t e b).0
      ≡ cleanup t (record (publish t e b).0 {
        pending = clear_timeout (some b.next_handle) (publish t e b).0.pending;
      })
  unfolding fire fire_list publish record_event settle schedule_cleanup
  fire-publish_eq = rw (terminal, (==_iff b.next_handle b.next_handle).1 refl) refl

  publish-lookup_ne :
      {u : Text}
      → t ≢ u
      → (lookup u (publish t e b).0.history ≡ lookup u b.history)
        × (lookup u (publish t e b).0.next_ids ≡ lookup u b.next_ids)
  unfolding publish record_event settle schedule_cleanup
  publish-lookup_ne ne = rw terminal (lookup-insert_ne _ _ ne, lookup-insert_ne _ _ ne)

  -- When the timer that a terminal event has set fires, the task is forgotten: nothing of it is
  -- replayed, it has no listener and no timer and its numbers start again from 1. The numbers
  -- and the replay of every other task stay what they were before the event.
  pub fire-publish :
      (after : ℕ) (u : Text)
      → t ≢ u
      → let b' = fire b.next_handle (publish t e b).0 in
        (replay t after b' ≡ [])
        × (next_id t b' ≡ 1)
        × (lookup t b'.listeners ≡ none)
        × (lookup t b'.cleanup_timers ≡ none)
        × (replay u after b' ≡ replay u after b)
        × (next_id u b' ≡ next_id u b)
  unfolding replay cleanup filter
  fire-publish after u ne = rw fire-publish_eq (
    rw lookup-erase_self refl,
    rw lookup-erase_self refl,
    lookup-erase_self t _,
    lookup-erase_self t _,
    rw (lookup-erase_ne _ ne, (publish-lookup_ne ne).0) refl,
    rw (lookup-erase_ne _ ne, (publish-lookup_ne ne).1) refl,
  )
