-- ===== src/EventHub/Listeners.antt =====
-- Who is called for an event, and who stays registered.
use claw_work.Prelude.{
  Bool, Bool-cases, Dict, List, Option-cases, Text, [], any, ap, arith, false, filter, inl, inr,
  lookup, lookup-erase_self, lookup-insert_self, not, or_else, refl, true, ℕ, ◌++◌, ◌==◌, ◌||◌, ◌∙◌,
  ◌∷◌, ◌≡◌,
}
use claw_work.Event.{Detail}
use claw_work.TaskStream.{PersistedTaskEvent}
use claw_work.EventHub.{Hub, Calls, deliver, publish, subscribe, unsubscribe, add, calls_of, keep}

unfoldable pub is_called : ℕ → Calls → Bool
is_called l [] = false
is_called l ((k, e) ∷ calls) = k == l || is_called l calls

abbrev has : ℕ → List ℕ → Bool
has l ls = any (λ x. x == l) ls

is_called-calls_of :
    (l : ℕ) (e : PersistedTaskEvent) (ls : List ℕ) → is_called l (calls_of e ls) ≡ has l ls
unfolding is_called any
is_called-calls_of l e [] = refl
is_called-calls_of l e (k ∷ ls) = rw (is_called-calls_of l e ls) refl

has-concat : (l : ℕ) (ls : List ℕ) → has l (ls ++ l ∷ []) ≡ true
unfolding any
has-concat l [] = ground arith
has-concat l (k ∷ ls) = ground (arith, has-concat l ls)

has-add : (l : ℕ) (ls : List ℕ) → has l (add l ls) ≡ true
unfolding add
has-add l ls = elim (Bool-cases (has l ls)) [
  | inl y ↦ rw (add, y) y
  | inr n ↦ rw (add, n) (has-concat l ls)
]

has-filter : (l : ℕ) (ls : List ℕ) → has l (filter (λ x. not (x == l)) ls) ≡ false
unfolding any filter
has-filter l [] = refl
has-filter l (k ∷ ls) = ground (arith, has-filter l ls)

called_by :
    (task : Text) (e : PersistedTaskEvent) (hub : Hub)
    → (publish task e hub).1 ≡ calls_of e (or_else (lookup task hub.listeners) [])
unfolding publish deliver
called_by task e hub = elim (Option-cases (lookup task hub.listeners)) [
  | inl n ↦ rw (publish, deliver, n) refl
  | inr (ls, s) ↦ rw (publish, deliver, s) refl
]

lookup-keep :
    (task : Text) (ls : List ℕ) (m : Dict (List ℕ)) → or_else (lookup task (keep task ls m)) [] ≡ ls
lookup-keep task [] m = rw (lookup-erase_self task m) refl
lookup-keep task (l ∷ ls) m = rw (lookup-insert_self task (l ∷ ls) m) refl

has-unsubscribe :
    (task : Text) (l : ℕ) (hub : Hub)
    → has l (or_else (lookup task (unsubscribe task l hub).listeners) []) ≡ false
unfolding unsubscribe
has-unsubscribe task l hub = elim (Option-cases (lookup task hub.listeners)) [
  | inl n ↦ rw (unsubscribe, n) (rw n (unfold any in refl))
  | inr (ls, s) ↦
      rw (unsubscribe, s)
        (ap (has l) (lookup-keep task (filter (λ x. not (x == l)) ls) hub.listeners)
          ∙ has-filter l ls)
]

-- A listener that has just subscribed to a task is called for the next event that is published for
-- it, and one that has unsubscribed is not.
pub publish-subscribe :
    (task : Text) (l : ℕ) (e : PersistedTaskEvent) (hub : Hub)
    → (is_called l (publish task e (subscribe task l hub)).1 ≡ true)
      × (is_called l (publish task e (unsubscribe task l hub)).1 ≡ false)
publish-subscribe task l e hub = (
  ap (is_called l) (called_by task e (subscribe task l hub))
      ∙ is_called-calls_of l e _
      ∙ (unfold subscribe in
          ap (λ o. has l (or_else o []))
            (lookup-insert_self task (add l (or_else (lookup task hub.listeners) [])) hub.listeners)
          ∙ has-add l (or_else (lookup task hub.listeners) [])),
  ap (is_called l) (called_by task e (unsubscribe task l hub))
      ∙ is_called-calls_of l e _
      ∙ has-unsubscribe task l hub,
)

-- The calls that are left for the event after this one, of those it would lead to by itself.
abbrev pub left_after : Detail → Calls → Calls
left_after Detail.completed calls = []
left_after (Detail.failed code message) calls = []
left_after (Detail.accepted) calls = calls
left_after (Detail.stage_changed stage) calls = calls
left_after (Detail.delta s) calls = calls
left_after (Detail.result_created r) calls = calls
left_after (Detail.cancelled message) calls = calls
