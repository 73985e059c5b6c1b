-- ===== src/Broker/Replay.antt =====
-- The broker's history against a log: for every task, all events since it was last cleaned up.
use claw_work.Prelude.{
  ℕ, suc, ◌+◌, ◌≡◌, refl, ap, ◌∙◌, Text, text_eq, text_eq_iff, List, [], ◌∷◌, ◌++◌, length, drop,
  lookup, lookup-insert, lookup-erase, filter, slice_last, slice_last-concat, slice_last-nil,
  lt→ltb, sym, ◌<◌, if◌then◌else◌, ltb, lookup-insert_self, inl, inr, Bool-cases, Option-cases,
  or_else, length-append, arith, false, zero, drop-drop, ◌-◌, ◌==◌, ◌≤◌,
}
use claw_work.Event.{TaskStreamEvent, is_terminal_event}
use claw_work.Broker.{
  BrokerEvent, Broker, new_broker, publish, subscribe, unsubscribe, cleanup, close, replay, next_id,
  settle, record_event,
}

-- The calls that the adapter makes; `cleaned` is also what a fired timer does.
pub data Op : Type 0 where
  published : Text → TaskStreamEvent → Op
  subscribed unsubscribed : Text → ℕ → Op
  cleaned : Text → Op
  closed : Op

unfoldable pub apply : Op → Broker → Broker
apply (published task event) b = (publish task event b).0
apply (subscribed task l) b = subscribe task l b
apply (unsubscribed task l) b = unsubscribe task l b
apply (cleaned task) b = cleanup task b
apply closed b = close b

unfoldable pub run : List Op → Broker → Broker
run [] b = b
run (op ∷ ops) b = run ops (apply op b)

-- The specification: the log of one task.
unfoldable pub log_step : Text → Op → List TaskStreamEvent → List TaskStreamEvent
log_step t (published task event) log = if text_eq task t then log ++ event ∷ [] else log
log_step t (subscribed task l) log = log
log_step t (unsubscribed task l) log = log
log_step t (cleaned task) log = if text_eq task t then [] else log
log_step t closed log = []

unfoldable pub log_from : Text → List Op → List TaskStreamEvent → List TaskStreamEvent
log_from t [] log = log
log_from t (op ∷ ops) log = log_from t ops (log_step t op log)

-- The events of a log with the numbers that clients see.
unfoldable pub number : ℕ → List TaskStreamEvent → List BrokerEvent
number n [] = []
number n (e ∷ es) = record { id = n; event = e } ∷ number (suc n) es

number-concat :
    (n : ℕ) (es : List TaskStreamEvent) (e : TaskStreamEvent)
    → number n (es ++ e ∷ []) ≡ number n es ++ record { id = n + length es; event = e } ∷ []
unfolding number
number-concat n [] e = ground arith
number-concat n (x ∷ es) e =
    ap (λ items. record { id = n; event = x } ∷ items)
      (number-concat (suc n) es e
        ∙ ap (λ k. number (suc n) es ++ record { id = k; event = e } ∷ []) (omega arith))

record Agrees (most : ℕ) (b : Broker) (t : Text) (log : List TaskStreamEvent) : Type 0 where
  cap : b.max_events_per_task ≡ most
  kept : or_else (lookup t b.history) [] ≡ slice_last most (number 1 log)
  next : next_id t b ≡ 1 + length log

module _ (t : Text) {most : ℕ} {b : Broker} {log : List TaskStreamEvent}
    (h : Agrees most b t log) where
  own-Agrees :
      (event : TaskStreamEvent)
      → Agrees most
          (record_event t (record { id = next_id t b; event = event }) b)
          t
          (log ++ event ∷ [])
  unfolding record_event
  own-Agrees event = record {
    cap = h.cap;
    kept =
        rw (lookup-insert_self, h.cap, h.kept, h.next, number-concat) (slice_last-concat most _ _);
    next = rw lookup-insert_self (omega (arith, h.next, length-append log (event ∷ [])));
  }

  recorded-Agrees :
      (task : Text) (event : TaskStreamEvent)
      → Agrees most
          (record_event task (record { id = next_id task b; event = event }) b)
          t
          (log_step t (published task event) log)
  unfolding log_step
  recorded-Agrees task event = elim (Bool-cases (text_eq task t)) [
    | inl same ↦ rw (same, (text_eq_iff task t).0 same) (own-Agrees event)
    | inr other ↦ rw other (
        unfold record_event in
        record {
          cap = h.cap;
          kept = rw (lookup-insert, other) h.kept;
          next = rw (lookup-insert, other) h.next;
        })
  ]

  settled-Agrees : (task : Text) (event : TaskStreamEvent) → Agrees most (settle task event b) t log
  unfolding settle
  settled-Agrees task event = elim (Bool-cases (is_terminal_event event)) [
    | inl e ↦ rw e (record { cap = h.cap; kept = h.kept; next = h.next })
    | inr e ↦ rw e h
  ]

  subscribed-Agrees : (task : Text) (l : ℕ) → Agrees most (subscribe task l b) t log
  unfolding subscribe
  subscribed-Agrees task l = record { cap = h.cap; kept = h.kept; next = h.next }

  unsubscribed-Agrees : (task : Text) (l : ℕ) → Agrees most (unsubscribe task l b) t log
  unfolding unsubscribe
  unsubscribed-Agrees task l = elim (Option-cases (lookup task b.listeners)) [
    | inl e ↦ rw (e, unsubscribe) h
    | inr (ls, e) ↦ rw (e, unsubscribe) (record { cap = h.cap; kept = h.kept; next = h.next })
  ]

  cleaned-Agrees : (task : Text) → Agrees most (cleanup task b) t (log_step t (cleaned task) log)
  unfolding cleanup log_step number
  cleaned-Agrees task = elim (Bool-cases (text_eq task t)) [
    | inl same ↦ rw same (record {
      cap = h.cap;
      kept = rw (lookup-erase, same) (sym (slice_last-nil most));
      next = rw (lookup-erase, same) (omega arith);
    })
    | inr other ↦ rw other (record {
      cap = h.cap;
      kept = rw (lookup-erase, other) h.kept;
      next = rw (lookup-erase, other) h.next;
    })
  ]

  closed-Agrees : Agrees most (close b) t []
  unfolding close lookup number
  closed-Agrees = record { cap = h.cap; kept = sym (slice_last-nil most); next = omega arith }

module _ (t : Text) {most : ℕ} where
  apply-Agrees :
      (op : Op) {b : Broker} {log : List TaskStreamEvent}
      → Agrees most b t log
      → Agrees most (apply op b) t (log_step t op log)
  unfolding apply log_step
  apply-Agrees (published task event) h =
      unfold publish in settled-Agrees t (recorded-Agrees t h task event) task event
  apply-Agrees (subscribed task l) h = subscribed-Agrees t h task l
  apply-Agrees (unsubscribed task l) h = unsubscribed-Agrees t h task l
  apply-Agrees (cleaned task) h = cleaned-Agrees t h task
  apply-Agrees closed h = closed-Agrees t h

  run-Agrees :
      (ops : List Op) {b : Broker} {log : List TaskStreamEvent}
      → Agrees most b t log
      → Agrees most (run ops b) t (log_from t ops log)
  unfolding run log_from
  run-Agrees [] h = h
  run-Agrees (op ∷ ops) h = run-Agrees ops (apply-Agrees op h)

new_broker-Agrees : (retention most : ℕ) (t : Text) → Agrees most (new_broker retention most) t []
unfolding new_broker lookup number
new_broker-Agrees retention most t = record {
  cap = refl;
  kept = sym (slice_last-nil most);
  next = omega arith;
}

-- After any sequence of calls on a new broker, `replay` of a task gives those of the last
-- `max_events_per_task` events published to that task since its last clean-up (all of them where
-- the bound is 0) whose number is above `after`, in the order of publication, numbered from 1.
pub replay-run :
    (retention most : ℕ) (ops : List Op) (t : Text) (after : ℕ)
    → replay t after (run ops (new_broker retention most))
      ≡ filter (λ item. ltb after item.id) (slice_last most (number 1 (log_from t ops [])))
unfolding replay
replay-run retention most ops t after =
    rw (run-Agrees t ops (new_broker-Agrees retention most t)).kept

drop-number :
    (k n : ℕ) (es : List TaskStreamEvent) → drop k (number n es) ≡ number (n + k) (drop k es)
unfolding number
drop-number zero n es = ap (λ m. number m es) (omega arith)
drop-number (suc k) n [] = refl
drop-number (suc k) n (e ∷ es) =
    drop-number k (suc n) es ∙ ap (λ m. number m (drop k es)) (omega arith)

filter-number_all :
    (after n : ℕ) (es : List TaskStreamEvent)
    → after < n
    → filter (λ item. ltb after item.id) (number n es) ≡ number n es
unfolding filter number
filter-number_all after n [] h = refl
filter-number_all after n (e ∷ es) h = rw (lt→ltb after n h) (
    ap (λ items. record { id = n; event = e } ∷ items)
      (filter-number_all after (suc n) es (omega arith)))

filter-number :
    (after n j : ℕ) (es : List TaskStreamEvent)
    → n + j ≡ suc after
    → filter (λ item. ltb after item.id) (number n es) ≡ number (suc after) (drop j es)
unfolding filter number
filter-number after n zero es h =
    filter-number_all after n es (omega arith) ∙ ap (λ m. number m es) (omega arith)
filter-number after n (suc j) [] h = refl
filter-number after n (suc j) (e ∷ es) h =
    let skip : ltb after n ≡ false = ground arith in
    rw skip (filter-number after (suc n) j es (omega arith))

length-number : (n : ℕ) (es : List TaskStreamEvent) → length (number n es) ≡ length es
unfolding number
length-number n [] = refl
length-number n (e ∷ es) = ap suc (length-number (suc n) es)

filter-slice_last :
    (after most : ℕ) (log : List TaskStreamEvent)
    → length log ≤ after + most
    → filter (λ item. ltb after item.id) (slice_last most (number 1 log))
      ≡ number (suc after) (drop after log)
unfolding slice_last
filter-slice_last after most log h = elim (Bool-cases (most == 0)) [
  | inl z ↦ rw (slice_last, z) (filter-number after 1 after log (omega arith))
  | inr p ↦
      rw (slice_last, p, length-number, drop-number)
        (filter-number after (1 + k) (after - k) (drop k log) (omega arith)
          ∙ ap (number (suc after))
              (drop-drop k (after - k) log ∙ ap (λ i. drop i log) (omega arith)))
]
  where
    k : ℕ
    k = length log - most

-- Of the events that were published to a task since its last clean-up (or since the start): where
-- at most `max_events_per_task` of them come after the first `after`, `replay` after the number
-- `after` gives exactly those, in order and numbered from `after` + 1. A clean-up starts the numbers
-- anew, so the theorem says nothing of a number `after` that was seen before it.
pub replay-resume :
    (retention most : ℕ) (ops : List Op) (t : Text) (after : ℕ)
    → length (log_from t ops []) ≤ after + most
    → replay t after (run ops (new_broker retention most))
      ≡ number (suc after) (drop after (log_from t ops []))
replay-resume retention most ops t after h =
    replay-run retention most ops t after ∙ filter-slice_last after most _ h
