-- ===== src/Gateway/OneShot/Ends.antt =====
-- A run that nobody cancels has one terminal event at most.
use claw_work.Prelude.{
  Bool, Bool-cases, List, Option, Option-cases, Text, [], arith, false, if◌then◌else◌, inl, inr,
  is_some, js, or_else, refl, text_eq, true, truthy, ℕ, ◌++◌, ◌+◌, ◌==◌, ◌∷◌, ◌≡◌, ◌≤◌, ◌∙◌,
}
use claw_work.Event.{Detail, TaskStreamEvent, is_terminal_detail, artifact}
use claw_work.Gateway.{Delta, GatewayError, GatewayFrame, Payload, normalize_assistant_delta}
use claw_work.Gateway.OneShot.{
  new_run, Run, Sent, Task, announce, cleanup, emit, event_of, fail_after_accepted,
  fail_before_accepted, on_agent, on_chat, on_chat_state, on_close, on_connect_timeout, on_error,
  on_frame, on_http_error, on_http_reply, on_message, on_refusal, on_snapshot, on_success,
  reject_execution, resolve_accepted, send,
}

unfoldable pub terminals : List TaskStreamEvent → ℕ
terminals [] = 0
terminals (e ∷ es) = (if is_terminal_detail e.detail then 1 else 0) + terminals es

terminals-append :
    (xs ys : List TaskStreamEvent) → terminals (xs ++ ys) ≡ terminals xs + terminals ys
unfolding terminals
terminals-append [] ys = omega arith
terminals-append (x ∷ xs) ys = omega (arith, terminals-append xs ys)

-- While the run can still send, there has been no terminal event; the socket and the fallback do not
-- send both.
pub record Once (s : Run) : Type 0 where
  pub at_most : terminals s.events ≤ 1
  pub listening : s.listening ≡ true → terminals s.events ≡ 0
  pub pending : s.http_pending ≡ true → terminals s.events ≡ 0
  pub apart : s.listening ≡ true → s.http_pending ≡ false
  pub timer : s.connect_timer ≡ true → s.listening ≡ true

-- What the handlers of a listening socket find.
record Open (s : Run) : Type 0 where
  listens : s.listening ≡ true
  none_yet : terminals s.events ≡ 0
  no_http : s.http_pending ≡ false

Once-Open : (s : Run) → Once s → s.listening ≡ true → Open s
Once-Open s o l = record { listens = l; none_yet = o.listening l; no_http = o.apart l }

Open-Once : (s : Run) → Open s → Once s
Open-Once s o = record {
  at_most = omega (arith, o.none_yet);
  listening = λ h. o.none_yet;
  pending = λ h. o.none_yet;
  apart = λ h. o.no_http;
  timer = λ h. o.listens;
}

emit-Open :
    (t : Task) (now run : Text) (d : Detail) (s : Run)
    → is_terminal_detail d ≡ false
    → Open s
    → Open (emit t now run d s)
unfolding emit terminals
emit-Open t now run d s h o = record {
  listens = o.listens;
  none_yet =
      terminals-append s.events (event_of t now run d ∷ []) ∙ rw h (omega (arith, o.none_yet));
  no_http = o.no_http;
}

-- A terminal event, after which the listeners go.
end-Once :
    (t : Task) (now run : Text) (d : Detail) (s : Run)
    → is_terminal_detail d ≡ true
    → Open s
    → Once (cleanup (emit t now run d s))
unfolding emit terminals cleanup
end-Once t now run d s h o = record {
  at_most = rw (terminals-append s.events (event_of t now run d ∷ []), h, o.none_yet) (omega arith);
  listening = λ k. absurd (ground arith);
  pending = λ k. absurd (ground (arith, o.no_http));
  apart = λ k. o.no_http;
  timer = λ k. absurd (ground arith);
}

Once-choice : (b : Bool) (x y : Run) → Once x → Once y → Once (if b then x else y)
Once-choice true x y h k = h
Once-choice false x y h k = k

Open-choice : (b : Bool) (x y : Run) → Open x → Open y → Open (if b then x else y)
Open-choice true x y h k = h
Open-choice false x y h k = k

fail_after_accepted-Once :
    (t : Task) (now : Text) (e : GatewayError) (s : Run)
    → Open s
    → Once (fail_after_accepted t now e s)
unfolding fail_after_accepted
fail_after_accepted-Once t now e s o = end-Once t now _ (Detail.failed e.code e.message) s refl o

fall_back-Once :
    (e : GatewayError) (s : Run)
    → Open s
    → Once (cleanup (record s { fallback_in_flight = true; http_pending = true; ws_error = e }))
unfolding cleanup
fall_back-Once e s o = record {
  at_most = omega (arith, o.none_yet);
  listening = λ k. o.none_yet;
  pending = λ k. o.none_yet;
  apart = λ k. absurd (ground arith);
  timer = λ k. absurd (ground arith);
}

fail_before_accepted-Once :
    (t : Task) (now : Text) (e : GatewayError) (s : Run)
    → Open s
    → Once (fail_before_accepted t now e s)
unfolding fail_before_accepted
fail_before_accepted-Once t now e s o =
    Once-choice (is_some s.promise) _ _ (fail_after_accepted-Once t now e s o)
      (Once-choice s.fallback_in_flight _ _ (Open-Once s o) (fall_back-Once e s o))

reject_execution-Once : (e : GatewayError) (s : Run) → Once s → Once (reject_execution e s)
unfolding reject_execution cleanup
reject_execution-Once e s o = Once-choice (is_some s.promise) _ _ o (record {
  at_most = o.at_most;
  listening = λ k. absurd (ground arith);
  pending = o.pending;
  apart = λ k. absurd (ground arith);
  timer = λ k. absurd (ground arith);
})

resolve_accepted-Open : (run : Text) (s : Run) → Open s → Open (resolve_accepted run s)
unfolding resolve_accepted
resolve_accepted-Open run s o =
    Open-choice (is_some s.promise) _ _ o
      (record { listens = o.listens; none_yet = o.none_yet; no_http = o.no_http })

send-Open : (m : Sent) (s : Run) → Open s → Open (send m s)
unfolding send
send-Open m s o = record { listens = o.listens; none_yet = o.none_yet; no_http = o.no_http }

on_success-Open :
    (t : Task) (now id : Text) (run key : Option Text) (s : Run)
    → Open s
    → Open (on_success t now id run key s)
unfolding on_success
on_success-Open t now id run key s o =
    Open-choice (text_eq id (js "connect-1")) _ _
      (send-Open Sent.chat _
        (record { listens = o.listens; none_yet = o.none_yet; no_http = o.no_http }))
      (Open-choice (text_eq id t.task_id) _ _
        (resolve_accepted-Open _ _ (
          emit-Open t now _ Detail.accepted _ refl
            (record { listens = o.listens; none_yet = o.none_yet; no_http = o.no_http })))
        o)

on_refusal-Once :
    (t : Task) (now id : Text) (code message : Option Text) (s : Run)
    → Open s
    → Once (on_refusal t now id code message s)
unfolding on_refusal
on_refusal-Once t now id code message s o =
    Once-choice (text_eq id (js "connect-1")) _ _ (fail_before_accepted-Once t now _ s o) (
      Once-choice (text_eq id t.task_id) _ _
        (Once-choice (is_some s.promise) _ _ (fail_after_accepted-Once t now _ s o)
          (reject_execution-Once _ s (Open-Once s o)))
        (Open-Once s o))

on_snapshot-Open :
    (t : Task) (now run text : Text) (s : Run) → Open s → Open (on_snapshot t now run text s)
unfolding on_snapshot
on_snapshot-Open t now run text s o =
    Open-choice (truthy d.next_delta) _ _
      (emit-Open t now run (Detail.delta d.next_delta) s' refl o') o'
  where
    d : Delta
    d = normalize_assistant_delta text s.last_assistant_snapshot

    s' : Run
    s' = record s { last_assistant_snapshot = d.next_snapshot }

    o' : Open s'
    o' = record { listens = o.listens; none_yet = o.none_yet; no_http = o.no_http }

on_agent-Open : (t : Task) (now : Text) (p : Payload) (s : Run) → Open s → Open (on_agent t now p s)
unfolding on_agent
on_agent-Open t now p s o = elim (Option-cases p.artifact) [
  | inr (a, e) ↦ rw (e, on_agent) (emit-Open t now _ (Detail.result_created (artifact a)) s refl o)
  | inl e ↦
      rw (e, on_agent)
        (Open-choice (text_eq (or_else p.stream []) (js "assistant")) _ _
          (on_snapshot-Open t now _ p.text s o)
          (emit-Open t now _ (Detail.stage_changed (or_else p.stream (js "agent"))) s refl o))
]

announce-Open :
    (t : Task) (now run : Text) (p : Payload) (s : Run) → Open s → Open (announce t now run p s)
unfolding announce
announce-Open t now run p s o = elim (Option-cases p.artifact) [
  | inr (a, e) ↦ rw e (emit-Open t now run (Detail.result_created (artifact a)) s refl o)
  | inl e ↦ rw e o
]

on_chat_state-Once :
    (t : Task) (now run : Text) (p : Payload) (s : Run)
    → Open s
    → Once (on_chat_state t now run p s)
unfolding on_chat_state
on_chat_state-Once t now run p s o =
    Once-choice (text_eq (or_else p.state (js "unknown")) (js "error")) _ _
      (fail_after_accepted-Once t now _ s o)
      (Once-choice (text_eq (or_else p.state (js "unknown")) (js "aborted")) _ _
        (fail_after_accepted-Once t now _ s o)
        (Once-choice (text_eq (or_else p.state (js "unknown")) (js "final")) _ _
          (end-Once t now run Detail.completed s refl o) (Open-Once s o)))

on_frame-Once :
    (t : Task) (now : Text) (frame : GatewayFrame) (s : Run)
    → Open s
    → Once (on_frame t now frame s)
unfolding on_frame on_chat
on_frame-Once t now (GatewayFrame.success id run key) s o =
    Open-Once _ (on_success-Open t now id run key s o)
on_frame-Once t now (GatewayFrame.error id code message) s o =
    on_refusal-Once t now id code message s o
on_frame-Once t now (GatewayFrame.event name p) s o =
    Once-choice (text_eq name (js "connect.challenge")) _ _
      (Open-Once _ (send-Open Sent.connect s o))
      (Once-choice (text_eq name (js "agent")) _ _ (Open-Once _ (on_agent-Open t now p s o)) (
        Once-choice (text_eq name (js "chat")) _ _
          (on_chat_state-Once t now _ p _ (announce-Open t now _ p s o)) (Open-Once s o)))

-- What happens to a run, but for a cancellation; `closed_down` is the control's `close`.
pub data Step (t : Task) (s : Run) : Run → Type 0 where
  received : (now : Text) (frame : GatewayFrame) → Step t s (on_message t now frame s)
  errored : (now : Text) (message : Option Text) → Step t s (on_error t now message s)
  closed : (now : Text) (code : ℕ) (message : Text) → Step t s (on_close t now code message s)
  timed_out : (now : Text) → Step t s (on_connect_timeout t now s)
  replied :
      (now run reply : Text) → s.http_pending ≡ true → Step t s (on_http_reply t now run reply s)
  http_failed : (e : GatewayError) → s.http_pending ≡ true → Step t s (on_http_error e s)
  closed_down : Step t s (cleanup s)

pub data Steps (t : Task) : Run → Run → Type 0 where
  start : {s : Run} → Steps t s s
  next : {s s' s'' : Run} → Steps t s s' → Step t s' s'' → Steps t s s''

on_http_reply-Once :
    (t : Task) (now run reply : Text) (s : Run)
    → s.http_pending ≡ true
    → Once s
    → Once (on_http_reply t now run reply s)
unfolding on_http_reply emit terminals
on_http_reply-Once t now run reply s waits o = Once-choice (is_some s.promise) _ _ (both _) (both _)
  where
    not_listening : s.listening ≡ false
    not_listening = elim (Bool-cases s.listening) [
      | inl y ↦ absurd (ground (arith, o.apart y))
      | inr n ↦ n
    ]

    both :
        (promise : _)
        → Once (record s {
          promise = promise;
          http_pending = false;
          events =
              ((s.events ++ event_of t now run Detail.accepted ∷ [])
                ++ event_of t now run (Detail.delta reply) ∷ [])
              ++ event_of t now run Detail.completed ∷ [];
        })
    both promise = record {
      at_most =
          rw (terminals-append, terminals-append, terminals-append, o.pending waits) (omega arith);
      listening = λ k. absurd (ground (arith, not_listening));
      pending = λ k. absurd (ground arith);
      apart = λ k. refl;
      timer = λ k. o.timer k;
    }

Step-Once : {t : Task} {s s' : Run} → Once s → Step t s s' → Once s'
unfolding on_message on_error on_close on_connect_timeout on_http_error cleanup
Step-Once {t} {s} o (received now frame) = elim (Bool-cases s.listening) [
  | inl y ↦ simp y (on_frame-Once t now frame s (Once-Open s o y))
  | inr n ↦ simp n o
]
Step-Once {t} {s} o (errored now message) = elim (Bool-cases s.listening) [
  | inl y ↦ simp y (fail_before_accepted-Once t now _ s (Once-Open s o y))
  | inr n ↦ simp n o
]
Step-Once {t} {s} o (closed now code message) = elim (Bool-cases s.listening) [
  | inl y ↦ simp y (
      Once-choice (is_some s.promise) _ _
        (Once-choice (code == 1000) _ _ o (fail_after_accepted-Once t now _ s (Once-Open s o y)))
        (fail_before_accepted-Once t now _ s (Once-Open s o y)))
  | inr n ↦ simp n o
]
Step-Once {t} {s} o (timed_out now) = elim (Bool-cases s.connect_timer) [
  | inl y ↦
      let p : Open s = Once-Open s o (o.timer y) in
      simp y (
        fail_before_accepted-Once t now _ _
          (record { listens = p.listens; none_yet = p.none_yet; no_http = p.no_http }))
  | inr n ↦ simp n o
]
Step-Once {t} {s} o (replied now run reply waits) = on_http_reply-Once t now run reply s waits o
Step-Once {t} {s} o (http_failed e waits) = reject_execution-Once _ _ (record {
  at_most = o.at_most;
  listening = o.listening;
  pending = λ k. absurd (ground arith);
  apart = λ k. refl;
  timer = o.timer;
})
Step-Once {t} {s} o closed_down = record {
  at_most = o.at_most;
  listening = λ k. absurd (ground arith);
  pending = o.pending;
  apart = λ k. absurd (ground arith);
  timer = λ k. absurd (ground arith);
}

Steps-Once_from : {t : Task} {s s' : Run} → Steps t s s' → Once s → Once s'
Steps-Once_from start o = o
Steps-Once_from (next steps step) o = Step-Once (Steps-Once_from steps o) step

new_run-Once : (t : Task) → Once (new_run t)
unfolding new_run terminals
new_run-Once t = record {
  at_most = omega arith;
  listening = λ h. refl;
  pending = λ h. refl;
  apart = λ h. refl;
  timer = λ h. refl;
}

-- Whatever the gateway, the network, the timer and the fallback do, in whatever order, a run that
-- nobody cancels emits one terminal event at most, and none as long as the socket or the fallback
-- can still bring one.
pub Steps-Once :
    {t : Task} {s : Run}
    → Steps t (new_run t) s
    → (terminals s.events ≤ 1)
      × (s.listening ≡ true → terminals s.events ≡ 0)
      × (s.http_pending ≡ true → terminals s.events ≡ 0)
Steps-Once {t} steps =
    let o : Once _ = Steps-Once_from steps (new_run-Once t) in (o.at_most, o.listening, o.pending)
