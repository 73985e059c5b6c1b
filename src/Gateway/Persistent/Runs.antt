-- ===== src/Gateway/Persistent/Runs.antt =====
-- The client in operation: every order of executions, cancellations, timers, frames and
-- disconnections.
use claw_work.Prelude.{
  Bool, Bool-cases, List, Option-cases, Text, [], any, arith, false, if◌then◌else◌, inl, inr,
  is_some, lookup, lookup-insert, none, not, refl, some, text_eq, text_eq_iff, true, ◌&&◌, ◌||◌,
  ◌∷◌, ◌≡◌, ◌∙◌, subst, js,
}
use claw_work.Event.{Detail}
use claw_work.Gateway.{GatewayError, GatewayFrame}
use claw_work.Gateway.Persistent.{
  ActiveTask, Call, Client, active_object, call, cancel, emit, emit_failure, execute_persistent,
  fail_one, on_timeout, put, settle_rejected,
}
use claw_work.Gateway.Persistent.Connection.{
  connect_timeout_error, protocol_error, close, ensure_connected, fail_all, fail_each,
  handle_disconnect, handle_frame, handle_message, on_close, on_connect_timeout, on_heartbeat,
  on_open, on_pong, on_reconnect, reject_current_connection, start_heartbeat, terminate,
}
use claw_work.Gateway.Persistent.Kept.{
  Kept, KeptIn-Quiet, has, Quiet-call, told, told-append, told-event, told-rejected,
}
use claw_work.Gateway.Persistent.Handlers.{
  cancel-Kept, execute_persistent-Kept, on_error-Kept, on_gateway_event-Kept, on_success-Kept,
  on_timeout-Kept,
}

-- A call of `failAll`'s loop tells the end of its task, and keeps the objects.
record Failed (now task : Text) (s s' : Client) : Type 0 where
  tells : (t : Text) → told t s'.calls ≡ (told t s.calls || text_eq task t)
  same : (t : Text) → is_some (lookup t s'.objects) ≡ is_some (lookup t s.objects)

fail_one-Failed :
    (now task : Text) (a : ActiveTask) (e : GatewayError) (s : Client)
    → lookup task s.objects ≡ some a
    → Failed now task s (fail_one now task a e s)
unfolding fail_one emit_failure emit settle_rejected call put
fail_one-Failed now task a e s there = elim (Bool-cases a.settled) [
  | inl y ↦ simp y (record {
    tells = λ t.
        told-append t s.calls _
        ∙ rw (told-event now task a (Detail.failed e.code e.message) true t refl) (ground arith);
    same = λ t. refl;
  })
  | inr n ↦ simp n (record {
    tells = λ t. told-append t s.calls _ ∙ rw (told-rejected task e t) refl;
    same = λ t.
        rw (lookup-insert task t (record a { settled = true }) s.objects)
          (elim (Bool-cases (text_eq task t)) [
            | inr m ↦ rw m refl
            | inl y ↦
                let one : task ≡ t = ground (arith, text_eq_iff task t) in
                let here : lookup t s.objects ≡ some a =
                  subst (λ j. lookup j s.objects ≡ some a) one there in
                rw (y, here) refl
          ]);
  })
]

-- The whole loop.
record FailedEach (tasks : List Text) (s s' : Client) : Type 0 where
  tells :
      (t : Text)
      → told t s'.calls ≡ (told t s.calls || (has t tasks && is_some (lookup t s.objects)))
  same : (t : Text) → is_some (lookup t s'.objects) ≡ is_some (lookup t s.objects)

unknown_first :
    (task t : Text) (b c : Bool) (o : Bool)
    → (text_eq task t ≡ true → o ≡ false)
    → (b || (c && o)) ≡ (b || ((text_eq task t || c) && o))
unknown_first task t b c o h = elim (Bool-cases (text_eq task t)) [
  | inl y ↦ rw (y, h y) (ground arith)
  | inr n ↦ rw n refl
]

known_first :
    (task t : Text) (b c : Bool) (o : Bool)
    → (text_eq task t ≡ true → o ≡ true)
    → ((b || text_eq task t) || (c && o)) ≡ (b || ((text_eq task t || c) && o))
known_first task t b c o h = elim (Bool-cases (text_eq task t)) [
  | inl y ↦ rw (y, h y) (ground arith)
  | inr n ↦ rw n (ground arith)
]

fail_each-FailedEach :
    (now : Text) (e : GatewayError) (tasks : List Text) (s : Client)
    → FailedEach tasks s (fail_each now e tasks s)
unfolding fail_each any
fail_each-FailedEach now e [] s = record { tells = λ t. ground arith; same = λ t. refl }
fail_each-FailedEach now e (task ∷ tasks) s = elim (Option-cases (lookup task s.objects)) [
  | inl n ↦
      let r : FailedEach tasks s (fail_each now e tasks s) = fail_each-FailedEach now e tasks s in
      rw (n, fail_each)
        (record {
          tells = λ t.
              r.tells t
              ∙ unknown_first task t _ (has t tasks) _
                  (λ y. subst (λ j. is_some (lookup j s.objects) ≡ false) (by_eq t y) (rw n refl));
          same = r.same;
        })
  | inr (a, h) ↦
      let f : Failed now task s (fail_one now task a e s) = fail_one-Failed now task a e s h in
      let r : FailedEach tasks (fail_one now task a e s)
          (fail_each now e tasks (fail_one now task a e s)) =
        fail_each-FailedEach now e tasks (fail_one now task a e s) in
      rw (h, fail_each)
        (record {
          tells = λ t.
              r.tells t
              ∙ rw (f.tells t, f.same t)
                  (known_first task t _ (has t tasks) _ (λ y.
                    subst (λ j. is_some (lookup j s.objects) ≡ true) (by_eq t y) (rw h refl)));
          same = λ t. r.same t ∙ f.same t;
        })
]
  where
    by_eq : (t : Text) → text_eq task t ≡ true → task ≡ t
    by_eq t y = ground (arith, text_eq_iff task t)

fail_all-Kept : (now : Text) (e : GatewayError) (s : Client) → Kept s → Kept (fail_all now e s)
unfolding fail_all any
fail_all-Kept now e s k =
    let r : FailedEach s.active s (fail_each now e s.active s) =
      fail_each-FailedEach now e s.active s in
    record { fate = λ t. r.tells t ∙ rw (k.fate t, r.same t) (ground arith) }

reject_current_connection-Kept :
    (e : GatewayError) (s : Client) → Kept s → Kept (reject_current_connection e s)
unfolding reject_current_connection call
reject_current_connection-Kept e s k = elim (Bool-cases s.connecting) [
  | inl y ↦ simp y (
      KeptIn-Quiet (Call.connection_rejected e ∷ [])
        (Quiet-call (Call.connection_rejected e) (λ t. refl)) k)
  | inr n ↦ simp n k
]

terminate-Kept : (s : Client) → Kept s → Kept (terminate s)
unfolding terminate call
terminate-Kept s k = KeptIn-Quiet (Call.terminated ∷ []) (Quiet-call Call.terminated (λ t. refl)) k

Kept-choice : (b : Bool) (x y : Client) → Kept x → Kept y → Kept (if b then x else y)
Kept-choice true x y h k = h
Kept-choice false x y h k = k

handle_disconnect-Kept :
    (now : Text) (e : GatewayError) (s : Client) → Kept s → Kept (handle_disconnect now e s)
unfolding handle_disconnect
handle_disconnect-Kept now e s k =
    Kept-choice (s''.closed || s''.reconnect_timer) s'' (record s'' { reconnect_timer = true }) k''
      k''
  where
    s' : Client
    s' = reject_current_connection e (record s { connected = false; heartbeat = false })

    k' : Kept s'
    k' = reject_current_connection-Kept e (record s { connected = false; heartbeat = false }) k

    s'' : Client
    s'' = if s.connected then fail_all now e s' else s'

    k'' : Kept s''
    k'' = Kept-choice s.connected (fail_all now e s') s' (fail_all-Kept now e s' k') k'

-- A request is answered with an error once at most, and not after a success.
abbrev pub AnsweredOnce : GatewayFrame → Client → Type 0
AnsweredOnce (GatewayFrame.error id code message) s =
    (a : ActiveTask) → active_object id s ≡ some a → a.settled ≡ false
AnsweredOnce _ s = Unit

handle_frame-Kept :
    (now : Text) (frame : GatewayFrame) (s : Client)
    → AnsweredOnce frame s
    → Kept s
    → Kept (handle_frame now frame s)
unfolding handle_frame start_heartbeat
handle_frame-Kept now (GatewayFrame.success id run key) s once k =
    Kept-choice (text_eq id (js "persistent-connect")) _ _ k (on_success-Kept now id run s k)
handle_frame-Kept now (GatewayFrame.error id code message) s once k =
    Kept-choice (text_eq id (js "persistent-connect")) _ _ (reject_current_connection-Kept _ s k)
      (on_error-Kept id code message s once k)
handle_frame-Kept now (GatewayFrame.event name p) s once k =
    Kept-choice (text_eq name (js "connect.challenge")) _ _
      (unfold call in
        KeptIn-Quiet (Call.sent_connect ∷ []) (Quiet-call Call.sent_connect (λ t. refl)) k)
      (on_gateway_event-Kept now name p s k)

on_heartbeat-Kept : (s : Client) → Kept s → Kept (on_heartbeat s)
unfolding on_heartbeat
on_heartbeat-Kept s k = Kept-choice (not s.socket_open) _ _ k (
    Kept-choice (not s.last_pong) _ _ (terminate-Kept s k)
      (unfold call in KeptIn-Quiet (Call.pinged ∷ []) (Quiet-call Call.pinged (λ t. refl)) k))

-- Everything that happens to a client. A task is executed once.
pub data Step (s : Client) : Client → Type 0 where
  executed :
      (task session_id session_key : Text)
      → lookup task s.objects ≡ none
      → Step s (execute_persistent task session_id session_key s).0
  cancelled : (now task : Text) → Step s (cancel now task s).0
  timed_out : (now task : Text) → Step s (on_timeout now task s)
  connecting : Step s (ensure_connected s)
  opened : Step s (on_open s)
  received :
      (now : Text) (frame : GatewayFrame)
      → AnsweredOnce frame s
      → Step s (handle_message now (some frame) s)
  garbled : (now : Text) → Step s (handle_message now none s)
  ponged : Step s (on_pong s)
  ticked : Step s (on_heartbeat s)
  not_connected : Step s (on_connect_timeout s)
  reconnecting : Step s (on_reconnect s)
  disconnected : (now : Text) (e : GatewayError) → Step s (on_close now e s)
  shut_down : (now : Text) → Step s (close now s)

pub data Steps : Client → Client → Type 0 where
  start : {s : Client} → Steps s s
  next : {s s' s'' : Client} → Steps s s' → Step s' s'' → Steps s s''

Step-Kept : {s s' : Client} → Kept s → Step s s' → Kept s'
unfolding ensure_connected on_open on_pong on_reconnect on_close close handle_message
    on_connect_timeout
Step-Kept {s} k (executed task session_id session_key fresh) =
    execute_persistent-Kept task session_id session_key s fresh k
Step-Kept {s} k (cancelled now task) = cancel-Kept now task s k
Step-Kept {s} k (timed_out now task) = on_timeout-Kept now task s k
Step-Kept {s} k connecting = Kept-choice _ _ _ k k
Step-Kept k opened = k
Step-Kept {s} k (received now frame once) = handle_frame-Kept now frame s once k
Step-Kept {s} k (garbled now) =
    terminate-Kept (handle_disconnect now protocol_error s)
      (handle_disconnect-Kept now protocol_error s k)
Step-Kept k ponged = k
Step-Kept {s} k ticked = on_heartbeat-Kept s k
Step-Kept {s} k not_connected =
    terminate-Kept (reject_current_connection connect_timeout_error s)
      (reject_current_connection-Kept connect_timeout_error s k)
Step-Kept {s} k reconnecting = Kept-choice _ _ _ k k
Step-Kept {s} k (disconnected now e) =
    handle_disconnect-Kept now e (record s { socket_open = false }) k
Step-Kept {s} k (shut_down now) = fail_all-Kept now _ _ k

-- Whatever happens to a client, in whatever order, a run that it has sent is active exactly as long
-- as its end has not been told, by a terminal event or by the rejection of its promise. So no run is
-- forgotten. A task is executed once, and a request that was answered gets no error after it.
pub Steps-Kept :
    {s s' : Client}
    → Steps s s'
    → Kept s
    → (t : Text)
    → told t s'.calls ≡ (is_some (lookup t s'.objects) && not (any (λ k. text_eq k t) s'.active))
Steps-Kept steps k = (all steps k).fate
  where
    all : {s s' : Client} → Steps s s' → Kept s → Kept s'
    all start k = k
    all (next steps step) k = Step-Kept (all steps k) step
