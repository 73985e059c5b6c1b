-- ===== src/Gateway/Persistent/Handlers.antt =====
-- Every handler of a run keeps the account of the runs that Kept.antt is about.
use claw_work.Prelude.{
  Bool, Bool-cases, Option, Option-cases, Text, [], arith, false, if◌then◌else◌, inl, inr, is_some,
  js, lookup, none, or_else, refl, some, subst, text_eq, text_eq_iff, trim, true, truthy, ◌++◌, ◌∙◌,
  ◌||◌, ◌∷◌, ◌≡◌, append_assoc,
}
use claw_work.Event.{Detail, is_terminal_detail, artifact}
use claw_work.Gateway.{Delta, GatewayError, Payload, normalize_assistant_delta}
use claw_work.Gateway.Persistent.{
  ActiveTask, Call, Client, active_object, announce_artifact, call, cancel, cancel_open,
  cancelled_error, emit, emit_failure, event, execute_persistent, fail_one, find_active, is_active,
  on_agent, on_chat, on_error, on_gateway_event, on_object, on_snapshot, on_success, on_timeout,
  put, remove_task, settle_rejected,
}
use claw_work.Gateway.Persistent.Kept.{
  Kept, KeptIn-Quiet, KeptIn-end, KeptIn-put, KeptIn-start, Quiet, Quiet-call, and_false, and_true,
  has, has-append, told-append, told-event, told-rejected,
}

pub emit-Kept :
    (now task : Text) (a : ActiveTask) (d : Detail) (s : Client)
    → is_terminal_detail d ≡ false
    → Kept s
    → Kept (emit now task a d s)
unfolding emit call Quiet
emit-Kept now task a d s h k =
    KeptIn-Quiet (Call.on_event (event now task a d) ∷ [])
      (λ t. told-event now task a d false t h ∙ and_false (text_eq task t)) k

-- A terminal event, after which the object is removed.
end_event-Kept :
    (now task : Text) (a b x : ActiveTask) (d : Detail) (s : Client)
    → is_terminal_detail d ≡ true
    → lookup task s.objects ≡ some x
    → Kept s
    → Kept (remove_task task b (emit now task a d s))
unfolding remove_task emit call
end_event-Kept now task a b x d s h there k =
    KeptIn-end task x (Call.on_event (event now task a d) ∷ []) there
      (λ t. told-event now task a d true t h ∙ and_true (text_eq task t)) k

-- A rejection, after which the object is removed.
end_rejected-Kept :
    (task : Text) (a b x : ActiveTask) (e : GatewayError) (s : Client)
    → lookup task s.objects ≡ some x
    → Kept s
    → Kept (remove_task task b (call (Call.rejected task e) (put task a s)))
unfolding remove_task call put
end_rejected-Kept task a b x e s there k =
    KeptIn-put task x a there
      (KeptIn-end task x (Call.rejected task e ∷ []) there (told-rejected task e) k)

fail_one-Kept :
    (now task : Text) (a : ActiveTask) (e : GatewayError) (s : Client)
    → lookup task s.objects ≡ some a
    → Kept s
    → Kept (remove_task task a (fail_one now task a e s))
unfolding fail_one emit_failure settle_rejected
fail_one-Kept now task a e s there k = elim (Bool-cases a.settled) [
  | inl y ↦ simp y (end_event-Kept now task a a a (Detail.failed e.code e.message) s refl there k)
  | inr n ↦ simp n (end_rejected-Kept task (record a { settled = true }) a a e s there k)
]

active_object-lookup :
    (task : Text) (s : Client) (a : ActiveTask)
    → active_object task s ≡ some a
    → lookup task s.objects ≡ some a
active_object-lookup task s a h = elim (Bool-cases (is_active task s)) [
  | inl y ↦ ground arith
  | inr n ↦ absurd (ground arith)
]

pub on_timeout-Kept : (now task : Text) (s : Client) → Kept s → Kept (on_timeout now task s)
unfolding on_timeout
on_timeout-Kept now task s k = elim (Option-cases (active_object task s)) [
  | inl e ↦ rw (e, on_timeout) k
  | inr (a, e) ↦
      rw (e, on_timeout) (fail_one-Kept now task a _ s (active_object-lookup task s a e) k)
]

pub on_success-Kept :
    (now id : Text) (run : Option Text) (s : Client) → Kept s → Kept (on_success now id run s)
unfolding on_success call put
on_success-Kept now id run s k = elim (Option-cases (active_object id s)) [
  | inl e ↦ rw (e, on_success) k
  | inr (a, e) ↦
      let run_id : Text = if truthy (trim (or_else run [])) then trim (or_else run []) else id in
      rw (e, on_success)
        (KeptIn-put id a _ (active_object-lookup id s a e) (
          KeptIn-Quiet (Call.resolved id run_id ∷ [])
            (Quiet-call (Call.resolved id run_id) (λ t. refl))
            (emit-Kept now id (record a { run_id = run_id; settled = true }) Detail.accepted s refl
              k)))
]

pub on_error-Kept :
    (id : Text) (code message : Option Text) (s : Client)
    → ((a : ActiveTask) → active_object id s ≡ some a → a.settled ≡ false)
    → Kept s
    → Kept (on_error id code message s)
unfolding on_error settle_rejected
on_error-Kept id code message s once k = elim (Option-cases (active_object id s)) [
  | inl e ↦ rw (e, on_error) k
  | inr (a, e) ↦
      rw (e, on_error)
        (simp (once a e) (
          end_rejected-Kept id (record a { settled = true }) a a _ s (active_object-lookup id s a e)
            k))
]

announce_artifact-Kept :
    (now task : Text) (a : ActiveTask) (p : Payload) (s : Client)
    → Kept s
    → Kept (announce_artifact now task a p s)
unfolding announce_artifact
announce_artifact-Kept now task a p s k = elim (Option-cases p.artifact) [
  | inl e ↦ rw e k
  | inr (x, e) ↦ rw e (emit-Kept now task a (Detail.result_created (artifact x)) s refl k)
]

announce_artifact-objects :
    (now task : Text) (a : ActiveTask) (p : Payload) (s : Client)
    → (announce_artifact now task a p s).objects ≡ s.objects
unfolding announce_artifact emit call
announce_artifact-objects now task a p s = elim (Option-cases p.artifact) [
  | inl e ↦ rw e refl
  | inr (x, e) ↦ rw e refl
]

on_agent-Kept :
    (now task : Text) (a : ActiveTask) (p : Payload) (s : Client)
    → lookup task s.objects ≡ some a
    → Kept s
    → Kept (on_agent now task a p s)
unfolding on_agent on_snapshot
on_agent-Kept now task a p s there k =
    elim (Bool-cases (text_eq (or_else p.stream []) (js "assistant"))) [
      | inr n ↦
          rw (n, on_agent)
            (elim (Bool-cases (is_some p.artifact)) [
              | inl y ↦ rw y k
              | inr m ↦ rw m (emit-Kept now task a _ s refl k)
            ])
      | inl y ↦
          rw (y, on_agent)
            (elim (Bool-cases
              (truthy (normalize_assistant_delta p.text a.last_assistant_snapshot).next_delta)) [
                | inl z ↦ rw z (
                    emit-Kept now task moved (Detail.delta d.next_delta) (put task moved s) refl
                      (unfold put in KeptIn-put task a moved there k))
                | inr z ↦ rw z (unfold put in KeptIn-put task a moved there k)
              ])
    ]
  where
    d : Delta
    d = normalize_assistant_delta p.text a.last_assistant_snapshot

    moved : ActiveTask
    moved = record a { last_assistant_snapshot = d.next_snapshot }

on_chat-Kept :
    (now task : Text) (a : ActiveTask) (p : Payload) (s : Client)
    → lookup task s.objects ≡ some a
    → Kept s
    → Kept (on_chat now task a p s)
unfolding on_chat emit_failure
on_chat-Kept now task a p s there k =
    elim (Bool-cases (text_eq (or_else p.state []) (js "error"))) [
      | inl y ↦ rw (y, on_chat) (end_event-Kept now task a a a _ s refl there k)
      | inr n ↦
          rw (n, on_chat)
            (elim (Bool-cases (text_eq (or_else p.state []) (js "aborted"))) [
              | inl y ↦ rw y (end_event-Kept now task a a a _ s refl there k)
              | inr m ↦ rw m (elim (Bool-cases (text_eq (or_else p.state []) (js "final"))) [
                | inl y ↦ rw y (end_event-Kept now task a a a Detail.completed s refl there k)
                | inr l ↦ rw l k
              ])
            ])
    ]

pub on_gateway_event-Kept :
    (now name : Text) (p : Payload) (s : Client) → Kept s → Kept (on_gateway_event now name p s)
unfolding on_gateway_event on_object
on_gateway_event-Kept now name p s k =
    elim (Bool-cases (text_eq name (js "agent") || text_eq name (js "chat"))) [
      | inr n ↦ rw (n, on_gateway_event) k
      | inl y ↦
          rw (y, on_gateway_event)
            (elim (Option-cases (find_active p.run_id p.session_key s)) [
              | inl e ↦ rw (e, on_gateway_event) k
              | inr (task, e) ↦
                  rw (e, on_gateway_event)
                    (elim (Option-cases (lookup task s.objects)) [
                      | inl e' ↦ rw (e', on_gateway_event) k
                      | inr (a, e') ↦
                          rw (e', on_gateway_event)
                            (by_name task a (announce_artifact-Kept now task a p s k)
                              (rw (announce_artifact-objects now task a p s) e'))
                    ])
            ])
    ]
  where
    by_name :
        (task : Text) (a : ActiveTask)
        → Kept (announce_artifact now task a p s)
        → lookup task (announce_artifact now task a p s).objects ≡ some a
        → Kept (on_object now name task p a s)
    by_name task a k' there = elim (Bool-cases (text_eq name (js "agent"))) [
      | inl y ↦ rw (y, on_object) (on_agent-Kept now task a p _ there k')
      | inr n ↦ rw (n, on_object) (on_chat-Kept now task a p _ there k')
    ]

pub execute_persistent-Kept :
    (task session_id session_key : Text) (s : Client)
    → lookup task s.objects ≡ none
    → Kept s
    → Kept (execute_persistent task session_id session_key s).0
unfolding execute_persistent call put
execute_persistent-Kept task session_id session_key s fresh k = elim (Bool-cases s.socket_open) [
  | inr n ↦ rw (n, execute_persistent) k
  | inl y ↦
      rw (y, execute_persistent)
        (KeptIn-Quiet (Call.sent_chat task ∷ []) (Quiet-call (Call.sent_chat task) (λ t. refl))
          (elim (Bool-cases (is_active task s)) [
            | inl z ↦ rw z (
                KeptIn-start task _ fresh
                  (λ t. elim (Bool-cases (text_eq task t)) [
                    | inr m ↦ rw m (ground arith)
                    | inl x ↦
                        let same : task ≡ t = ground (arith, text_eq_iff task t) in
                        rw (x, subst (λ j. has j s.active ≡ true) same z) refl
                  ])
                  k)
            | inr z ↦ rw z (KeptIn-start task _ fresh (λ t. has-append t task s.active) k)
          ]))
]

-- The end of `cancel`: the event, and the rejection of a promise that is not settled.
end_cancel-Kept :
    (now task : Text) (a : ActiveTask) (d : Detail) (e : GatewayError) (s : Client)
    → is_terminal_detail d ≡ true
    → lookup task s.objects ≡ some a
    → Kept s
    → Kept (remove_task task a (settle_rejected task a e (emit now task a d s)))
unfolding remove_task settle_rejected emit call put
end_cancel-Kept now task a d e s h there k = elim (Bool-cases a.settled) [
  | inl y ↦ simp y (
      KeptIn-end task a (Call.on_event (event now task a d) ∷ []) there
        (λ t. told-event now task a d true t h ∙ and_true (text_eq task t)) k)
  | inr n ↦
      simp (n, append_assoc)
        (KeptIn-put task a _ there (
          KeptIn-end task a (Call.on_event (event now task a d) ∷ Call.rejected task e ∷ []) there
            (λ t.
              told-append t (Call.on_event (event now task a d) ∷ []) (Call.rejected task e ∷ [])
              ∙ rw (told-event now task a d true t h, told-rejected task e t) (ground arith))
            k))
]

cancel_open-Kept :
    (now task : Text) (a : ActiveTask) (s : Client)
    → lookup task s.objects ≡ some a
    → Kept s
    → Kept (cancel_open now task a s)
unfolding cancel_open call
cancel_open-Kept now task a s there k =
    end_cancel-Kept now task a (Detail.cancelled (js "task cancelled by user")) cancelled_error
      (record s { calls = s.calls ++ Call.sent_abort task ∷ [] }) refl there
      (KeptIn-Quiet (Call.sent_abort task ∷ []) (Quiet-call (Call.sent_abort task) (λ t. refl)) k)

Kept-if :
    {A : Type 0} (b : Bool) (x y : Client × A) → Kept x.0 → Kept y.0 → Kept (if b then x else y).0
Kept-if true x y h k = h
Kept-if false x y h k = k

pub cancel-Kept : (now task : Text) (s : Client) → Kept s → Kept (cancel now task s).0
unfolding cancel
cancel-Kept now task s k = elim (Option-cases (active_object task s)) [
  | inl e ↦ rw (e, cancel) k
  | inr (a, e) ↦
      rw (e, cancel)
        (Kept-if s.socket_open _ _
          (cancel_open-Kept now task a s (active_object-lookup task s a e) k) k)
]
