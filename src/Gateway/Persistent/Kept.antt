-- ===== src/Gateway/Persistent/Kept.antt =====
-- No run is forgotten: a run that the client has sent is active, or its end has been told.
use claw_work.Prelude.{
  Bool, Bool-cases, Dict, List, Text, [], any, arith, false, filter, inl, inr, insert, is_some,
  lookup, lookup-insert, none, not, refl, some, subst, text_eq, text_eq_iff, true, ◌&&◌, ◌++◌, ◌∙◌,
  ◌||◌, ◌∷◌, ◌≡◌,
}
use claw_work.Event.{Detail, is_terminal_detail}
use claw_work.Gateway.{GatewayError}
use claw_work.Gateway.Persistent.{ActiveTask, Call, Client, event}

-- Does a call tell the end of a task's run: a terminal event, or the rejection of its promise?
abbrev pub tells : Text → Call → Bool
tells task (Call.on_event e) = text_eq e.task_id task && is_terminal_detail e.detail
tells task (Call.rejected t e) = text_eq t task
tells task _ = false

unfoldable pub told : Text → List Call → Bool
told task [] = false
told task (c ∷ cs) = tells task c || told task cs

-- A run that was sent is active exactly as long as its end has not been told.
pub record KeptIn (objects : Dict ActiveTask) (active : List Text) (calls : List Call)
    : Type 0 where
  pub fate :
      (t : Text)
      → told t calls ≡ (is_some (lookup t objects) && not (any (λ k. text_eq k t) active))

abbrev pub Kept : Client → Type 0
Kept s = KeptIn s.objects s.active s.calls

pub told-append : (t : Text) (xs ys : List Call) → told t (xs ++ ys) ≡ (told t xs || told t ys)
unfolding told
told-append t [] ys = refl
told-append t (x ∷ xs) ys = ground (arith, told-append t xs ys)

abbrev pub has : Text → List Text → Bool
has t active = any (λ k. text_eq k t) active

pub has-filter :
    (t task : Text) (active : List Text)
    → has t (filter (λ k. not (text_eq k task)) active) ≡ (has t active && not (text_eq task t))
unfolding any filter
has-filter t task [] = refl
has-filter t task (k ∷ active) =
    ground
      (arith, has-filter t task active, text_eq_iff k task, text_eq_iff k t, text_eq_iff task t)

pub has-append :
    (t task : Text) (active : List Text)
    → has t (active ++ task ∷ []) ≡ (has t active || text_eq task t)
unfolding any
has-append t task [] = ground arith
has-append t task (k ∷ active) = ground (arith, has-append t task active)

-- Calls that tell no end.
unfoldable pub Quiet : List Call → Type 0
Quiet cs = (t : Text) → told t cs ≡ false

pub KeptIn-Quiet :
    {objects : Dict ActiveTask} {active : List Text} {calls : List Call} (cs : List Call)
    → Quiet cs
    → KeptIn objects active calls
    → KeptIn objects active (calls ++ cs)
unfolding Quiet
KeptIn-Quiet {calls} cs q k = record {
  fate = λ t. told-append t calls cs ∙ ground (arith, q t, k.fate t);
}

pub KeptIn-put :
    {objects : Dict ActiveTask} {active : List Text} {calls : List Call} (task : Text)
    (a b : ActiveTask)
    → lookup task objects ≡ some a
    → KeptIn objects active calls
    → KeptIn (insert task b objects) active calls
KeptIn-put {objects} task a b h k = record {
  fate = λ t. rw (lookup-insert task t b objects) (
      k.fate t ∙ elim (Bool-cases (text_eq task t)) [
        | inr n ↦ rw n refl
        | inl y ↦
            let same : task ≡ t = ground (arith, text_eq_iff task t) in
            let there : lookup t objects ≡ some a = subst (λ j. lookup j objects ≡ some a) same h in
            rw (y, there) refl
      ]);
}

-- The end of a run: it is told, and the run is not active any more.
pub KeptIn-end :
    {objects : Dict ActiveTask} {active : List Text} {calls : List Call} (task : Text)
    (a : ActiveTask) (cs : List Call)
    → lookup task objects ≡ some a
    → ((t : Text) → told t cs ≡ text_eq task t)
    → KeptIn objects active calls
    → KeptIn objects (filter (λ k. not (text_eq k task)) active) (calls ++ cs)
KeptIn-end {objects} {active} {calls} task a cs h c k = record {
  fate = λ t.
      told-append t calls cs
      ∙ rw (has-filter t task active, c t)
          (elim (Bool-cases (text_eq task t)) [
            | inr n ↦ rw n (ground (arith, k.fate t))
            | inl y ↦
                let same : task ≡ t = ground (arith, text_eq_iff task t) in
                let there : lookup t objects ≡ some a =
                  subst (λ j. lookup j objects ≡ some a) same h in
                rw (y, there) (ground arith)
          ]);
}

pub KeptIn-start :
    {objects : Dict ActiveTask} {active active' : List Text} {calls : List Call} (task : Text)
    (a : ActiveTask)
    → lookup task objects ≡ none
    → ((t : Text) → has t active' ≡ (has t active || text_eq task t))
    → KeptIn objects active calls
    → KeptIn (insert task a objects) active' calls
KeptIn-start {objects} {active} task a h also k = record {
  fate = λ t.
      rw (lookup-insert task t a objects, also t)
        (k.fate t ∙ elim (Bool-cases (text_eq task t)) [
          | inr n ↦ rw n (ground arith)
          | inl y ↦
              let same : task ≡ t = ground (arith, text_eq_iff task t) in
              let there : lookup t objects ≡ none = subst (λ j. lookup j objects ≡ none) same h in
              rw (y, there) (ground arith)
        ]);
}

pub Quiet-call : (c : Call) → ((t : Text) → tells t c ≡ false) → Quiet (c ∷ [])
unfolding Quiet told
Quiet-call c h = λ t. rw (h t) refl

pub told-event :
    (now task : Text) (a : ActiveTask) (d : Detail) (b : Bool) (t : Text)
    → is_terminal_detail d ≡ b
    → told t (Call.on_event (event now task a d) ∷ []) ≡ (text_eq task t && b)
unfolding told event
told-event now task a d b t h = rw h (ground arith)

pub told-rejected :
    (task : Text) (e : GatewayError) (t : Text)
    → told t (Call.rejected task e ∷ []) ≡ text_eq task t
unfolding told
told-rejected task e t = ground arith

pub and_true : (b : Bool) → (b && true) ≡ b
and_true true = refl
and_true false = refl

pub and_false : (b : Bool) → (b && false) ≡ false
and_false true = refl
and_false false = refl
