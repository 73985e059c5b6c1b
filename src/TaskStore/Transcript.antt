-- ===== src/TaskStore/Transcript.antt =====
-- The assistant's text on the screen against the pieces of text that the stream brings.
use claw_work.Prelude.{
  Bool-cases, List, Text, [], append-nil, append_assoc, arith, inl, inr, refl, some, sym, ◌++◌, ◌∷◌,
  ◌≡◌, Option, Option-cases, ap, get_last?, none, ◌∙◌,
}
use mathlib.Core.Option
use claw_work.Event.{Artifact, Detail, TaskStreamEvent}
use claw_work.TaskStore.{
  TaskState, Message, grow_last, artifact_message, assistant_message, same_run, user_message,
  append_artifact_message, append_assistant_delta, is_repeated_artifact,
}
use claw_work.TaskStore.Extract.{extract_artifact}
use claw_work.TaskStore.Actions.{apply_stream_event, append_extracted, apply_detail}

-- All text of the assistant, in the order of the messages.
unfoldable pub transcript : List Message → Text
transcript [] = []
transcript (assistant_message id text r ∷ ms) = text ++ transcript ms
transcript (_ ∷ ms) = transcript ms

abbrev pub piece_of : Detail → Text
piece_of (Detail.delta s) = s
piece_of _ = []

transcript-append : (xs ys : List Message) → transcript (xs ++ ys) ≡ transcript xs ++ transcript ys
unfolding transcript
transcript-append [] ys = refl
transcript-append (assistant_message id text r ∷ xs) ys =
    rw (transcript-append xs ys) (sym (append_assoc text _ _))
transcript-append (user_message id text r ∷ xs) ys = transcript-append xs ys
transcript-append (artifact_message id a u r ∷ xs) ys = transcript-append xs ys

map-some :
    (m : Message) (o : Option (List Message)) (ns : List Message)
    → Option.map (λ (xs : List Message). m ∷ xs) o ≡ some ns
    → (ns' : List Message) × (o ≡ some ns') × (ns ≡ m ∷ ns')
map-some m none ns h = cc
map-some m (some xs) ns h = (xs, refl, ground arith)

grow_last-transcript :
    (run delta : Text) (ms ns : List Message)
    → grow_last run delta ms ≡ some ns
    → transcript ns ≡ transcript ms ++ delta
unfolding grow_last transcript
grow_last-transcript run delta [] ns h = cc
grow_last-transcript run delta (assistant_message id text r ∷ []) ns h =
    elim (Bool-cases (same_run run r)) [
      | inl y ↦
          let grown : assistant_message id (text ++ delta) r ∷ [] ≡ ns = ground arith in
          rw (← grown, append-nil, append-nil) refl
      | inr n ↦ absurd (ground arith)
    ]
grow_last-transcript run delta (user_message id text r ∷ ms) ns h =
    let (ns', e, n) = map-some (user_message id text r) (grow_last run delta ms) ns h in
    ap transcript n ∙ grow_last-transcript run delta ms ns' e
grow_last-transcript run delta (artifact_message id a u r ∷ ms) ns h =
    let (ns', e, n) = map-some (artifact_message id a u r) (grow_last run delta ms) ns h in
    ap transcript n ∙ grow_last-transcript run delta ms ns' e
grow_last-transcript run delta (assistant_message id text r ∷ m ∷ ms) ns h =
    let (ns', e, n) = map-some (assistant_message id text r) (grow_last run delta (m ∷ ms)) ns h in
    ap transcript n
    ∙ ap (λ t. text ++ t) (grow_last-transcript run delta (m ∷ ms) ns' e)
    ∙ sym (append_assoc text _ delta)

append_assistant_delta-transcript :
    (fresh run delta : Text) (s : TaskState)
    → transcript (append_assistant_delta fresh run delta s).messages
      ≡ transcript s.messages ++ delta
unfolding append_assistant_delta
append_assistant_delta-transcript fresh run [] s = rw append-nil
append_assistant_delta-transcript fresh run (c ∷ delta) s =
    elim (Option-cases (grow_last run (c ∷ delta) s.messages)) [
      | inl e ↦
          rw (e, append_assistant_delta)
            (transcript-append s.messages _
              ∙ ap (λ t. transcript s.messages ++ t) (unfold transcript in append-nil (c ∷ delta)))
      | inr (ns, e) ↦
          rw (e, append_assistant_delta) (grow_last-transcript run (c ∷ delta) s.messages ns e)
    ]

append_artifact_message-transcript :
    (fresh run : Text) (a : Artifact) (url : Text) (s : TaskState)
    → transcript (append_artifact_message fresh run a url s).messages ≡ transcript s.messages ++ []
unfolding append_artifact_message
append_artifact_message-transcript fresh run a url s =
    elim (Bool-cases (is_repeated_artifact run url (get_last? s.messages))) [
      | inl y ↦ rw (y, append_artifact_message, append-nil) refl
      | inr n ↦
          rw (n, append_artifact_message)
            (transcript-append s.messages _
              ∙ ap (λ t. transcript s.messages ++ t) (unfold transcript in refl))
    ]

append_extracted-transcript :
    (fresh run : Text) (o : Option (Artifact × Text)) (s : TaskState)
    → transcript (append_extracted fresh run o s).messages ≡ transcript s.messages ++ []
unfolding append_extracted
append_extracted-transcript fresh run none s = rw append-nil
append_extracted-transcript fresh run (some (a, url)) s =
    append_artifact_message-transcript fresh run a url s

apply_detail-transcript :
    (fresh run : Text) (d : Detail) (s : TaskState)
    → transcript (apply_detail fresh run d s).messages ≡ transcript s.messages ++ piece_of d
unfolding apply_detail
apply_detail-transcript fresh run (Detail.delta t) s =
    append_assistant_delta-transcript fresh run t _
apply_detail-transcript fresh run (Detail.result_created r) s =
    append_extracted-transcript fresh run (extract_artifact r) _
apply_detail-transcript fresh run Detail.accepted s = rw append-nil
apply_detail-transcript fresh run (Detail.stage_changed x) s = rw append-nil
apply_detail-transcript fresh run Detail.completed s = rw append-nil
apply_detail-transcript fresh run (Detail.cancelled m) s = rw append-nil
apply_detail-transcript fresh run (Detail.failed c m) s = rw append-nil

-- The events of a stream, one after another; with each comes what `nextId` would draw.
unfoldable pub apply_events : List (Text × TaskStreamEvent) → TaskState → TaskState
apply_events [] s = s
apply_events ((fresh, e) ∷ es) s = apply_events es (apply_stream_event fresh e s)

unfoldable pub pieces : List (Text × TaskStreamEvent) → Text
pieces [] = []
pieces ((fresh, e) ∷ es) = piece_of e.detail ++ pieces es

-- Whatever events a stream brings, of one run or of several, the assistant's text on the screen
-- grows by exactly the pieces of text that they carry, in their order.
pub apply_events-transcript :
    (es : List (Text × TaskStreamEvent)) (s : TaskState)
    → transcript (apply_events es s).messages ≡ transcript s.messages ++ pieces es
unfolding apply_events pieces apply_stream_event
apply_events-transcript [] s = rw append-nil
apply_events-transcript ((fresh, e) ∷ es) s =
    apply_events-transcript es _
    ∙ ap (λ t. t ++ pieces es) (apply_detail-transcript fresh e.run_id e.detail _)
    ∙ append_assoc (transcript s.messages) (piece_of e.detail) (pieces es)
