-- ===== src/TaskStore/Versions.antt =====
-- What holds of the store after any calls: the snapshot that the listeners read is the state, and
-- the selected version is one of the conversation's.
use claw_work.Prelude.{
  Bool, Bool-cases, List, Option, Option-cases, Text, [], any, arith, false, get_last?,
  if◌then◌else◌, inl, inr, is_some, none, or_else, refl, some, subst, sym, text_eq, trim, true,
  truthy, ℕ, ◌&&◌, ◌∷◌, ◌≡◌,
}
use claw_work.Event.{Artifact, Detail}
use claw_work.TaskStore.{
  TaskState, Store, emit, initial_state, TaskResultVersion, append_artifact_message,
  append_assistant_delta, grow_last, is_repeated_artifact, push_user_message,
  replace_pending_attachment, upsert_recent,
}
use claw_work.TaskStore.Extract.{extract_artifact}
use claw_work.TaskStore.Actions.{
  apply_stream_event, append_extracted, append_follow_up, append_recent_conversations, apply_detail,
  begin_pending_attachment, begin_retry, complete_pending_attachment, find_attachment,
  hydrate_recent_conversations, mark_cancelled, recover_active_task, remove_pending_attachment,
  remove_recent_conversation, resume_conversation, set_execution_meta, set_task_error,
  start_conversation,
}
use claw_work.TaskStore.History.{
  perform, act, Action, set_draft_to, append_recent, begin_attachment, complete_attachment,
  fail_attachment_with, finish, follow_up, has_version, hydrate_recent, hydrate_server,
  hydrate_server_conversation, last_version_no, mark_as_cancelled, recover, remove_attachment,
  remove_recent, reset, resume, retry, select_version, set_error, set_meta, set_result_versions,
  set_versions, start, stream_event,
}

-- What the version list and the choice in it are.
abbrev choice : TaskState → List TaskResultVersion × Option ℕ
choice s = (s.result_versions, s.selected_version_no)

pub IsChosen : List TaskResultVersion × Option ℕ → Type 0
IsChosen (vs, none) = Unit
IsChosen (vs, some n) = has_version n vs ≡ true

has_version-last : (vs : List TaskResultVersion) → IsChosen (vs, last_version_no vs)
unfolding IsChosen any
has_version-last [] = tt
has_version-last (v ∷ []) = ground arith
has_version-last (v ∷ w ∷ vs) = with_first (last_version_no (w ∷ vs)) (has_version-last (w ∷ vs))
  where
    with_first : (o : Option ℕ) → IsChosen (w ∷ vs, o) → IsChosen (v ∷ w ∷ vs, o)
    with_first none h = tt
    with_first (some n) h = ground arith

append_assistant_delta-choice :
    (fresh run delta : Text) (s : TaskState)
    → choice (append_assistant_delta fresh run delta s) ≡ choice s
unfolding append_assistant_delta
append_assistant_delta-choice fresh run [] s = refl
append_assistant_delta-choice fresh run (c ∷ delta) s =
    elim (Option-cases (grow_last run (c ∷ delta) s.messages)) [
      | inl e ↦ rw (e, append_assistant_delta) refl
      | inr (ns, e) ↦ rw (e, append_assistant_delta) refl
    ]

append_extracted-choice :
    (fresh run : Text) (o : Option (Artifact × Text)) (s : TaskState)
    → choice (append_extracted fresh run o s) ≡ choice s
unfolding append_extracted append_artifact_message
append_extracted-choice fresh run none s = refl
append_extracted-choice fresh run (some (a, url)) s =
    elim (Bool-cases (is_repeated_artifact run url (get_last? s.messages))) [
      | inl y ↦ rw (y, append_artifact_message) refl
      | inr n ↦ rw (n, append_artifact_message) refl
    ]

apply_detail-choice :
    (fresh run : Text) (d : Detail) (s : TaskState) → choice (apply_detail fresh run d s) ≡ choice s
unfolding apply_detail
apply_detail-choice fresh run (Detail.delta t) s = append_assistant_delta-choice fresh run t _
apply_detail-choice fresh run (Detail.result_created r) s =
    append_extracted-choice fresh run (extract_artifact r) _
apply_detail-choice fresh run Detail.accepted s = refl
apply_detail-choice fresh run (Detail.stage_changed x) s = refl
apply_detail-choice fresh run Detail.completed s = refl
apply_detail-choice fresh run (Detail.cancelled m) s = refl
apply_detail-choice fresh run (Detail.failed c m) s = refl

OptionChosen : Option TaskState → Type 0
unfolding IsChosen
OptionChosen none = Unit
OptionChosen (some s) = IsChosen (choice s)

guarded :
    (b : Bool) (s : TaskState) → IsChosen (choice s) → OptionChosen (if b then some s else none)
unfolding OptionChosen
guarded true s h = h
guarded false s h = tt

act-OptionChosen : (a : Action) (s : TaskState) → IsChosen (choice s) → OptionChosen (act a s)
unfolding act OptionChosen IsChosen start_conversation append_follow_up
act-OptionChosen (set_draft_to text) s h = h
act-OptionChosen (begin_attachment fresh name mime size) s h = unfold begin_pending_attachment in h
act-OptionChosen (complete_attachment client file) s h =
    unfold complete_pending_attachment replace_pending_attachment in h
act-OptionChosen (fail_attachment_with client message) s h =
    elim (Option-cases (find_attachment client s)) [
      | inl e ↦ rw e tt
      | inr (x, e) ↦ rw e (unfold replace_pending_attachment in h)
    ]
act-OptionChosen (remove_attachment client) s h = unfold remove_pending_attachment in h
act-OptionChosen (start fresh text) s h = elim (Bool-cases (truthy (trim text))) [
  | inl e ↦ rw (e, upsert_recent) tt
  | inr e ↦ rw e tt
]
act-OptionChosen (follow_up fresh text) s h = elim (Bool-cases (truthy (trim text))) [
  | inl e ↦ rw (e, upsert_recent, push_user_message) h
  | inr e ↦ rw e tt
]
act-OptionChosen (resume fresh fresh' item) s h = unfold resume_conversation in h
act-OptionChosen (set_meta task session status error) s h = unfold set_execution_meta in h
act-OptionChosen (stream_event fresh e) s h =
    unfold apply_stream_event in
    subst IsChosen (sym (apply_detail-choice fresh e.run_id e.detail _)) h
act-OptionChosen (set_error message) s h = unfold set_task_error in h
act-OptionChosen retry s h = unfold begin_retry in h
act-OptionChosen mark_as_cancelled s h = unfold mark_cancelled in h
act-OptionChosen (recover task session text status) s h =
    elim (Bool-cases (text_eq (or_else s.current_task_id []) task && is_some s.current_task_id)) [
      | inl e ↦ rw e tt
      | inr e ↦ rw e (unfold recover_active_task in h)
    ]
act-OptionChosen (hydrate_recent items) s h = unfold hydrate_recent_conversations in h
act-OptionChosen (append_recent items) s h = unfold append_recent_conversations in h
act-OptionChosen (remove_recent task) s h = unfold remove_recent_conversation in h
act-OptionChosen (hydrate_server d) s h =
    unfold hydrate_server_conversation in has_version-last d.versions
act-OptionChosen (set_versions vs) s h = unfold set_result_versions in has_version-last vs
act-OptionChosen (select_version n) s h = elim (Bool-cases (has_version n s.result_versions)) [
  | inl e ↦ rw e e
  | inr e ↦ rw e tt
]
act-OptionChosen reset s h = unfold initial_state in tt

-- The module's variables when it is loaded.
abbrev pub new_store : Store
new_store = record { state = initial_state; snapshot = initial_state; rounds = 0 }

unfoldable pub perform_all : List Action → Store → Store
perform_all [] store = store
perform_all (a ∷ more) store = perform_all more (perform a store)

-- What holds of the store between two calls.
pub record IsConsistent (store : Store) : Type 0 where
  pub snapshot_is_state : store.snapshot ≡ store.state
  pub chosen : IsChosen (store.state.result_versions, store.state.selected_version_no)

finish-IsConsistent :
    (o : Option TaskState) (store : Store)
    → OptionChosen o
    → IsConsistent store
    → IsConsistent (finish o store)
unfolding OptionChosen emit
finish-IsConsistent none store k h = h
finish-IsConsistent (some s) store k h = record { snapshot_is_state = refl; chosen = k }

perform_more-IsConsistent :
    (more : List Action) (store : Store)
    → IsConsistent store
    → IsConsistent (perform_all more store)
unfolding perform_all perform
perform_more-IsConsistent [] store h = h
perform_more-IsConsistent (a ∷ more) store h =
    perform_more-IsConsistent more _
      (finish-IsConsistent (act a store.state) store (act-OptionChosen a store.state h.chosen) h)

-- After any calls of the store's methods from the start on, the snapshot that the listeners read
-- is the current state, and the selected version, if there is one, is among the versions.
pub perform_all-IsConsistent : (calls : List Action) → IsConsistent (perform_all calls new_store)
perform_all-IsConsistent calls =
    perform_more-IsConsistent calls new_store
      (record { snapshot_is_state = refl; chosen = unfold IsChosen initial_state in tt })
