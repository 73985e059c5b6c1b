-- ===== src/TaskQueue/Dictionary.antt =====
-- A queue that is a dictionary: the laws can hold.
use claw_work.Prelude.{
  Bool-cases, Dict, Text, arith, erase, false, if◌then◌else◌, inl, inr, insert, is_some, lookup,
  lookup-erase, lookup-erase_self, lookup-insert, lookup-insert_self, refl, text_eq, text_eq_iff, ℕ,
  ◌≡◌, ◌≢◌, ◌∙◌,
}
use claw_work.TaskQueue.{Bull, BullLaws, JobState}

unfoldable pub add_job : Text → ℕ → Dict JobState → Dict JobState
add_job job n q = if is_some (lookup job q) then q else insert job JobState.waiting q

abbrev pub dict_bull : Bull (Dict JobState)
dict_bull = record { state_of = lookup; add = add_job; remove = erase }

differ : (job other : Text) → job ≢ other → text_eq job other ≡ false
differ job other h = elim (Bool-cases (text_eq job other)) [
  | inl y ↦ absurd (h (ground (arith, text_eq_iff job other)))
  | inr n ↦ n
]

add_other :
    (job other : Text) (n : ℕ) (q : Dict JobState)
    → job ≢ other
    → lookup other (add_job job n q) ≡ lookup other q
unfolding add_job
add_other job other n q h = elim (Bool-cases (is_some (lookup job q))) [
  | inl y ↦ rw y refl
  | inr m ↦ rw (m, lookup-insert job other JobState.waiting q, differ job other h) refl
]

pub dict_bull-BullLaws : BullLaws dict_bull
unfolding add_job
dict_bull-BullLaws = record {
  added = λ job n q h. rw (h, lookup-insert_self job JobState.waiting q) refl;
  present = λ job n q h. rw h refl;
  removed = λ job q. lookup-erase_self job q;
  add_other = add_other;
  remove_other = λ job other q h. lookup-erase job other q ∙ rw (differ job other h) refl;
}
