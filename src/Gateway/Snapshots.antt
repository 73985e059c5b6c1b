-- ===== src/Gateway/Snapshots.antt =====
-- The deltas of a reply whose snapshots grow.
use claw_work.Prelude.{
  Bool-cases, List, Text, [], append-nil, append_assoc, arith, drop, inl, inr, length, refl,
  starts_with, true, truthy, ◌&&◌, ◌++◌, ◌∷◌, ◌≡◌,
}
use claw_work.Gateway.{normalize_assistant_delta}

-- The handler's loop: the deltas of the snapshots, one after the other.
unfoldable pub deltas : (previous : Text) → List Text → List Text
unfolding normalize_assistant_delta
deltas previous [] = []
deltas previous (s ∷ more) =
    (normalize_assistant_delta s previous).next_delta
    ∷ deltas (normalize_assistant_delta s previous).next_snapshot more

-- Each snapshot continues the one before it.
abbrev pub Growing : Text → List Text → Type 0
Growing previous [] = Unit
Growing previous (s ∷ more) = (starts_with s previous ≡ true) × Growing s more

abbrev pub last_of : Text → List Text → Text
last_of previous [] = previous
last_of previous (s ∷ more) = last_of s more

abbrev pub joined : List Text → Text
joined [] = []
joined (s ∷ more) = s ++ joined more

starts_with-drop : (s p : Text) → starts_with s p ≡ true → p ++ drop (length p) s ≡ s
unfolding starts_with
starts_with-drop s [] h = refl
starts_with-drop [] (b ∷ p) h = absurd (cc)
starts_with-drop (a ∷ s) (b ∷ p) h = ground (arith, starts_with-drop s p)

next_delta-starts_with :
    (s p : Text) → starts_with s p ≡ true → p ++ (normalize_assistant_delta s p).next_delta ≡ s
unfolding normalize_assistant_delta starts_with
next_delta-starts_with [] [] h = refl
next_delta-starts_with [] (b ∷ p) h = absurd (cc)
next_delta-starts_with (a ∷ s) [] h = refl
next_delta-starts_with (a ∷ s) (b ∷ p) h = rw h (starts_with-drop (a ∷ s) (b ∷ p) h)

next_snapshot_self : (s p : Text) → (normalize_assistant_delta s p).next_snapshot ≡ s
unfolding normalize_assistant_delta
next_snapshot_self [] p = refl
next_snapshot_self (a ∷ s) p = elim (Bool-cases (truthy p && starts_with (a ∷ s) p)) [
  | inl y ↦ rw y refl
  | inr n ↦ rw n refl
]

-- If each snapshot of a reply continues the one before it, the deltas that the client sends, put
-- behind the snapshot it had, are the last snapshot.
pub deltas-joined :
    (previous : Text) (snapshots : List Text)
    → Growing previous snapshots
    → previous ++ joined (deltas previous snapshots) ≡ last_of previous snapshots
unfolding deltas
deltas-joined previous [] h = append-nil previous
deltas-joined previous (s ∷ more) (h, hs) =
    rw (next_snapshot_self s previous, ← append_assoc, next_delta-starts_with s previous h)
      (deltas-joined s more hs)
