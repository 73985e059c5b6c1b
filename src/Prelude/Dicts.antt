-- ===== src/Prelude/Dicts.antt =====
-- A `Map` with string keys, as an association list in insertion order: `set` on a key that is
-- there keeps its place, a new key goes to the end.
use mathlib.Core.Path.{◌≡◌, refl}
use mathlib.Core.Logic.{◌≢◌, inl, inr}
use mathlib.Core.Option.{Option, none, some}
use mathlib.Core.List.{List, [], ◌∷◌}
use native.Mathlib.Omega.{arith}
use Prim.Native.Nat.{ℕ, ◌+◌, ◌≤◌}
use claw_work.Prelude.Tests.{if◌then◌else◌, Bool-cases}
use claw_work.Prelude.Texts.{Text, text_eq, text_eq_iff, text_eq_refl}

abbrev pub Dict {ℓ} : Type ℓ → Type ℓ
Dict V = List (Text × V)

module _ {ℓ} {V : Type ℓ} where
  unfoldable pub lookup : Text → Dict V → Option V
  lookup k [] = none
  lookup k ((j, v) ∷ m) = if text_eq j k then some v else lookup k m

  unfoldable pub insert : Text → V → Dict V → Dict V
  insert k v [] = (k, v) ∷ []
  insert k v ((j, w) ∷ m) = if text_eq j k then (j, v) ∷ m else (j, w) ∷ insert k v m

  unfoldable pub erase : Text → Dict V → Dict V
  erase k [] = []
  erase k ((j, w) ∷ m) = if text_eq j k then erase k m else (j, w) ∷ erase k m

  abbrev pub values : Dict V → List V
  values [] = []
  values ((k, v) ∷ m) = v ∷ values m

  pub lookup-insert :
      (k j : Text) (v : V) (m : Dict V)
      → lookup j (insert k v m) ≡ (if text_eq k j then some v else lookup j m)
  unfolding lookup insert
  lookup-insert k j v [] = refl
  lookup-insert k j v ((i, w) ∷ m) =
      ground (arith, text_eq_iff k j, text_eq_iff i k, text_eq_iff i j, lookup-insert k j v m)

  pub lookup-erase :
      (k j : Text) (m : Dict V) → lookup j (erase k m) ≡ (if text_eq k j then none else lookup j m)
  unfolding lookup erase
  lookup-erase k j [] = ground arith
  lookup-erase k j ((i, w) ∷ m) =
      ground (arith, text_eq_iff k j, text_eq_iff i k, text_eq_iff i j, lookup-erase k j m)

  pub lookup-insert_self : (k : Text) (v : V) (m : Dict V) → lookup k (insert k v m) ≡ some v
  lookup-insert_self k v m = simp (lookup-insert, text_eq_refl)

  pub lookup-erase_self : (k : Text) (m : Dict V) → lookup k (erase k m) ≡ none
  lookup-erase_self k m = simp (lookup-erase, text_eq_refl)

  pub lookup-insert_ne :
      {k j : Text} (v : V) (m : Dict V) → k ≢ j → lookup j (insert k v m) ≡ lookup j m
  lookup-insert_ne {k} {j} v m h = rw lookup-insert (ground (arith, text_eq_iff k j))

  pub lookup-erase_ne : {k j : Text} (m : Dict V) → k ≢ j → lookup j (erase k m) ≡ lookup j m
  lookup-erase_ne {k} {j} m h = rw lookup-erase (ground (arith, text_eq_iff k j))

-- The sum of a number over the values.
unfoldable pub total {ℓ} : {V : Type ℓ} → (V → ℕ) → Dict V → ℕ
total w [] = 0
total w ((k, v) ∷ m) = w v + total w m

abbrev pub weight {ℓ} : {V : Type ℓ} → (V → ℕ) → Option V → ℕ
weight w none = 0
weight w (some v) = w v

module _ {ℓ} {V : Type ℓ} (w : V → ℕ) where
  -- A write exchanges one summand.
  pub total-insert :
      (k : Text) (v : V) (m : Dict V)
      → total w (insert k v m) + weight w (lookup k m) ≡ total w m + w v
  unfolding total insert lookup
  total-insert k v [] = omega arith
  total-insert k v ((j, u) ∷ m) = elim (Bool-cases (text_eq j k)) [
    | inl e ↦ rw e (omega arith)
    | inr e ↦ rw e (omega (arith, total-insert k v m))
  ]

  pub total-erase-le : (k : Text) (m : Dict V) → total w (erase k m) ≤ total w m
  unfolding total erase
  total-erase-le k [] = omega arith
  total-erase-le k ((j, u) ∷ m) = elim (Bool-cases (text_eq j k)) [
    | inl e ↦ rw e (omega (arith, total-erase-le k m))
    | inr e ↦ rw e (omega (arith, total-erase-le k m))
  ]
