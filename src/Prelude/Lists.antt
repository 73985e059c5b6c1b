-- ===== src/Prelude/Lists.antt =====
-- Lists measured and indexed by native numbers, under the library's names, and the array methods
-- of the source: `filter`, `find`, `some`, `includes`, `slice(-n)`.
use Prim.Native.Nat.{ℕ, zero, suc, ◌+◌, ◌-◌, ◌≤◌}
use mathlib.Core.Path.{◌≡◌, refl, ap, ◌∙◌}
use mathlib.Core.Logic.{inl, inr, ◌≢◌}
use mathlib.Core.Bool.{Bool, true, false, ◌||◌}
use mathlib.Core.List.{List, [], ◌∷◌, ◌++◌}
use mathlib.Core.Option.{Option, none, some}
use native.Mathlib.Omega.{arith}
use native.Mathlib.Nat.{suc-add}
use claw_work.Prelude.Tests.{if◌then◌else◌, ◌==◌, Bool-cases}

module _ {ℓ} {A : Type ℓ} where
  abbrev pub length : List A → ℕ
  length [] = 0
  length (x ∷ xs) = suc (length xs)

  abbrev pub get_elem? : List A → ℕ → Option A
  get_elem? [] i = none
  get_elem? (x ∷ xs) zero = some x
  get_elem? (x ∷ xs) (suc i) = get_elem? xs i

  abbrev pub drop : ℕ → List A → List A
  drop zero xs = xs
  drop (suc n) [] = []
  drop (suc n) (x ∷ xs) = drop n xs

  abbrev pub take : ℕ → List A → List A
  take zero xs = []
  take (suc n) [] = []
  take (suc n) (x ∷ xs) = x ∷ take n xs

  -- `xs.at(-1)`
  abbrev pub get_last? : List A → Option A
  get_last? [] = none
  get_last? (x ∷ []) = some x
  get_last? (x ∷ y ∷ xs) = get_last? (y ∷ xs)

  unfoldable pub filter : (A → Bool) → List A → List A
  filter p [] = []
  filter p (x ∷ xs) = if p x then x ∷ filter p xs else filter p xs

  unfoldable pub find : (A → Bool) → List A → Option A
  find p [] = none
  find p (x ∷ xs) = if p x then some x else find p xs

  unfoldable pub any : (A → Bool) → List A → Bool
  any p [] = false
  any p (x ∷ xs) = p x || any p xs

module _ {ℓ κ} {A : Type ℓ} (P : A → Type κ) where
  abbrev pub All : List A → Type κ
  All [] = Unit
  All (x ∷ xs) = P x × All xs

module _ {ℓ} {A : Type ℓ} where
  -- `xs.slice(-n)`: the last `n` items; `-0` is 0, so that the whole list is kept.
  unfoldable pub slice_last : ℕ → List A → List A
  slice_last n xs = if n == 0 then xs else drop (length xs - n) xs

  pub length-append : (xs ys : List A) → length (xs ++ ys) ≡ length xs + length ys
  length-append [] ys = omega arith
  length-append (x ∷ xs) ys = omega (arith, length-append xs ys)

  pub length-drop : (n : ℕ) (xs : List A) → length (drop n xs) ≡ length xs - n
  length-drop zero xs = omega arith
  length-drop (suc n) [] = omega arith
  length-drop (suc n) (x ∷ xs) = omega (arith, length-drop n xs)

  pub length-take-le : (n : ℕ) (xs : List A) → length (take n xs) ≤ n
  length-take-le zero xs = omega arith
  length-take-le (suc n) [] = omega arith
  length-take-le (suc n) (x ∷ xs) = omega (arith, length-take-le n xs)

  pub filter-append :
      (p : A → Bool) (xs ys : List A) → filter p (xs ++ ys) ≡ filter p xs ++ filter p ys
  unfolding filter
  filter-append p [] ys = refl
  filter-append p (x ∷ xs) ys = ground (arith, filter-append p xs ys)

  pub length-filter-le : (p : A → Bool) (xs : List A) → length (filter p xs) ≤ length xs
  unfolding filter
  length-filter-le p [] = omega arith
  length-filter-le p (x ∷ xs) = ground (arith, length-filter-le p xs)

  pub get_last?-concat : (xs : List A) (x : A) → get_last? (xs ++ x ∷ []) ≡ some x
  get_last?-concat [] x = refl
  get_last?-concat (y ∷ []) x = refl
  get_last?-concat (y ∷ z ∷ xs) x = get_last?-concat (z ∷ xs) x

module _ {ℓ κ} {A : Type ℓ} (P : A → Type κ) where
  pub All-append : (xs ys : List A) → All P xs → All P ys → All P (xs ++ ys)
  All-append [] ys h k = k
  All-append (x ∷ xs) ys (p, h) k = (p, All-append xs ys h k)

  -- The middle of a list, and the list without it.
  pub All-remove : (xs ys : List A) (x : A) → All P (xs ++ x ∷ ys) → P x × All P (xs ++ ys)
  All-remove [] ys x (p, h) = (p, h)
  All-remove (z ∷ xs) ys x (p, h) = let (q, k) = All-remove xs ys x h in (q, (p, k))

  pub All-split : (xs ys : List A) → All P (xs ++ ys) → All P xs × All P ys
  All-split [] ys h = (tt, h)
  All-split (x ∷ xs) ys (p, h) = let (a, b) = All-split xs ys h in ((p, a), b)

  pub All-drop : (n : ℕ) (xs : List A) → All P xs → All P (drop n xs)
  All-drop zero xs h = h
  All-drop (suc n) [] h = h
  All-drop (suc n) (x ∷ xs) h = All-drop n xs h.1

module _ {ℓ} {A : Type ℓ} where
  pub drop-append_le :
      (k : ℕ) (xs ys : List A) → k ≤ length xs → drop k (xs ++ ys) ≡ drop k xs ++ ys
  drop-append_le zero xs ys h = refl
  drop-append_le (suc k) [] ys h = absurd (omega arith)
  drop-append_le (suc k) (x ∷ xs) ys h = drop-append_le k xs ys (omega arith)

  pub drop-drop : (k j : ℕ) (xs : List A) → drop j (drop k xs) ≡ drop (k + j) xs
  drop-drop zero j xs = ap (λ n. drop n xs) (omega arith)
  drop-drop (suc k) zero [] = rw suc-add
  drop-drop (suc k) (suc j) [] = rw suc-add
  drop-drop (suc k) j (x ∷ xs) = rw suc-add (drop-drop k j xs)

  -- To cut a list before an item is added makes no difference to the cut afterwards.
  pub slice_last-concat :
      (n : ℕ) (xs : List A) (x : A)
      → slice_last n (slice_last n xs ++ x ∷ []) ≡ slice_last n (xs ++ x ∷ [])
  slice_last-concat n xs x = elim (Bool-cases (n == 0)) [
    | inl z ↦ unfold slice_last in rw z refl
    | inr p ↦ unfold slice_last in rw p (cut (length xs - n) refl p)
  ]
    where
      cut :
          (a : ℕ)
          → length xs - n ≡ a
          → (n == 0) ≡ false
          → drop (length (drop a xs ++ x ∷ []) - n) (drop a xs ++ x ∷ [])
            ≡ drop (length (xs ++ x ∷ []) - n) (xs ++ x ∷ [])
      cut a e p =
          let pos : n ≢ 0 = ground arith in
          rw (← drop-append_le a xs (x ∷ []) (omega arith)) (
            drop-drop a _ _
            ∙ ap (λ k. drop k (xs ++ x ∷ []))
                (omega (arith, length-drop a (xs ++ x ∷ []), length-append xs (x ∷ []))))

pub drop-nil {ℓ} : {A : Type ℓ} (k : ℕ) → drop {A = A} k [] ≡ []
drop-nil zero = refl
drop-nil (suc k) = refl

pub slice_last-nil {ℓ} : {A : Type ℓ} (n : ℕ) → slice_last {A = A} n [] ≡ []
unfolding slice_last
slice_last-nil {A} n = ground (arith, drop-nil {A = A} (0 - n))

pub All-filter {ℓ κ κ'} :
    {A : Type ℓ} {P : A → Type κ} {Q : A → Type κ'} (p : A → Bool)
    → ((x : A) → P x → p x ≡ true → Q x)
    → (xs : List A) → All P xs
    → All Q (filter p xs)
unfolding filter
All-filter p f [] h = tt
All-filter p f (x ∷ xs) (a, h) = elim (Bool-cases (p x)) [
  | inl e ↦ rw e (f x a e, All-filter p f xs h)
  | inr e ↦ rw e (All-filter p f xs h)
]

pub All-map {ℓ κ κ'} :
    {A : Type ℓ} {P : A → Type κ} {Q : A → Type κ'} (xs : List A)
    → ((x : A) → P x → Q x)
    → All P xs
    → All Q xs
All-map [] f h = tt
All-map (x ∷ xs) f (a, h) = (f x a, All-map xs f h)
