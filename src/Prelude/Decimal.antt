-- ===== src/Prelude/Decimal.antt =====
-- The decimal text of a number, as `String(n)` and a template print it, and its reading.

use Prim.Native.Nat.{ℕ, zero, suc, ◌+◌, ◌-◌, ◌*◌, ◌/◌, ◌%◌, ◌≤◌, ◌<◌}
use mathlib.Core.Path.{◌≡◌, refl}
use mathlib.Core.Bool.{true}
use mathlib.Core.Logic.{inl, inr}
use mathlib.Core.List.{[], ◌∷◌, ◌++◌}
use native.Mathlib.Omega.{arith}
use claw_work.Prelude.Lists.{All, All-append}
use claw_work.Prelude.Tests.{if◌then◌else◌, Bool-cases, ltb}
use claw_work.Prelude.Texts.{Text, truthy}

-- `fuel` bounds the number of digits.
unfoldable pub decimal_fuel : ℕ → ℕ → Text
decimal_fuel zero n = []
decimal_fuel (suc fuel) n =
    let front = decimal_fuel fuel (n / 10) in
    if ltb n 10 then (48 + n) ∷ [] else front ++ (48 + n % 10) ∷ []

unfoldable pub decimal : ℕ → Text
unfolding decimal_fuel
decimal n = decimal_fuel (suc n) n

unfoldable pub read_from : ℕ → Text → ℕ
read_from acc [] = acc
read_from acc (c ∷ s) = read_from (acc * 10 + (c - 48)) s

-- The value of a text of digits.
unfoldable pub read_decimal : Text → ℕ
unfolding read_from
read_decimal s = read_from 0 s

abbrev pub IsDigit : ℕ → Type 0
IsDigit c = (48 ≤ c) × (c ≤ 57)

read_from-concat :
    (acc : ℕ) (s : Text) (c : ℕ) → read_from acc (s ++ c ∷ []) ≡ read_from acc s * 10 + (c - 48)
unfolding read_from
read_from-concat acc [] c = refl
read_from-concat acc (d ∷ s) c = read_from-concat (acc * 10 + (d - 48)) s c

read-decimal_fuel : (fuel n : ℕ) → n < fuel → read_from 0 (decimal_fuel fuel n) ≡ n
unfolding decimal_fuel read_from
read-decimal_fuel zero n h = elim h [ ]
read-decimal_fuel (suc fuel) n h = elim (Bool-cases (ltb n 10)) [
  | inl e ↦ rw e (omega arith)
  | inr e ↦
      let big : 10 ≤ n = ground arith in
      rw (e, read_from-concat, read-decimal_fuel fuel (n / 10) (omega arith)) (omega arith)
]

-- `fuel` is enough: a number is read back from its decimal text.
pub read_decimal-decimal : (n : ℕ) → read_decimal (decimal n) ≡ n
unfolding read_decimal decimal
read_decimal-decimal n = read-decimal_fuel (suc n) n (omega arith)

decimal_fuel-IsDigit : (fuel n : ℕ) → All IsDigit (decimal_fuel fuel n)
unfolding decimal_fuel
decimal_fuel-IsDigit zero n = tt
decimal_fuel-IsDigit (suc fuel) n = elim (Bool-cases (ltb n 10)) [
  | inl e ↦ let small : n < 10 = ground arith in rw e (omega arith)
  | inr e ↦ rw e (All-append IsDigit _ _ (decimal_fuel-IsDigit fuel (n / 10)) (omega arith))
]

pub decimal-IsDigit : (n : ℕ) → All IsDigit (decimal n)
unfolding decimal
decimal-IsDigit n = decimal_fuel-IsDigit (suc n) n

decimal_fuel-ne-nil : (fuel n : ℕ) → truthy (decimal_fuel (suc fuel) n) ≡ true
unfolding decimal_fuel
decimal_fuel-ne-nil fuel n = elim (Bool-cases (ltb n 10)) [
  | inl e ↦ rw e refl
  | inr e ↦ rw e (tail (decimal_fuel fuel (n / 10)))
]
  where
    tail : (s : Text) → truthy (s ++ (48 + n % 10) ∷ []) ≡ true
    tail [] = refl
    tail (c ∷ s) = refl

pub truthy-decimal : (n : ℕ) → truthy (decimal n) ≡ true
unfolding decimal
truthy-decimal n = decimal_fuel-ne-nil n n
