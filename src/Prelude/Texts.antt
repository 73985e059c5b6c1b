-- ===== src/Prelude/Texts.antt =====
-- JavaScript strings as lists of UTF-16 code units, with the string methods that the source uses.
use Prim.Native.Nat.{ℕ, ◌+◌, ◌-◌, ◌/◌, ◌%◌, ◌≤◌}
use Prim.Native.Char.{code}
use Prim.Native.String.{String}
use mathlib.Core.Path.{◌≡◌, refl}
use mathlib.Core.Logic.{◌↔◌}
use mathlib.Core.Bool.{Bool, true, false, ◌&&◌, ◌||◌}
use mathlib.Core.List.{List, [], ◌∷◌}
use native.Mathlib.Omega.{arith}
use claw_work.Prelude.Tests.{if◌then◌else◌, ◌==◌, ltb, leb}
use claw_work.Prelude.Lists.{length}

abbrev pub Text : Type 0
Text = List ℕ

-- The UTF-16 code units of a literal.
abbrev pub js : String → Text
js String.[] = []
js (String.◌∷◌ c s) =
    if ltb (code c) 0x10000
    then code c ∷ js s
    else (0xd800 + (code c - 0x10000) / 0x400) ∷ (0xdc00 + (code c - 0x10000) % 0x400) ∷ js s

-- `s === t`
unfoldable pub text_eq : Text → Text → Bool
text_eq [] [] = true
text_eq (a ∷ s) (b ∷ t) = a == b && text_eq s t
text_eq _ _ = false

pub text_eq_refl : (s : Text) → text_eq s s ≡ true
unfolding text_eq
text_eq_refl [] = refl
text_eq_refl (a ∷ s) = ground (arith, text_eq_refl s)

pub eq_of_text_eq : (s t : Text) → text_eq s t ≡ true → s ≡ t
unfolding text_eq
eq_of_text_eq [] [] h = refl
eq_of_text_eq (a ∷ s) (b ∷ t) h = ground (arith, eq_of_text_eq s t)
eq_of_text_eq [] (b ∷ t) h = cc
eq_of_text_eq (a ∷ s) [] h = cc

pub text_eq_iff : (s t : Text) → (text_eq s t ≡ true) ↔ (s ≡ t)
text_eq_iff s t = (eq_of_text_eq s t, λ e. rw e (text_eq_refl t))

-- The truth value of a string: it is not empty.
abbrev pub truthy : Text → Bool
truthy [] = false
truthy (c ∷ s) = true

-- `s.startsWith(p)`
unfoldable pub starts_with : Text → Text → Bool
starts_with s [] = true
starts_with [] (b ∷ p) = false
starts_with (a ∷ s) (b ∷ p) = a == b && starts_with s p

-- `s.includes(p)`
unfoldable pub includes : Text → Text → Bool
unfolding starts_with
includes [] p = starts_with [] p
includes (a ∷ s) p = starts_with (a ∷ s) p || includes s p

-- The white space and line ends that `trim` removes.
unfoldable pub is_space : ℕ → Bool
is_space c =
    (leb 9 c && leb c 13)
    || c == 32
    || c == 0xa0
    || c == 0x1680
    || (leb 0x2000 c && leb c 0x200a)
    || c == 0x2028
    || c == 0x2029
    || c == 0x202f
    || c == 0x205f
    || c == 0x3000
    || c == 0xfeff

unfoldable pub trim_start : Text → Text
unfolding is_space
trim_start [] = []
trim_start (c ∷ s) = if is_space c then trim_start s else c ∷ s

-- Drops the white space at the end: a unit stays if it, or anything kept behind it, is no space.
unfoldable pub trim_end : Text → Text
unfolding is_space
trim_end [] = []
trim_end (c ∷ s) = elim (trim_end s) [ [] ↦ if is_space c then [] else c ∷ [] | d ∷ t ↦ c ∷ d ∷ t ]

-- `s.trim()`
unfoldable pub trim : Text → Text
unfolding trim_start trim_end
trim s = trim_end (trim_start s)

-- `a || b` on strings.
abbrev pub or_text : Text → Text → Text
or_text a b = if truthy a then a else b

pub length-trim_end-le : (s : Text) → length (trim_end s) ≤ length s
unfolding trim_end
length-trim_end-le [] = omega arith
length-trim_end-le (c ∷ s) = ground (arith, length-trim_end-le s)

pub length-trim_start-le : (s : Text) → length (trim_start s) ≤ length s
unfolding trim_start
length-trim_start-le [] = omega arith
length-trim_start-le (c ∷ s) = ground (arith, length-trim_start-le s)
