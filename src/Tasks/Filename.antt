-- ===== src/Tasks/Filename.antt =====
-- `sanitizeFilename`: the last segment of a storage key.
use claw_work.Prelude.{
  ℕ, All, Bool, Text, [], arith, false, if◌then◌else◌, is_space, js, leb, or_text, trim, true, ◌==◌,
  ◌||◌, ◌∷◌, ◌≡◌, ◌≢◌, ◌≤◌, Bool-cases, inl, inr, refl, truthy,
}

-- The class `[<>:"/\|?*\u0000-\u001f]`.
unfoldable pub is_forbidden : ℕ → Bool
is_forbidden c =
    leb c 0x1f
    || c == b'<'
    || c == b'>'
    || c == b':'
    || c == 34
    || c == b'/'
    || c == 92
    || c == b'|'
    || c == b'?'
    || c == b'*'

unfoldable pub replace_forbidden : Text → Text
unfolding is_forbidden
replace_forbidden [] = []
replace_forbidden (c ∷ s) = (if is_forbidden c then b'-' else c) ∷ replace_forbidden s

-- `replace(/\s+/g, " ")`; `inside` says that the unit before was white space.
unfoldable pub collapse_spaces : Bool → Text → Text
collapse_spaces inside [] = []
collapse_spaces inside (c ∷ s) =
    let skip = collapse_spaces true s in
    let space = 32 ∷ collapse_spaces true s in
    let keep = c ∷ collapse_spaces false s in
    if is_space c then if inside then skip else space else keep

unfoldable pub sanitize_filename : Text → Text
unfolding replace_forbidden collapse_spaces trim
sanitize_filename filename =
    or_text (collapse_spaces false (replace_forbidden (trim filename))) (js "file")

-- A code unit that may stand in a storage key: none below U+0020, and none of < > : " / \ | ? *.
abbrev pub IsAllowed : ℕ → Type 0
IsAllowed c =
    (32 ≤ c)
    × (c ≢ 60)
    × (c ≢ 62)
    × (c ≢ 58)
    × (c ≢ 34)
    × (c ≢ 47)
    × (c ≢ 92)
    × (c ≢ 124)
    × (c ≢ 63)
    × (c ≢ 42)

is_forbidden-IsAllowed : (c : ℕ) → is_forbidden c ≡ false → IsAllowed c
unfolding is_forbidden
is_forbidden-IsAllowed c h = (
  ground arith,
  (λ e. ground arith),
  (λ e. ground arith),
  (λ e. ground arith),
  (λ e. ground arith),
  (λ e. ground arith),
  (λ e. ground arith),
  (λ e. ground arith),
  (λ e. ground arith),
  (λ e. ground arith),
)

replace_forbidden-IsAllowed : (s : Text) → All IsAllowed (replace_forbidden s)
unfolding replace_forbidden
replace_forbidden-IsAllowed [] = tt
replace_forbidden-IsAllowed (c ∷ s) = (allowed (is_forbidden c) refl, replace_forbidden-IsAllowed s)
  where
    allowed : (b : Bool) → is_forbidden c ≡ b → IsAllowed (if b then b'-' else c)
    allowed true e = is_forbidden-IsAllowed b'-' (unfold is_forbidden in refl)
    allowed false e = is_forbidden-IsAllowed c e

collapse_spaces-IsAllowed :
    (inside : Bool) (s : Text) → All IsAllowed s → All IsAllowed (collapse_spaces inside s)
unfolding collapse_spaces
collapse_spaces-IsAllowed inside [] h = tt
collapse_spaces-IsAllowed inside (c ∷ s) (h, k) = elim (Bool-cases (is_space c)) [
  | inl e ↦ rw e (elim (Bool-cases inside) [
    | inl i ↦ rw i (collapse_spaces-IsAllowed true s k)
    | inr i ↦ rw i (
      is_forbidden-IsAllowed 32 (unfold is_forbidden in refl),
      collapse_spaces-IsAllowed true s k,
    )
  ])
  | inr e ↦ rw e (h, collapse_spaces-IsAllowed false s k)
]

or_text-IsAllowed : (s t : Text) → All IsAllowed s → All IsAllowed t → All IsAllowed (or_text s t)
or_text-IsAllowed [] t h k = k
or_text-IsAllowed (c ∷ s) t h k = h

truthy-or_text : (s t : Text) → truthy t ≡ true → truthy (or_text s t) ≡ true
truthy-or_text [] t h = h
truthy-or_text (c ∷ s) t h = refl

-- Whatever name a client gives, the sanitized one is not empty, and it holds no code unit below
-- U+0020 and none of the characters < > : " / \ | ? *, so no path separator.
pub sanitize_filename-IsAllowed :
    (filename : Text)
    → (truthy (sanitize_filename filename) ≡ true) × All IsAllowed (sanitize_filename filename)
unfolding sanitize_filename
sanitize_filename-IsAllowed filename = (
  truthy-or_text (collapse_spaces false (replace_forbidden (trim filename))) (js "file") refl,
  or_text-IsAllowed _ (js "file")
      (collapse_spaces-IsAllowed false _ (replace_forbidden-IsAllowed (trim filename)))
      (omega arith),
)
