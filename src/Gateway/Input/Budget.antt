-- ===== src/Gateway/Input/Budget.antt =====
-- The budget of characters: what the texts of all files bring into the message.
use claw_work.Prelude.{
  Bool-cases, List, Option, Text, [], arith, false, if◌then◌else◌, inl, inr, leb, length, min, none,
  refl, some, take, trim_end, zero, suc, ℕ, ◌++◌, ◌+◌, ◌-◌, ◌==◌, ◌∷◌, ◌≡◌, ◌≤◌, subst,
}
use claw_work.Gateway.Input.{
  Block, Collected, GatewayAttachment, InputFile, Outside, Parsed, add_attachment, add_block,
  add_counted, block_of, budget_of, collect, format_fallback_document_note, is_image_mime,
  is_not_found, max_document_chars_total, parse_with_isolated_service, parsed, refused, text_block,
  to_document_block, to_image_attachment, truncate_text, used_up_block,
}

length-trim_end : (s : Text) → length (trim_end s) ≤ length s
unfolding trim_end
length-trim_end [] = omega arith
length-trim_end (c ∷ s) = ground (arith, length-trim_end s)

length-take_le : (n : ℕ) (s : Text) → length (take n s) ≤ n
length-take_le zero s = omega arith
length-take_le (suc n) [] = omega arith
length-take_le (suc n) (c ∷ s) = omega (arith, length-take_le n s)

length-append_text : (s t : Text) → length (s ++ t) ≡ length s + length t
length-append_text [] t = omega arith
length-append_text (c ∷ s) t = omega (arith, length-append_text s t)

-- A text that is cut takes no more than the characters that the budget counts for it.
length-truncate_text :
    (text : Text) (n : ℕ) → 18 ≤ n → length (truncate_text text n) ≤ min (length text) n
unfolding truncate_text
length-truncate_text text n h = elim (Bool-cases (leb (length text) n)) [
  | inl y ↦ rw y (ground arith)
  | inr m ↦
      rw (m, length-append_text)
        (ground (arith, length-trim_end (take (n - 18) text), length-take_le (n - 18) text))
]

-- The characters of a block that count.
abbrev pub counted_length : Block → ℕ
counted_length b = if b.counted then length b.content else 0

unfoldable pub total_length : List Block → ℕ
total_length [] = 0
total_length (b ∷ bs) = counted_length b + total_length bs

-- A file that is turned into text takes what it is counted for.
pub data Taken (remaining : ℕ) : Option (Block × ℕ) → Type 0 where
  thrown : Taken remaining none
  taken :
      (b : Block) (used : ℕ)
      → counted_length b ≤ used
      → used ≤ budget_of remaining
      → Taken remaining (some (b, used))

text_block-Taken :
    (f : InputFile) (index remaining : ℕ) (text : Text)
    → Taken remaining (some (text_block f index (budget_of remaining) text))
unfolding text_block
text_block-Taken f index remaining text =
    taken _ _ (length-truncate_text text (budget_of remaining) (ground arith)) (ground arith)

block_of-Taken :
    (f : InputFile) (index remaining : ℕ) (p : Parsed)
    → Taken remaining (block_of f index remaining p)
unfolding block_of
block_of-Taken f index remaining (parsed text) = text_block-Taken f index remaining text
block_of-Taken f index remaining (refused code message) = elim (Bool-cases (is_not_found code)) [
  | inl y ↦ rw y thrown
  | inr n ↦ rw n (text_block-Taken f index remaining (format_fallback_document_note f code message))
]
block_of-Taken f index remaining Parsed.failed = thrown

-- What the rest of a loop brings in.
abbrev pub Within : ℕ → Option Collected → Type 0
Within n none = Unit
Within n (some c) = total_length c.blocks ≤ n

-- A budget of `n` lets in 255 characters more at most, for the last text.
abbrev allowance : ℕ → ℕ
allowance zero = 0
allowance (suc n) = suc n + 255

add_attachment-Within :
    (n : ℕ) (a : Option GatewayAttachment) (c : Option Collected)
    → Within n c
    → Within n (add_attachment a c)
add_attachment-Within n none c h = tt
add_attachment-Within n (some a) none h = tt
add_attachment-Within n (some a) (some c) h = h

add_block-Within :
    (n m : ℕ) (b : Block) (c : Option Collected)
    → counted_length b + m ≤ n
    → Within m c
    → Within n (add_block b c)
unfolding total_length
add_block-Within n m b none h k = tt
add_block-Within n m b (some c) h k = omega (arith, h, k)

add_counted-Within :
    (r : ℕ) (b : Option (Block × ℕ)) (rest : ℕ → Option Collected)
    → (r == 0) ≡ false
    → Taken r b
    → ((used : ℕ) → Within (allowance (r - used)) (rest used))
    → Within (allowance r) (add_counted b rest)
add_counted-Within r _ rest more thrown ih = tt
add_counted-Within zero _ rest more (taken b used h k) ih = absurd (ground arith)
add_counted-Within (suc r) _ rest more (taken b used h k) ih =
    add_block-Within (suc r + 255) (allowance (suc r - used)) b (rest used)
      (left (suc r - used) refl) (ih used)
  where
    left : (m : ℕ) → suc r - used ≡ m → counted_length b + allowance m ≤ suc r + 255
    left zero e = ground arith
    left (suc m) e = ground arith

collect-Within :
    (index remaining : ℕ) (files : List (InputFile × Outside))
    → Within (allowance remaining) (collect index remaining files)
unfolding collect total_length
collect-Within index remaining [] = ground arith
collect-Within index remaining ((f, o) ∷ more) = elim (Bool-cases (is_image_mime f.mime_type)) [
  | inl y ↦ rw y (
      add_attachment-Within (allowance remaining) (to_image_attachment f o) _
        (collect-Within (index + 1) remaining more))
  | inr n ↦ rw n (elim (Bool-cases (remaining == 0)) [
    | inl z ↦ rw z (
        add_block-Within (allowance remaining) (allowance remaining) (used_up_block f index) _
          (omega arith) (collect-Within (index + 1) remaining more))
    | inr m ↦ rw m (
        add_counted-Within remaining (to_document_block f o index remaining) _ m
          (unfold to_document_block in
            block_of-Taken f index remaining (parse_with_isolated_service f o))
          (λ used. collect-Within (index + 1) (remaining - used) more))
  ])
]

-- However many files a task has and however long their texts are, the texts bring at most 16,255
-- characters into the message: the budget of 16,000 and what the smallest share of 256 lets the last
-- text take beyond it.
pub collect-total_length :
    (files : List (InputFile × Outside)) (c : Collected)
    → collect 1 max_document_chars_total files ≡ some c
    → total_length c.blocks ≤ 16255
collect-total_length files c h =
    let w : Within (allowance max_document_chars_total) (collect 1 max_document_chars_total files) =
      collect-Within 1 max_document_chars_total files in
    let v : Within (allowance max_document_chars_total) (some c) =
      subst (Within (allowance max_document_chars_total)) h w in
    omega (arith, v)
