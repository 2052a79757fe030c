-- ===== src/Pte/Words.antt =====
-- The bit operations on a word of 32 bits, as arithmetic.
use co2018_assignment.Base.{
  ℕ, ◌+◌, ◌-◌, ◌*◌, ◌/◌, ◌%◌, ◌^◌, ◌<◌, ◌≡◌, ap, ap₂, ◌∙◌, bit_and, bit_or, arith,
}
use co2018_assignment.Base.Bits.{set_bit, clear_field, keep_field, fill_field, read_field, and_ones}
use co2018_assignment.Pte.{
  setbit, clrbit, setval, getval, present_mask, swapped_mask, dirty_mask, fpn_mask, swptyp_mask,
  swpoff_mask,
}

pub set_present : (v : ℕ) → v < 2 ^ 32 → setbit v present_mask ≡ 2 ^ 31 + v % 2 ^ 31
set_present v h =
    ap (λ (x : ℕ). bit_or x present_mask) (omega arith)
    ∙ set_bit 31 (v / 2 ^ 31) (v % 2 ^ 31) (omega arith)
    ∙ omega arith

pub set_swapped :
    (v : ℕ) → v < 2 ^ 32 → setbit v swapped_mask ≡ v / 2 ^ 31 * 2 ^ 31 + 2 ^ 30 + v % 2 ^ 30
set_swapped v h =
    ap (λ (x : ℕ). bit_or x swapped_mask) (omega arith)
    ∙ set_bit 30 (v / 2 ^ 30) (v % 2 ^ 30) (omega arith)
    ∙ omega arith

pub clear_swapped : (v : ℕ) → v < 2 ^ 32 → clrbit v swapped_mask ≡ v / 2 ^ 31 * 2 ^ 31 + v % 2 ^ 30
clear_swapped v h =
    ap (λ (x : ℕ). bit_and x (2 ^ 32 - 1 - 2 ^ 30)) (omega arith)
    ∙ clear_field 1 1 30 (v / 2 ^ 31) (v / 2 ^ 30 % 2) (v % 2 ^ 30) (omega arith) (omega arith)
        (omega arith)
    ∙ omega arith

pub clear_dirty : (v : ℕ) → v < 2 ^ 32 → clrbit v dirty_mask ≡ v / 2 ^ 29 * 2 ^ 29 + v % 2 ^ 28
clear_dirty v h =
    ap (λ (x : ℕ). bit_and x (2 ^ 32 - 1 - 2 ^ 28)) (omega arith)
    ∙ clear_field 3 1 28 (v / 2 ^ 29) (v / 2 ^ 28 % 2) (v % 2 ^ 28) (omega arith) (omega arith)
        (omega arith)
    ∙ omega arith

pub setval_fpn : (v f : ℕ) → v < 2 ^ 32 → setval v f fpn_mask 0 ≡ v / 2 ^ 13 * 2 ^ 13 + f % 2 ^ 13
setval_fpn v f h =
    ap₂ bit_or
      (ap (λ (x : ℕ). bit_and x (2 ^ 32 - 1 - (2 ^ 13 - 1))) (omega arith)
        ∙ clear_field 19 13 0 (v / 2 ^ 13) (v % 2 ^ 13) 0 (omega arith) (omega arith) (omega arith))
      (ap (λ (x : ℕ). bit_and x (2 ^ 13 - 1)) (omega arith)
        ∙ keep_field 13 0 (f % 2 ^ 32)
        ∙ omega arith)
    ∙ fill_field 13 0 (v / 2 ^ 13) (f % 2 ^ 13) 0 (omega arith) (omega arith)
    ∙ omega arith

pub setval_swptyp :
    (v f : ℕ) → v < 2 ^ 32 → setval v f swptyp_mask 0 ≡ v / 2 ^ 5 * 2 ^ 5 + f % 2 ^ 5
setval_swptyp v f h =
    ap₂ bit_or
      (ap (λ (x : ℕ). bit_and x (2 ^ 32 - 1 - (2 ^ 5 - 1))) (omega arith)
        ∙ clear_field 27 5 0 (v / 2 ^ 5) (v % 2 ^ 5) 0 (omega arith) (omega arith) (omega arith))
      (ap (λ (x : ℕ). bit_and x (2 ^ 5 - 1)) (omega arith)
        ∙ keep_field 5 0 (f % 2 ^ 32)
        ∙ omega arith)
    ∙ fill_field 5 0 (v / 2 ^ 5) (f % 2 ^ 5) 0 (omega arith) (omega arith)
    ∙ omega arith

pub setval_swpoff :
    (v f : ℕ)
    → v < 2 ^ 32
    → setval v f swpoff_mask 5 ≡ v / 2 ^ 26 * 2 ^ 26 + f % 2 ^ 21 * 2 ^ 5 + v % 2 ^ 5
setval_swpoff v f h =
    ap₂ bit_or
      (ap (λ (x : ℕ). bit_and x (2 ^ 32 - 1 - swpoff_mask)) (omega arith)
        ∙ clear_field 6 21 5 (v / 2 ^ 26) (v / 2 ^ 5 % 2 ^ 21) (v % 2 ^ 5) (omega arith)
            (omega arith) (omega arith))
      (ap (λ (x : ℕ). bit_and x swpoff_mask) (omega arith)
        ∙ keep_field 21 5 (f % 2 ^ 27)
        ∙ omega arith)
    ∙ fill_field 21 5 (v / 2 ^ 26) (f % 2 ^ 21) (v % 2 ^ 5) (omega arith) (omega arith)
    ∙ omega arith

pub get_fpn : (v : ℕ) → getval v fpn_mask 0 ≡ v % 2 ^ 13
get_fpn v = omega (arith, and_ones 13 v)

pub get_swpoff : (v : ℕ) → getval v swpoff_mask 5 ≡ v / 2 ^ 5 % 2 ^ 21
get_swpoff v =
    ap (λ (x : ℕ). bit_and x swpoff_mask / 2 ^ 5) (omega arith)
    ∙ ap (λ (x : ℕ). x / 2 ^ 5) (read_field 21 5 (v / 2 ^ 5) (v % 2 ^ 5) (omega arith))
    ∙ omega arith

pub get_present : (v : ℕ) → bit_and v present_mask ≡ v / 2 ^ 31 % 2 * 2 ^ 31
get_present v =
    ap (λ (x : ℕ). bit_and x present_mask) (omega arith)
    ∙ read_field 1 31 (v / 2 ^ 31) (v % 2 ^ 31) (omega arith)
    ∙ omega arith

pub get_swapped : (v : ℕ) → bit_and v swapped_mask ≡ v / 2 ^ 30 % 2 * 2 ^ 30
get_swapped v =
    ap (λ (x : ℕ). bit_and x swapped_mask) (omega arith)
    ∙ read_field 1 30 (v / 2 ^ 30) (v % 2 ^ 30) (omega arith)
    ∙ omega arith
