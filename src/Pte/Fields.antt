-- ===== src/Pte/Fields.antt =====
-- What the setters of an entry leave in its fields.
use co2018_assignment.Base.{
  ℕ, zero, suc, ◌+◌, ◌*◌, ◌/◌, ◌%◌, ◌^◌, ◌<◌, ◌≡◌, ◌≢◌, refl, ap, ◌∙◌, bit_and, true, false, ◌==◌,
  arith, Status, done, failed,
}
use co2018_assignment.Base.Bits.{and_ones, read_field}
use co2018_assignment.Pte.{
  setbit, clrbit, setval, present_mask, swapped_mask, dirty_mask, fpn_mask, swptyp_mask,
  swpoff_mask, page_present, pte_fpn, pte_swp, paging_pgn, paging_offst, paging_max_pgn,
  pte_set_swap, pte_set_fpn, init_pte,
}
use co2018_assignment.Pte.Words.{
  set_present, set_swapped, clear_swapped, clear_dirty, setval_fpn, setval_swptyp, setval_swpoff,
  get_fpn, get_swpoff, get_present, get_swapped,
}

-- An entry by its fields: present and swapped bit, the 17 bits above the frame number, and the
-- frame number.
pub pte_set_fpn_lem :
    (pte fpn : ℕ)
    → pte < 2 ^ 32
    → pte_set_fpn pte fpn ≡ 2 ^ 31 + pte / 2 ^ 13 % 2 ^ 17 * 2 ^ 13 + fpn % 2 ^ 13
unfolding pte_set_fpn
pte_set_fpn_lem pte fpn h =
    ap (λ (x : ℕ). setval (clrbit x swapped_mask) fpn fpn_mask 0) (set_present pte h)
    ∙ ap (λ (x : ℕ). setval x fpn fpn_mask 0) (clear_swapped (2 ^ 31 + pte % 2 ^ 31) (omega arith))
    ∙ setval_fpn ((2 ^ 31 + pte % 2 ^ 31) / 2 ^ 31 * 2 ^ 31 + (2 ^ 31 + pte % 2 ^ 31) % 2 ^ 30) fpn
        (omega arith)
    ∙ omega arith

pub pte_set_swap_lem :
    (pte swptyp swpoff : ℕ)
    → pte < 2 ^ 32
    → pte_set_swap pte swptyp swpoff
      ≡ 2 ^ 31 + 2 ^ 30 + pte / 2 ^ 26 % 2 ^ 4 * 2 ^ 26 + swpoff % 2 ^ 21 * 2 ^ 5 + swptyp % 2 ^ 5
unfolding pte_set_swap
pte_set_swap_lem pte swptyp swpoff h =
    ap
      (λ (x : ℕ). setval (setval (setbit x swapped_mask) swptyp swptyp_mask 0) swpoff swpoff_mask 5)
      (set_present pte h)
    ∙ ap (λ (x : ℕ). setval (setval x swptyp swptyp_mask 0) swpoff swpoff_mask 5)
        (set_swapped (2 ^ 31 + pte % 2 ^ 31) (omega arith) ∙ both)
    ∙ ap (λ (x : ℕ). setval x swpoff swpoff_mask 5) (setval_swptyp word swptyp (omega arith))
    ∙ setval_swpoff (word / 2 ^ 5 * 2 ^ 5 + swptyp % 2 ^ 5) swpoff (omega arith)
    ∙ omega arith
  where
    word : ℕ
    word = 2 ^ 31 + 2 ^ 30 + pte % 2 ^ 30

    both :
        (2 ^ 31 + pte % 2 ^ 31) / 2 ^ 31 * 2 ^ 31 + 2 ^ 30 + (2 ^ 31 + pte % 2 ^ 31) % 2 ^ 30 ≡ word
    both = omega arith

present_of : (v : ℕ) → v / 2 ^ 31 % 2 ≡ 1 → page_present v ≡ true
unfolding page_present
present_of v h = ground (arith, get_present v)

-- On a 32-bit word `pte_set_fpn` makes the entry present and not swapped, stores the low 13 bits of the frame number,
-- and keeps the bits 13 to 29; the result is a word again.
pub pte_set_fpn-read :
    (pte fpn : ℕ)
    → pte < 2 ^ 32
    → let e = pte_set_fpn pte fpn in
      (page_present e ≡ true)
      × (bit_and e swapped_mask ≡ 0)
      × (pte_fpn e ≡ fpn % 2 ^ 13)
      × (e / 2 ^ 13 % 2 ^ 17 ≡ pte / 2 ^ 13 % 2 ^ 17)
      × (e < 2 ^ 32)
unfolding pte_fpn
pte_set_fpn-read pte fpn h =
    let e = pte_set_fpn pte fpn in
    let l = pte_set_fpn_lem pte fpn h in
    (
      present_of e (omega (arith, l)),
      omega (arith, l, get_swapped e),
      omega (arith, l, get_fpn e),
      omega (arith, l),
      omega (arith, l),
    )

-- Setting the present bit once more changes nothing.
pub setbit-pte_set_fpn :
    (pte fpn : ℕ) → pte < 2 ^ 32 → setbit (pte_set_fpn pte fpn) present_mask ≡ pte_set_fpn pte fpn
setbit-pte_set_fpn pte fpn h =
    let l = pte_set_fpn_lem pte fpn h in
    set_present (pte_set_fpn pte fpn) (omega (arith, l)) ∙ omega (arith, l)

-- On a 32-bit word `pte_set_swap` makes the entry present and swapped, and stores the low 21 bits of the swap offset
-- and the low 5 bits of the type. Read as a resident page, for which its present bit stands, it
-- names the frame that is made of the offset's low 8 bits and the type.
pub pte_set_swap-read :
    (pte swptyp swpoff : ℕ)
    → pte < 2 ^ 32
    → let e = pte_set_swap pte swptyp swpoff in
      (page_present e ≡ true)
      × (bit_and e swapped_mask ≢ 0)
      × (pte_swp e ≡ swpoff % 2 ^ 21)
      × (pte_fpn e ≡ swpoff % 2 ^ 8 * 2 ^ 5 + swptyp % 2 ^ 5)
      × (e < 2 ^ 32)
unfolding pte_fpn pte_swp
pte_set_swap-read pte swptyp swpoff h =
    let e = pte_set_swap pte swptyp swpoff in
    let l = pte_set_swap_lem pte swptyp swpoff h in
    (
      present_of e (omega (arith, l)),
      omega (arith, l, get_swapped e),
      omega (arith, l, get_swpoff e),
      omega (arith, l, get_fpn e),
      omega (arith, l),
    )

-- An address splits into a page number below PAGING_MAX_PGN and an offset inside the page, so an
-- access to the page directory at the page of an address is never out of range; the low 22 bits of
-- the address are put together again from the two.
pub paging_pgn-split :
    (addr : ℕ)
    → (paging_pgn addr < paging_max_pgn)
      × (paging_offst addr < 256)
      × (paging_pgn addr * 256 + paging_offst addr ≡ addr % 2 ^ 22)
unfolding paging_pgn paging_offst
paging_pgn-split addr = omega (arith, page, and_ones 8 addr)
  where
    page : bit_and addr 0x3fff00 ≡ addr / 2 ^ 8 % 2 ^ 14 * 2 ^ 8 + 0
    page =
        ap (λ (x : ℕ). bit_and x 0x3fff00) (omega arith)
        ∙ read_field 14 8 (addr / 2 ^ 8) (addr % 2 ^ 8) (omega arith)

-- What `init_pte` makes of an entry, by the arguments.
pub data Initialised (pte pre fpn swp swptyp swpoff : ℕ) : Status × ℕ → Type 0 where
  absent : pre ≡ 0 → Initialised pte pre fpn swp swptyp swpoff (done, pte)
  no_frame : 0 < pre → swp ≡ 0 → fpn ≡ 0 → Initialised pte pre fpn swp swptyp swpoff (failed, pte)
  in_memory :
      (e : ℕ)
      → 0 < pre
      → swp ≡ 0
      → 0 < fpn
      → e ≡ 2 ^ 31 + pte / 2 ^ 29 % 2 * 2 ^ 29 + pte / 2 ^ 13 % 2 ^ 15 * 2 ^ 13 + fpn % 2 ^ 13
      → Initialised pte pre fpn swp swptyp swpoff (done, e)
  in_swap :
      (e : ℕ)
      → 0 < pre
      → 0 < swp
      → e
        ≡ 2 ^ 31
          + 2 ^ 30
          + pte / 2 ^ 29 % 2 * 2 ^ 29
          + pte / 2 ^ 26 % 2 ^ 2 * 2 ^ 26
          + swpoff % 2 ^ 21 * 2 ^ 5
          + swptyp % 2 ^ 5
      → Initialised pte pre fpn swp swptyp swpoff (done, e)

in_memory_word :
    (pte fpn : ℕ)
    → pte < 2 ^ 32
    → setval (clrbit (clrbit (setbit pte present_mask) swapped_mask) dirty_mask) fpn fpn_mask 0
      ≡ 2 ^ 31 + pte / 2 ^ 29 % 2 * 2 ^ 29 + pte / 2 ^ 13 % 2 ^ 15 * 2 ^ 13 + fpn % 2 ^ 13
in_memory_word pte fpn h =
    ap (λ (x : ℕ). setval (clrbit (clrbit x swapped_mask) dirty_mask) fpn fpn_mask 0)
      (set_present pte h)
    ∙ ap (λ (x : ℕ). setval (clrbit x dirty_mask) fpn fpn_mask 0)
        (clear_swapped (2 ^ 31 + pte % 2 ^ 31) (omega arith) ∙ unswapped)
    ∙ ap (λ (x : ℕ). setval x fpn fpn_mask 0) (clear_dirty word (omega arith))
    ∙ setval_fpn (word / 2 ^ 29 * 2 ^ 29 + word % 2 ^ 28) fpn (omega arith)
    ∙ omega arith
  where
    word : ℕ
    word = 2 ^ 31 + pte % 2 ^ 30

    unswapped : (2 ^ 31 + pte % 2 ^ 31) / 2 ^ 31 * 2 ^ 31 + (2 ^ 31 + pte % 2 ^ 31) % 2 ^ 30 ≡ word
    unswapped = omega arith

in_swap_word :
    (pte swptyp swpoff : ℕ)
    → pte < 2 ^ 32
    → setval
        (setval
          (clrbit (setbit (setbit pte present_mask) swapped_mask) dirty_mask)
          swptyp
          swptyp_mask
          0)
        swpoff
        swpoff_mask
        5
      ≡ 2 ^ 31
        + 2 ^ 30
        + pte / 2 ^ 29 % 2 * 2 ^ 29
        + pte / 2 ^ 26 % 2 ^ 2 * 2 ^ 26
        + swpoff % 2 ^ 21 * 2 ^ 5
        + swptyp % 2 ^ 5
in_swap_word pte swptyp swpoff h =
    ap
      (λ (x : ℕ).
        setval (setval (clrbit (setbit x swapped_mask) dirty_mask) swptyp swptyp_mask 0) swpoff
          swpoff_mask 5)
      (set_present pte h)
    ∙ ap
        (λ (x : ℕ). setval (setval (clrbit x dirty_mask) swptyp swptyp_mask 0) swpoff swpoff_mask 5)
        (set_swapped (2 ^ 31 + pte % 2 ^ 31) (omega arith) ∙ both)
    ∙ ap (λ (x : ℕ). setval (setval x swptyp swptyp_mask 0) swpoff swpoff_mask 5)
        (clear_dirty word (omega arith) ∙ clean)
    ∙ ap (λ (x : ℕ). setval x swpoff swpoff_mask 5) (setval_swptyp bare swptyp (omega arith))
    ∙ setval_swpoff (bare / 2 ^ 5 * 2 ^ 5 + swptyp % 2 ^ 5) swpoff (omega arith)
    ∙ omega arith
  where
    word : ℕ
    word = 2 ^ 31 + 2 ^ 30 + pte % 2 ^ 30

    bare : ℕ
    bare = 2 ^ 31 + 2 ^ 30 + pte / 2 ^ 29 % 2 * 2 ^ 29 + pte % 2 ^ 28

    both :
        (2 ^ 31 + pte % 2 ^ 31) / 2 ^ 31 * 2 ^ 31 + 2 ^ 30 + (2 ^ 31 + pte % 2 ^ 31) % 2 ^ 30 ≡ word
    both = omega arith

    clean : word / 2 ^ 29 * 2 ^ 29 + word % 2 ^ 28 ≡ bare
    clean = omega arith

nonzero : (n : ℕ) → (suc n == 0) ≡ false
nonzero n = ground arith

-- On a 32-bit word, which of the four results `init_pte` has depends on `pre`, `swp` and `fpn` alone. It fails where a
-- page is to be present in frame 0; it leaves the entry of a page that is not to be present; else it
-- stores the frame number, or the swap type and offset, sets the present bit, clears the dirty bit,
-- sets the swapped bit as asked, and keeps the other bits.
pub init_pte_lem :
    (pte pre fpn drt swp swptyp swpoff : ℕ)
    → pte < 2 ^ 32
    → Initialised pte pre fpn swp swptyp swpoff (init_pte pte pre fpn drt swp swptyp swpoff)
unfolding init_pte
init_pte_lem pte zero fpn drt swp swptyp swpoff h = absent refl
init_pte_lem pte (suc pre) zero drt zero swptyp swpoff h =
    rw (nonzero pre) (no_frame (omega arith) refl refl)
init_pte_lem pte (suc pre) (suc fpn) drt zero swptyp swpoff h = rw (nonzero pre) (
    rw (nonzero fpn)
      (in_memory _ (omega arith) refl (omega arith) (in_memory_word pte (suc fpn) h)))
init_pte_lem pte (suc pre) fpn drt (suc swp) swptyp swpoff h =
    rw (nonzero pre)
      (rw (nonzero swp) (in_swap _ (omega arith) (omega arith) (in_swap_word pte swptyp swpoff h)))
