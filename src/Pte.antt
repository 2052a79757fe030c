-- ===== src/Pte.antt =====
-- Page table entries: the bit macros of ossim_source_code/include/bitops.h and
-- ossim_source_code/include/mm.h, and `init_pte`, `pte_set_swap` and `pte_set_fpn` of
-- ossim_source_code/src/mm.c. A `uint32_t` is a number below 2 ^ 32; an `int` argument is never
-- negative here.
mod Words
pub mod Fields
use co2018_assignment.Base.{
  ℕ, ◌+◌, ◌-◌, ◌*◌, ◌/◌, ◌%◌, ◌^◌, bit_and, bit_or, Bool, not, ◌==◌, if◌then◌else◌, Status, done,
  failed,
}

-- `~m` and `x << k`
abbrev pub not_word : ℕ → ℕ
not_word m = 2 ^ 32 - 1 - m

abbrev pub shl : ℕ → ℕ → ℕ
shl x k = x * 2 ^ k % 2 ^ 32

abbrev pub bit : ℕ → ℕ
bit nr = 2 ^ nr

abbrev pub genmask : ℕ → ℕ → ℕ
genmask h l = bit_and (shl (2 ^ 32 - 1) l) ((2 ^ 32 - 1) / 2 ^ (32 - h - 1))

abbrev pub div_round_up : ℕ → ℕ → ℕ
div_round_up n d = (n + d - 1) / d

-- The macros NBITS2 to NBITS32: the number of the highest bit.
abbrev nbits2 : ℕ → ℕ
nbits2 n = if bit_and n 2 == 0 then 0 else 1

abbrev nbits4 : ℕ → ℕ
nbits4 n = if bit_and n 0xC == 0 then nbits2 n else 2 + nbits2 (n / 2 ^ 2)

abbrev nbits8 : ℕ → ℕ
nbits8 n = if bit_and n 0xF0 == 0 then nbits4 n else 4 + nbits4 (n / 2 ^ 4)

abbrev nbits16 : ℕ → ℕ
nbits16 n = if bit_and n 0xFF00 == 0 then nbits8 n else 8 + nbits8 (n / 2 ^ 8)

abbrev nbits32 : ℕ → ℕ
nbits32 n = if bit_and n 0xFFFF0000 == 0 then nbits16 n else 16 + nbits16 (n / 2 ^ 16)

abbrev pub nbits : ℕ → ℕ
nbits n = if n == 0 then 0 else nbits32 n

abbrev pub setbit : ℕ → ℕ → ℕ
setbit v mask = bit_or v mask

abbrev pub clrbit : ℕ → ℕ → ℕ
clrbit v mask = bit_and v (not_word mask)

abbrev pub setval : (v value mask offst : ℕ) → ℕ
setval v value mask offst = bit_or (bit_and v (not_word mask)) (bit_and (shl value offst) mask)

abbrev pub getval : (v mask offst : ℕ) → ℕ
getval v mask offst = bit_and v mask / 2 ^ offst

abbrev pub paging_cpu_bus_width : ℕ
paging_cpu_bus_width = 22

abbrev pub paging_pagesz : ℕ
paging_pagesz = 256

abbrev pub paging_max_pgn : ℕ
paging_max_pgn = div_round_up (bit paging_cpu_bus_width) paging_pagesz

abbrev pub present_mask : ℕ
present_mask = bit 31

abbrev pub swapped_mask : ℕ
swapped_mask = bit 30

abbrev pub dirty_mask : ℕ
dirty_mask = bit 28

abbrev pub fpn_mask : ℕ
fpn_mask = genmask 12 0

abbrev pub swptyp_mask : ℕ
swptyp_mask = genmask 4 0

abbrev pub swpoff_mask : ℕ
swpoff_mask = genmask 25 5

-- PAGING_PTE_PAGE_PRESENT, as a test
unfoldable pub page_present : ℕ → Bool
page_present pte = not (bit_and pte present_mask == 0)

-- PAGING_PTE_FPN and PAGING_PTE_SWP
unfoldable pub pte_fpn : ℕ → ℕ
pte_fpn pte = getval pte fpn_mask 0

unfoldable pub pte_swp : ℕ → ℕ
pte_swp pte = getval pte swpoff_mask 5

-- PAGING_PGN and PAGING_OFFST, of an address
unfoldable pub paging_pgn : ℕ → ℕ
paging_pgn addr =
    getval addr (genmask (paging_cpu_bus_width - 1) (nbits paging_pagesz)) (nbits paging_pagesz)

unfoldable pub paging_offst : ℕ → ℕ
paging_offst addr = getval addr (genmask (nbits paging_pagesz - 1) 0) 0

unfoldable pub pte_set_swap : (pte swptyp swpoff : ℕ) → ℕ
pte_set_swap pte swptyp swpoff =
    let set = setbit (setbit pte present_mask) swapped_mask in
    setval (setval set swptyp swptyp_mask 0) swpoff swpoff_mask 5

unfoldable pub pte_set_fpn : (pte fpn : ℕ) → ℕ
pte_set_fpn pte fpn = setval (clrbit (setbit pte present_mask) swapped_mask) fpn fpn_mask 0

-- The result, and the entry.
unfoldable pub init_pte : (pte pre fpn drt swp swptyp swpoff : ℕ) → Status × ℕ
init_pte pte pre fpn drt swp swptyp swpoff =
    if not (pre == 0)
    then (if swp == 0
        then (if fpn == 0 then (failed, pte) else (
          done,
          setval (clrbit (clrbit (setbit pte present_mask) swapped_mask) dirty_mask) fpn fpn_mask 0,
        ))
        else (
          done,
          setval
              (setval (clrbit (setbit (setbit pte present_mask) swapped_mask) dirty_mask) swptyp
                swptyp_mask 0)
              swpoff swpoff_mask 5,
        ))
    else (done, pte)
