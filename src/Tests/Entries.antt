-- ===== src/Tests/Entries.antt =====
-- Page table entries and addresses.
use co2018_assignment.Base.{
  ◌+◌, ◌*◌, ◌/◌, ◌%◌, ◌^◌, ◌<◌, ◌≡◌, ◌≢◌, refl, true, bit_and, arith, done,
}
use co2018_assignment.Pte.{
  swapped_mask, page_present, pte_fpn, pte_swp, paging_pgn, pte_set_swap, pte_set_fpn, init_pte,
}
use co2018_assignment.Pte.Fields.{pte_set_fpn-read, pte_set_swap-read}

pte_set_fpn-read_example :
    (page_present (pte_set_fpn 0 9) ≡ true)
    × (bit_and (pte_set_fpn 0 9) swapped_mask ≡ 0)
    × (pte_fpn (pte_set_fpn 0 9) ≡ 9 % 2 ^ 13)
    × (pte_set_fpn 0 9 / 2 ^ 13 % 2 ^ 17 ≡ 0 / 2 ^ 13 % 2 ^ 17)
    × (pte_set_fpn 0 9 < 2 ^ 32)
pte_set_fpn-read_example = pte_set_fpn-read 0 9 (omega arith)

pte_set_swap-read_example :
    (page_present (pte_set_swap 0 1 9) ≡ true)
    × (bit_and (pte_set_swap 0 1 9) swapped_mask ≢ 0)
    × (pte_swp (pte_set_swap 0 1 9) ≡ 9 % 2 ^ 21)
    × (pte_fpn (pte_set_swap 0 1 9) ≡ 9 % 2 ^ 8 * 2 ^ 5 + 1 % 2 ^ 5)
    × (pte_set_swap 0 1 9 < 2 ^ 32)
pte_set_swap-read_example = pte_set_swap-read 0 1 9 (omega arith)

-- An address of page 3, and the entry of a page in frame 9.
paging_pgn_test : paging_pgn 1000 ≡ 3
unfolding paging_pgn
paging_pgn_test = refl

init_pte_test : init_pte 0 1 9 0 0 0 0 ≡ (done, 2 ^ 31 + 9)
unfolding init_pte
init_pte_test = refl
