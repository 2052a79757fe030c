-- ===== src/Tests/Pages.antt =====
-- A process of two pages, the second of which is not present.
use co2018_assignment.Base.{
  true, replicate, ℕ, zero, suc, ◌<◌, subst, ◌%◌, ◌^◌, ◌≡◌, ◌≢◌, refl, false, some, List, [], ◌∷◌,
  ◌==◌, if◌then◌else◌, arith, done,
}
use co2018_assignment.Memphy.{Memphy}
use co2018_assignment.Memphy.Copy.{Copied}
use co2018_assignment.Pte.{paging_max_pgn, page_present, pte_fpn, paging_pgn, paging_offst}
use co2018_assignment.Vm.{Mm, Caller}
use co2018_assignment.Vm.Page.{
  find_victim_page, pg_getpage, region_of, read_symbol, write_symbol, free_pcb_memph,
}
use co2018_assignment.Base.Int.{pos}
use co2018_assignment.Vm.{nil, node}
use mathlib.Core.Option.{some-injective, none-ne-some}
use co2018_assignment.Vm.Map.{alloc_pages_range}
use co2018_assignment.Vm.Map.Range.{AreWords, Allocation, alloc_pages_range_lem}
use co2018_assignment.Vm.Page.Release.{zeros_back, free_pcb_memph_fresh}
use co2018_assignment.Memphy.Frames.{IsPool}
use co2018_assignment.Vm.Page.Victim.{enlist_all, victim_is_first_in}
use co2018_assignment.Vm.Page.Symbols.{IsReached, cell, read_symbol-write_symbol}
use co2018_assignment.Vm.Page.Fault.{remapped, after_fault, page_fault}
use co2018_assignment.Tests.{ram, swap, process, locals, area, hole}

abbrev three_pages : Mm
three_pages = let mm : Mm = process.mm in record mm { fifo_pgn = enlist_all (4 ∷ 5 ∷ 6 ∷ []) [] }

victim_is_first_in_example :
    (rest : List ℕ) × (find_victim_page three_pages 0
      ≡ (done, 4, record three_pages { fifo_pgn = rest }))
victim_is_first_in_example = victim_is_first_in three_pages 0 4 (5 ∷ 6 ∷ []) refl

-- Symbol 0 names a region in the page that is present.
abbrev small_region : Caller
small_region =
    let mm : Mm = process.mm in record process { mm = record mm { symrgtbl = hole 0 100 ∷ [] } }

reached_3 : IsReached small_region (pos 0) 3
unfolding region_of paging_pgn paging_offst pte_fpn page_present
reached_3 = record {
  region = hole 0 100;
  area = area 0 (node (hole 0 300) nil);
  found = refl;
  resident = record { pte = 2 ^ 31; entry = refl; present = refl; inside = omega arith };
}

reached_5 : IsReached small_region (pos 0) 5
unfolding region_of paging_pgn paging_offst pte_fpn page_present
reached_5 = record {
  region = hole 0 100;
  area = area 0 (node (hole 0 300) nil);
  found = refl;
  resident = record { pte = 2 ^ 31; entry = refl; present = refl; inside = omega arith };
}

read_symbol-write_symbol_example :
    (caller' : Caller) × (write_symbol locals small_region (pos 0) 3 9 0 ≡ some (done, caller'))
    × (w : ℕ) × (read_symbol locals small_region (pos 0) 5 0 0 ≡ some (done, w, small_region))
    × (read_symbol locals caller' (pos 0) 5 0 0
        ≡ some (done, if cell reached_3 == cell reached_5 then 9 else w, caller'))
read_symbol-write_symbol_example =
    read_symbol-write_symbol locals small_region (pos 0) (pos 0) 3 5 9 0 0 refl reached_3 reached_5

absent_1 : page_present 0 ≡ false
unfolding page_present
absent_1 = refl

zero_ne_one : ◌≢◌ {A = ℕ} 0 1
zero_ne_one = omega arith

page_fault_example :
    (mswp : Memphy) × (pg_getpage locals process 1 0
      ≡ some (
        done,
        0 % 2 ^ 13,
        after_fault process (remapped process.mm.pgd 0 1 1 (2 ^ 31) 0) [] 1 mswp,
      ))
    × Copied ram 0 1 0 256 (record swap { free_fp_list = 0 ∷ [] }) mswp
page_fault_example =
    page_fault locals process 1 0 0 refl absent_1 [] 0 refl 1 (0 ∷ []) refl (2 ^ 31) refl
      zero_ne_one (omega arith) refl refl (omega arith) (omega arith)

abbrev no_swap : Caller
no_swap = record process { active_mswp = record swap { free_fp_list = [] } }

abbrev unmapped : Caller
unmapped =
    let mm : Mm = process.mm in
    record process { mm = record mm { pgd = replicate paging_max_pgn 0 } }

free_pcb_memph_fresh_example :
    (free_pcb_memph unmapped ≡ record unmapped { mram = zeros_back paging_max_pgn ram })
    × (IsPool (free_pcb_memph unmapped).mram → ⊥)
free_pcb_memph_fresh_example = free_pcb_memph_fresh unmapped refl

abbrev with_frames : Caller
with_frames = record process { mram = record ram { free_fp_list = 3 ∷ 4 ∷ [] } }

process-AreWords : AreWords process.mm.pgd
process-AreWords zero e at = subst (λ (x : ℕ). x < 2 ^ 32) (some-injective _ _ at) (omega arith)
process-AreWords (suc zero) e at =
    subst (λ (x : ℕ). x < 2 ^ 32) (some-injective _ _ at) (omega arith)
process-AreWords (suc (suc i)) e at = absurd (none-ne-some _ at)

alloc_pages_range_lem_example :
    Allocation (λ _. true) with_frames 0 2 [] (alloc_pages_range (λ _. true) with_frames 2 0 [])
alloc_pages_range_lem_example =
    alloc_pages_range_lem (λ _. true) with_frames 2 0 [] process-AreWords (omega arith)
