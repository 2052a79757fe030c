-- ===== src/Vm/Print.antt =====
-- The printing functions of ossim_source_code/src/mm.c, by the lines that they print.
use co2018_assignment.Base.{
  ℕ, zero, suc, ◌+◌, ◌-◌, ◌*◌, ◌%◌, ◌^◌, Option, none, some, List, [], ◌∷◌, get_elem?, ◌==◌,
  if◌then◌else◌, ◌>>=◌, Status, done, failed, map,
}
use co2018_assignment.Base.Int.{pos}
use co2018_assignment.Pte.{paging_pgn}
use co2018_assignment.Vm.{Region, RgList, nil, node, dangling, Vma, Caller}
use co2018_assignment.Vm.Area.{get_vma_by_num}

listed : {A : Type 0} → List A → Status × List A
listed [] = (failed, [])
listed (x ∷ xs) = (done, x ∷ xs)

-- The frame numbers, the page numbers, and the start and end of each area.
unfoldable pub print_list_fp : List ℕ → Status × List ℕ
unfolding listed
print_list_fp ifp = listed ifp

unfoldable pub print_list_pgn : List ℕ → Status × List ℕ
unfolding listed
print_list_pgn ip = listed ip

unfoldable pub print_list_vma : List Vma → Status × List (ℕ × ℕ)
unfolding listed
print_list_vma ivma = listed (map (λ vma. (vma.vm_start, vma.vm_end)) ivma)

-- A dangling pointer is followed, which is a fault.
regions : RgList → Option (List Region)
regions nil = some []
regions dangling = none
regions (node rg rest) = do rgs ← regions rest; some (rg ∷ rgs)

unfoldable pub print_list_rg : RgList → Option (Status × List Region)
unfolding listed regions
print_list_rg irg = do rgs ← regions irg; some (listed rgs)

-- The loop of `print_pgtbl` from the page `pgit` on: the place and the entry.
print_entries : List ℕ → (pgit left : ℕ) → Option (List (ℕ × ℕ))
print_entries pgd pgit zero = some []
print_entries pgd pgit (suc left) = do
  pte ← get_elem? pgd pgit
  lines ← print_entries pgd (pgit + 1) left
  some ((pgit * 4, pte) ∷ lines)

-- The end -1 stands for that of area 0, for which `caller` is followed before it is tested.
print_end : Option Caller → ℕ → Option ℕ
print_end none end = if end == 2 ^ 32 - 1 then none else some end
print_end (some caller) end =
    if end == 2 ^ 32 - 1
    then (do cur_vma ← get_vma_by_num caller.mm (pos 0); some (cur_vma.vm_end % 2 ^ 32))
    else some end

print_table : Option Caller → (pgn_start pgn_end : ℕ) → Option (Status × List (ℕ × ℕ))
unfolding print_entries
print_table none pgn_start pgn_end = some (failed, [])
print_table (some caller) pgn_start pgn_end = do
  lines ← print_entries caller.mm.pgd pgn_start (pgn_end - pgn_start)
  some (done, lines)

unfoldable pub print_pgtbl : Option Caller → (start end : ℕ) → Option (Status × List (ℕ × ℕ))
unfolding print_end print_table
print_pgtbl caller start end = do
  end' ← print_end caller end
  print_table caller (paging_pgn start) (paging_pgn end')
