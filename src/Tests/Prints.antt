-- ===== src/Tests/Prints.antt =====
-- What ossim_source_code/src/mm.c and ossim_source_code/src/mm-memphy.c print of a small process.
use co2018_assignment.Base.{◌≡◌, ◌-◌, ◌^◌, refl, none, some, replicate, [], ◌∷◌, done, failed}
use co2018_assignment.Pte.{paging_pgn}
use co2018_assignment.Memphy.Dump.{dump}
use co2018_assignment.Vm.{node, dangling}
use co2018_assignment.Vm.Print.{
  print_list_fp, print_list_pgn, print_list_vma, print_list_rg, print_pgtbl,
}
use co2018_assignment.Cpu.Legacy.Dump
use co2018_assignment.Tests.{device, process, hole}

dumps :
    dump (some (record (device (0 ∷ 5 ∷ 0 ∷ 7 ∷ []) []) { maxsz = 4 }))
    ≡ some (done, (1, 5) ∷ (3, 7) ∷ [])
unfolding dump
dumps = refl

no_device : dump none ≡ some (failed, [])
unfolding dump
no_device = refl

no_frames : print_list_fp [] ≡ (failed, [])
unfolding print_list_fp
no_frames = refl

after_free : print_list_rg (node (hole 0 300) dangling) ≡ none
unfolding print_list_rg
after_free = refl

-- Page 0 up to the address 256.
one_page : print_pgtbl (some process) 0 256 ≡ some (done, (0, 2 ^ 31) ∷ [])
unfolding print_pgtbl paging_pgn
one_page = refl

-- The test for null comes too late.
null_caller : print_pgtbl none 0 (2 ^ 32 - 1) ≡ none
unfolding print_pgtbl
null_caller = refl

pages : print_list_pgn (3 ∷ 1 ∷ []) ≡ (done, 3 ∷ 1 ∷ [])
unfolding print_list_pgn
pages = refl

areas : print_list_vma process.mm.mmap ≡ (done, (0, 0) ∷ (0, 0) ∷ [])
unfolding print_list_vma
areas = refl

-- The pages that no process has are passed over.
no_pages :
    Dump.dump
      (record { ram = []; mem_stat = replicate 1024 (record { proc = 0; index = 0; next = 0 }) })
    ≡ some []
unfolding Dump.dump
no_pages = refl
