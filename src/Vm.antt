-- ===== src/Vm.antt =====
-- Virtual memory: the structures of ossim_source_code/include/os-mm.h. The operations on them, from
-- ossim_source_code/src/mm.c and ossim_source_code/src/mm-vm.c, are in the modules below.
--
-- `malloc` succeeds unless the code tests its result. Locks have no counterpart: a call is one step.
pub mod Area
pub mod Regions
pub mod Page
pub mod Map
pub mod Print
use co2018_assignment.Base.{ℕ, List}
use co2018_assignment.Base.Int.{ℤ}
use co2018_assignment.Memphy.{Memphy}

abbrev pub paging_max_symtbl_sz : ℕ
paging_max_symtbl_sz = 30

-- `struct vm_rg_struct` without its link
pub record Region : Type 0 where
  pub vmaid : ℤ
  pub rg_start : ℕ
  pub rg_end : ℕ

-- A list of regions by its pointers. `dangling` points to an object whose lifetime has ended: to
-- follow it is a fault.
pub data RgList : Type 0 where
  nil : RgList
  node : Region → RgList → RgList
  dangling : RgList

-- `struct vm_area_struct`; the areas of a process are the list from `mmap` on.
pub record Vma : Type 0 where
  pub vm_id : ℕ
  pub vm_start : ℕ
  pub vm_end : ℕ
  pub sbrk : ℕ
  pub vm_freerg_list : RgList

-- `struct mm_struct`; `fifo_pgn` is the list of page numbers, the newest first.
pub record Mm : Type 0 where
  pub pgd : List ℕ
  pub mmap : List Vma
  pub symrgtbl : List Region
  pub fifo_pgn : List ℕ

-- What virtual memory uses of `struct pcb_t`. The two devices are shared by all processes; here they
-- are what the process sees of them.
pub record Caller : Type 0 where
  pub mm : Mm
  pub vmemsz : ℕ
  pub mram : Memphy
  pub active_mswp : Memphy
