-- ===== src/Tests.antt =====
-- Concrete processes, queues, devices and address spaces, at which the theorems apply.
mod Static
mod Queues
mod Levels
mod Devices
mod Entries
mod Pages
mod Regions
mod Programs
mod Cores
mod Slots
mod Texts
mod Prints
mod Start
mod Whole
use co2018_assignment.Base.{ℕ, ◌^◌, Option, none, some, true, List, [], ◌∷◌, replicate}
use co2018_assignment.Base.Int.{pos}
use co2018_assignment.Queue.{Schedulable, Queue}
use co2018_assignment.Memphy.{Memphy}
use co2018_assignment.Vm.{Region, RgList, nil, node, Vma, Mm, Caller}
use co2018_assignment.Vm.Page.{Locals}

pub record Task : Type 0 where
  pub pid : ℕ
  pub task_priority : ℕ
  pub task_prio : ℕ

instance abbrev pub task_Schedulable : Schedulable Task
task_Schedulable = record { priority = Task.task_priority; prio = Task.task_prio }

abbrev pub low : Task
low = record { pid = 1; task_priority = 1; task_prio = 1 }

abbrev pub high : Task
high = record { pid = 2; task_priority = 9; task_prio = 1 }

abbrev pub two_queue : Queue Task
two_queue = record { proc = some low ∷ some high ∷ replicate 8 none; size = 2; slot = 0 }

abbrev pub device : List ℕ → List ℕ → Memphy
device storage free = record {
  storage = storage;
  maxsz = 512;
  rdmflg = true;
  cursor = 0;
  free_fp_list = free;
}

abbrev pub ram : Memphy
ram = device (replicate 512 7) []

abbrev pub swap : Memphy
swap = device (replicate 512 0) (1 ∷ 0 ∷ [])

abbrev pub area : ℕ → RgList → Vma
area id list = record { vm_id = id; vm_start = 0; vm_end = 0; sbrk = 0; vm_freerg_list = list }

abbrev pub hole : ℕ → ℕ → Region
hole a b = record { vmaid = pos 0; rg_start = a; rg_end = b }

-- Page 0 is in frame 0, and page 1 is not present; symbol 0 names a region of area 0.
abbrev pub process : Caller
process = record {
  mm = record {
    pgd = 2 ^ 31 ∷ 0 ∷ [];
    mmap = area 0 (node (hole 0 300) nil) ∷ area 1 nil ∷ [];
    symrgtbl = hole 300 400 ∷ [];
    fifo_pgn = 0 ∷ [];
  };
  vmemsz = 4096;
  mram = ram;
  active_mswp = swap;
}

abbrev pub locals : Locals
locals = record { vicpgn = 0; swpfpn = 0; bytes = λ _. 0 }
