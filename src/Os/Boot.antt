-- ===== src/Os/Boot.antt =====
-- `main` of ossim_source_code/src/os.c up to the creation of its threads.
pub mod Ready
use co2018_assignment.Base.{
  ℕ, zero, suc, ◌+◌, Option, none, some, List, [], ◌∷◌, ◌++◌, length, leb, if◌then◌else◌,
}
use co2018_assignment.Base.Int.{pos_part}
use co2018_assignment.Scan.{Bytes, codes}
use co2018_assignment.Memphy.{Memphy, init_memphy}
use co2018_assignment.Cpu.{Pcb}
use co2018_assignment.Timer.{System, attached, start_timer}
use co2018_assignment.Loader.{Load, loads, exits, faults, ◌>>=◌}
use co2018_assignment.Sched.{Sched, init_scheduler}
use co2018_assignment.Os.Config.{Config, read_config}

-- What the stack and `malloc` give for one device: the record, its bytes, and the nodes of its list.
pub record Blank : Type 0 where
  pub mp : Memphy
  pub storage : List ℕ
  pub links : List ℕ

unfoldable pub new_memphy : Blank → ℕ → Memphy
new_memphy b max_size = init_memphy b.storage b.links b.mp max_size 1

-- The loop over the swap devices, from device `sit` on.
unfoldable pub new_swaps : (ℕ → Blank) → ℕ → List ℕ → List Memphy
unfolding new_memphy
new_swaps blank sit [] = []
new_swaps blank sit (size ∷ sizes) = new_memphy (blank sit) size ∷ new_swaps blank (sit + 1) sizes

pub record Boot : Type 0 where
  pub config : Config
  pub timer : System
  pub mram : Memphy
  pub mswp : List Memphy
  pub sched : Sched Pcb

-- `strcat` behind "input/" in 100 bytes
config_path : Bytes → Load Bytes
config_path arg = if leb 94 (length arg) then faults else loads (codes "input/" ++ arg)

-- One device of the timer for each CPU, and one for the loader. `current` is the scheduler's static
-- storage.
unfoldable pub set_up : Blank → (ℕ → Blank) → Sched Pcb → Config → Boot
unfolding new_memphy new_swaps
set_up ram swaps current c = record {
  config = c;
  timer = start_timer (attached (suc (pos_part c.num_cpus)));
  mram = new_memphy ram c.memramsz;
  mswp = new_swaps swaps 0 c.memswpsz;
  sched = init_scheduler current;
}

-- `args` is `argv` without the name of the program; with another number of them `main` returns 1.
unfoldable pub boot :
    (Bytes → Option Bytes) → (ℕ → ℕ) → Blank → (ℕ → Blank) → Sched Pcb → List Bytes → Load Boot
unfolding config_path set_up
boot file wild ram swaps current (arg ∷ []) = do
  path ← config_path arg
  c ← read_config file wild path
  loads (set_up ram swaps current c)
boot file wild ram swaps current _ = exits
