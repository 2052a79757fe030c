-- ===== src/Os/Loading/Numbers.antt =====
-- The pids in the loop of `ld_routine` of ossim_source_code/src/os.c.
use co2018_assignment.Base.{ℕ, ◌+◌, ◌%◌, ◌^◌, ◌≡◌, refl, subst, Option, none, some}
use co2018_assignment.Cpu.{Pcb}
use co2018_assignment.Loader.{Load, loads, exits, faults, ◌>>=◌, load}
use co2018_assignment.Loader.Pid.{load-pid}
use co2018_assignment.Os.Config.{LdProcess}
use co2018_assignment.Os.Loading.{LdArgs, Ld, loaded_proc, with_prio}

-- A new process has the number that was free; one that waits keeps its own.
abbrev pub IsNumbered : ℕ → Option Pcb → Pcb → ℕ → Type 0
IsNumbered avail_pid none p next =
    (p.pid ≡ avail_pid) × (next ≡ (avail_pid + 1) % 2 ^ 32) × (p.pc ≡ 0)
IsNumbered avail_pid (some waits) p next =
    (p.pid ≡ waits.pid) × (next ≡ avail_pid) × (p.pc ≡ waits.pc)

abbrev Numbers : ℕ → Option Pcb → Load (Pcb × ℕ) → Type 0
Numbers avail_pid proc (loads (p, next)) = IsNumbered avail_pid proc p next
Numbers avail_pid proc exits = Unit
Numbers avail_pid proc faults = Unit

module _ (a : LdArgs) (ld : Ld) (e : LdProcess) where
  loaded_proc-Numbers : (proc : Option Pcb) → Numbers ld.avail_pid proc (loaded_proc a ld e proc)
  unfolding loaded_proc with_prio
  loaded_proc-Numbers none = go (load a.file (a.fresh ld.i).wild ld.avail_pid e.path) refl
    where
      go :
          (r : Load (Pcb × ℕ))
          → load a.file (a.fresh ld.i).wild ld.avail_pid e.path ≡ r
          → Numbers ld.avail_pid none (r >>= λ p. loads (with_prio e.prio p))
      go (loads (p, next)) q = load-pid (a.fresh ld.i).wild ld.avail_pid a.file e.path q
      go exits q = tt
      go faults q = tt
  loaded_proc-Numbers (some p) = (refl, refl, refl)

  pub loaded_proc-IsNumbered :
      (proc : Option Pcb) {p : Pcb} {next : ℕ}
      → loaded_proc a ld e proc ≡ loads (p, next)
      → IsNumbered ld.avail_pid proc p next
  loaded_proc-IsNumbered proc q = subst (Numbers ld.avail_pid proc) q (loaded_proc-Numbers proc)
