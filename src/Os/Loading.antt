-- ===== src/Os/Loading.antt =====
-- `ld_routine` of ossim_source_code/src/os.c: the thread that brings the processes in. A round ends
-- where the code waits for the next time slot, or leaves its loop.
pub mod Start
pub mod Round
pub mod Numbers
use co2018_assignment.Base.{
  leb, ℕ, zero, suc, ◌+◌, ◌%◌, ◌^◌, Bool, true, false, Option, none, some, List, length, get_elem?,
  ltb, if◌then◌else◌,
}
use co2018_assignment.Base.Int.{ℤ, pos, pos_part}
use co2018_assignment.Scan.{Bytes}
use co2018_assignment.Memphy.{Memphy}
use co2018_assignment.Vm.{RgList, Mm, Caller}
use co2018_assignment.Vm.Area.{Mallocs, init_mm}
use co2018_assignment.Cpu.{Pcb}
use co2018_assignment.Loader.{Load, loads, exits, faults, ◌>>=◌, defined, Wild, load}
use co2018_assignment.Sched.{Sched, add_proc}
use co2018_assignment.Os.{Turn, next_slot, stopped, pcb_Schedulable}
use co2018_assignment.Os.Config.{LdProcess}

-- What the calls of `malloc` for one process give.
pub record Fresh : Type 0 where
  pub wild : Wild
  pub mallocs : Mallocs
  pub list : RgList
  pub mm : Mm

-- `struct mmpaging_ld_args` and the globals that the thread reads.
pub record LdArgs : Type 0 where
  pub file : Bytes → Option Bytes
  pub fresh : ℕ → Fresh
  pub ld_processes : List LdProcess
  pub num_processes : ℤ
  pub vmemsz : ℕ
  pub mram : Memphy
  pub active_mswp : Memphy

-- The local variables: `i`, and the process that is loaded and waits for its start time; with
-- `avail_pid` of loader.c.
pub record Ld : Type 0 where
  pub i : ℕ
  pub proc : Option Pcb
  pub avail_pid : ℕ

-- What a new process gets before it is queued; what `init_mm` returns is not looked at.
unfoldable pub admit : LdArgs → ℕ → Pcb → Pcb
admit a i p =
    let fresh = a.fresh i in
    record p {
      vm = record {
        mm = (init_mm fresh.mallocs fresh.list fresh.mm).1;
        vmemsz = a.vmemsz;
        mram = a.mram;
        active_mswp = a.active_mswp;
      };
    }

with_prio : ℕ → Pcb × ℕ → Pcb × ℕ
with_prio prio (p, avail_pid) = (record p { prio = prio % 2 ^ 32 }, avail_pid)

-- The process of this turn of the loop, with `avail_pid`.
unfoldable pub loaded_proc : LdArgs → Ld → LdProcess → Option Pcb → Load (Pcb × ℕ)
unfolding with_prio
loaded_proc a ld e none = do
  p ← load a.file (a.fresh ld.i).wild ld.avail_pid e.path
  loads (with_prio e.prio p)
loaded_proc a ld e (some p) = loads (p, ld.avail_pid)

-- Until its start time the process waits; then it is queued.
start_proc : LdArgs → ℕ → Ld → LdProcess → Sched Pcb → Pcb × ℕ → Load (Turn × Ld × Sched Pcb)
start_proc a time ld e s (p, avail_pid) =
    if ltb time e.start_time
    then loads (next_slot, record { i = ld.i; proc = some p; avail_pid = avail_pid }, s)
    else (do
      s' ← defined (add_proc s (admit a ld.i p))
      loads (next_slot, record { i = ld.i + 1; proc = none; avail_pid = avail_pid }, s'))

-- At its end the thread sets `done` and detaches from the timer.
unfoldable pub ld_round : LdArgs → ℕ → Ld → Sched Pcb → Load (Turn × Ld × Sched Pcb)
unfolding start_proc
ld_round a time ld s =
    if ltb ld.i (pos_part a.num_processes)
    then (do
      e ← defined (get_elem? a.ld_processes ld.i)
      p ← loaded_proc a ld e ld.proc
      start_proc a time ld e s p)
    else loads (stopped, ld, s)

ld_goes_on :
    (Ld → Sched Pcb → Load (Turn × Ld × Sched Pcb))
    → (Sched Pcb → Sched Pcb)
    → Turn × Ld × Sched Pcb
    → Load (Turn × Ld × Sched Pcb)
ld_goes_on again others (stopped, ld, s) = loads (stopped, ld, s)
ld_goes_on again others (next_slot, ld, s) = again ld (others s)

-- Rounds in the time slots from `time` on. `others` is what the CPUs do to the queues in a slot
-- after the loader's part of it.
unfoldable pub ld_rounds :
    (ℕ → Sched Pcb → Sched Pcb) → LdArgs → ℕ → ℕ → Ld → Sched Pcb → Load (Turn × Ld × Sched Pcb)
unfolding ld_round ld_goes_on
ld_rounds others a zero time ld s = loads (next_slot, ld, s)
ld_rounds others a (suc k) time ld s = do
  ended ← ld_round a time ld s
  ld_goes_on (ld_rounds others a k (time + 1)) (others time) ended
