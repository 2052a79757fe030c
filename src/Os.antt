-- ===== src/Os.antt =====
-- The loop of `cpu_routine` in ossim_source_code/src/os.c. A round ends where the code waits for the
-- next time slot, or stops. What a process is, and how it runs, is an interface that the processes of
-- cpu.c fill: `shared_machine`, over the two devices that all processes share.
pub mod Rounds
pub mod Idle
pub mod Config
pub mod Loading
pub mod Boot
pub mod Conserve
pub mod Pid
pub mod Drained
pub mod Threads
pub mod Simulation
use co2018_assignment.Base.{
  ℕ, zero, suc, ◌≡◌, Bool, true, false, Option, none, some, length, ◌==◌, if◌then◌else◌, ◌>>=◌,
}
use co2018_assignment.Base.Int.{ℤ, pos, negsuc, eqb_ℤ}
use co2018_assignment.Queue.{Schedulable}
use co2018_assignment.Sched.{Sched, get_proc, put_proc}
use co2018_assignment.Memphy.{Memphy}
use co2018_assignment.Vm.{Caller}
use co2018_assignment.Cpu.{Pcb, Uninit, run}

-- `finished` is `proc->pc == proc->code->size`, and `execute` is `run`, whose result is not used. `W`
-- is what processes share beside the scheduler.
pub record Machine (P W : Type 0) : Type 0 where
  pub finished : P → Bool
  pub execute : P → W → Option (P × W)

-- The local variables `proc` and `time_left` of a CPU.
pub record Core (P : Type 0) : Type 0 where
  pub proc : Option P
  pub time_left : ℤ

-- How a round ends.
pub data Turn : Type 0 where
  next_slot : Turn
  stopped : Turn

abbrev pub decrement : ℤ → ℤ
decrement (pos zero) = negsuc 0
decrement (pos (suc n)) = pos n
decrement (negsuc n) = negsuc (suc n)

abbrev pub is_zero : ℤ → Bool
is_zero t = eqb_ℤ t (pos 0)

-- What the first part of a round leads to: the first `continue`, or the second part.
pub data Chosen (P : Type 0) : Type 0 where
  skips : Chosen P
  goes_on : Option P → ℤ → Chosen P

abbrev pub first_load : {P : Type 0} → ℤ → Option P → Chosen P
first_load t none = skips
first_load t (some p) = goes_on (some p) t

module _ {P W : Type 0} ⦃o : Schedulable P⦄ (m : Machine P W) where
  -- The first part: which process the CPU has for this round.
  unfoldable pub choose : Sched P → ℤ → Option P → Option (Chosen P × Sched P)
  choose s t none = do (p, s') ← get_proc s; some (first_load t p, s')
  choose s t (some p) =
      if m.finished p
      then (do (p', s') ← get_proc s; some (goes_on p' (pos 0), s'))
      else (if is_zero t
          then (do s₁ ← put_proc s p; (p', s') ← get_proc s₁; some (goes_on p' t, s'))
          else some (goes_on (some p) t, s))

  -- The second part. `is_done` is the global `done`.
  unfoldable pub proceed :
      ℤ → Bool → W → Core P → Chosen P × Sched P → Option (Turn × Core P × Sched P × W)
  proceed time_slot is_done w c (skips, s) = some (next_slot, record c { proc = none }, s, w)
  proceed time_slot is_done w c (goes_on none t, s) =
      some (if is_done then stopped else next_slot, record { proc = none; time_left = t }, s, w)
  proceed time_slot is_done w c (goes_on (some p) t, s) = do
    (p', w') ← m.execute p w
    some (
      next_slot,
      record { proc = some p'; time_left = decrement (if is_zero t then time_slot else t) },
      s,
      w',
    )

  unfoldable pub cpu_round : ℤ → Bool → Core P → Sched P → W → Option (Turn × Core P × Sched P × W)
  unfolding choose proceed
  cpu_round time_slot is_done c s w = do
    chosen ← choose s c.time_left c.proc
    proceed time_slot is_done w c chosen

  go_on :
      (Core P → Sched P → W → Option (Turn × Core P × Sched P × W))
      → Turn × Core P × Sched P × W
      → Option (Turn × Core P × Sched P × W)
  go_on again (stopped, c, s, w) = some (stopped, c, s, w)
  go_on again (next_slot, c, s, w) = again c s w

  -- Rounds of one CPU one after the other, until it stops.
  unfoldable pub cpu_rounds :
      ℕ → ℤ → Bool → Core P → Sched P → W → Option (Turn × Core P × Sched P × W)
  unfolding cpu_round go_on
  cpu_rounds zero time_slot is_done c s w = some (next_slot, c, s, w)
  cpu_rounds (suc n) time_slot is_done c s w = do
    ended ← cpu_round time_slot is_done c s w
    go_on (cpu_rounds n time_slot is_done) ended

-- The processes of cpu.c: the devices are the shared ones when an instruction runs.
unfoldable pub run_shared : Uninit → Pcb → Memphy × Memphy → Option (Pcb × (Memphy × Memphy))
unfolding run
run_shared u p (mram, mswp) = do
  let vm : Caller = p.vm
  (_, p') ← run u (record p { vm = record vm { mram = mram; active_mswp = mswp } })
  some (p', (p'.vm.mram, p'.vm.active_mswp))

abbrev pub shared_machine : Uninit → Machine Pcb (Memphy × Memphy)
shared_machine u = record { finished = λ p. p.pc == length p.text; execute = run_shared u }

instance abbrev pub pcb_Schedulable : Schedulable Pcb
pcb_Schedulable = record { priority = Pcb.priority; prio = Pcb.prio }
