-- ===== src/Tests/Whole.antt =====
-- One CPU, and a configuration of one process with two instructions, from the start of
-- ossim_source_code/src/os.c to its end.
use co2018_assignment.Base.{
  ℕ, zero, suc, ◌<◌, ◌≡◌, ◌≢◌, refl, sym, ap, true, none, some, false, [], ◌∷◌, replicate,
  get_elem?, store_at, arith,
}
use co2018_assignment.Base.Int.{pos}
use co2018_assignment.Scan.{
  codes, skip_space, read_digits, scan_one, scan_all, scan_line, read_word, word_of, scan_s,
}
use co2018_assignment.Queue.{dequeue, enqueue}
use co2018_assignment.Vm.{nil}
use co2018_assignment.Vm.Area.{init_mm}
use co2018_assignment.Cpu.{Pcb, Uninit, run}
use co2018_assignment.Loader.{load}
use co2018_assignment.Timer.{act, timer_step, start_timer, attach_event, stop_timer, free_devices}
use co2018_assignment.Sched.{init_scheduler, scan, get_proc, put_proc, add_proc}
use co2018_assignment.Sched.Init.{init_scheduler-Levels}
use co2018_assignment.Os.{cpu_round, run_shared, pcb_Schedulable}
use co2018_assignment.Os.Loading.{Fresh, LdArgs, admit, loaded_proc, ld_round}
use co2018_assignment.Os.Simulation.{
  Program, turns, loads_next, ticks, wakes, joins, joins_loader, stops, returns, Reach, starts,
  later,
}
use co2018_assignment.Os.Threads.{CpuThread}
use mathlib.Core.Option.{none-ne-some, some-injective}
use co2018_assignment.Os.Simulation.{returned}
use co2018_assignment.Os.Simulation.Ended.{Finished, Reach-Finished}
use co2018_assignment.Os.Simulation.Hangs.{Steps, here, more, IsOut, hangs}
use co2018_assignment.Os.Simulation.Returns.{Reach-Returns}
use co2018_assignment.Os.Simulation.Progress.{instructions}
use co2018_assignment.Os.Simulation.Complete.{Reach-complete}
use co2018_assignment.Os.Simulation.Once.{Reach-once}
use co2018_assignment.Tests.{process, locals, hole, ram, swap}
use co2018_assignment.Tests.Static.{static, static-IsStatic, IsIdle-replicate}
use co2018_assignment.Tests.Texts.{wild}

abbrev uninit : Uninit
uninit = record { locals = locals; region = hole 0 0; addr = pos 0; data_byte = 0; fpn = 0 }

abbrev fresh : Fresh
fresh = record {
  wild = wild;
  mallocs = record { vma0 = true; vma1 = true; pgd = true };
  list = nil;
  mm = process.mm;
}

abbrev args : LdArgs
args = record {
  file = λ _. some (codes "1 2\ncalc\ncalc\n");
  fresh = λ _. fresh;
  ld_processes = record { path = codes "p"; start_time = 0; prio = 0 } ∷ [];
  num_processes = pos 1;
  vmemsz = 0x300000;
  mram = ram;
  active_mswp = swap;
}

abbrev Reached : Program → Type 0
Reached = Reach uninit args (pos 1) 1 static (ram, swap)

-- The process is queued, and runs in slot 0.
first_run : (x : Program) × Reached x
unfolding ld_round loaded_proc admit load init_mm scan_all scan_one scan_line scan_s word_of
    read_word skip_space read_digits cpu_round get_proc put_proc add_proc scan dequeue enqueue
    store_at init_scheduler run_shared run act timer_step start_timer attach_event stop_timer
    free_devices
first_run = (_, later (later starts (loads_next refl refl refl)) (turns 0 refl refl refl refl))

-- The timer's thread goes through one turn of its loop.
first_slot : (x : Program) × Reached x
unfolding ld_round loaded_proc admit load init_mm scan_all scan_one scan_line scan_s word_of
    read_word skip_space read_digits cpu_round get_proc put_proc add_proc scan dequeue enqueue
    store_at init_scheduler run_shared run act timer_step start_timer attach_event stop_timer
    free_devices first_run
first_slot = (
  _,
  later
      (later
        (later
          (later
            (later (later (later (later first_run.1 (ticks refl)) (ticks refl)) (ticks refl))
              (ticks refl))
            (ticks refl))
          (ticks refl))
        (ticks refl))
      (ticks refl),
)

-- In slot 1 the CPU puts the process back, gets it again, and runs its second instruction; the loader
-- ends.
second_run : (x : Program) × Reached x
unfolding ld_round loaded_proc admit load init_mm scan_all scan_one scan_line scan_s word_of
    read_word skip_space read_digits cpu_round get_proc put_proc add_proc scan dequeue enqueue
    store_at init_scheduler run_shared run act timer_step start_timer attach_event stop_timer
    free_devices first_run first_slot
second_run = (
  _,
  later
      (later (later (later first_slot.1 (wakes 1 refl refl)) (turns 0 refl refl refl refl))
        (wakes 0 refl refl))
      (loads_next refl refl refl),
)

-- The next turn of the timer.
second_slot : (x : Program) × Reached x
unfolding ld_round loaded_proc admit load init_mm scan_all scan_one scan_line scan_s word_of
    read_word skip_space read_digits cpu_round get_proc put_proc add_proc scan dequeue enqueue
    store_at init_scheduler run_shared run act timer_step start_timer attach_event stop_timer
    free_devices first_run first_slot second_run
second_slot = (
  _,
  later
      (later
        (later
          (later
            (later (later (later (later second_run.1 (ticks refl)) (ticks refl)) (ticks refl))
              (ticks refl))
            (ticks refl))
          (ticks refl))
        (ticks refl))
      (ticks refl),
)

-- In slot 2 the process has finished, and the CPU stops.
last_round : (x : Program) × Reached x
unfolding ld_round loaded_proc admit load init_mm scan_all scan_one scan_line scan_s word_of
    read_word skip_space read_digits cpu_round get_proc put_proc add_proc scan dequeue enqueue
    store_at init_scheduler run_shared run act timer_step start_timer attach_event stop_timer
    free_devices first_run first_slot second_run second_slot
last_round = (_, later (later second_slot.1 (wakes 1 refl refl)) (turns 0 refl refl refl refl))

-- The timer's thread finds all devices gone.
timer_ends : (x : Program) × Reached x
unfolding ld_round loaded_proc admit load init_mm scan_all scan_one scan_line scan_s word_of
    read_word skip_space read_digits cpu_round get_proc put_proc add_proc scan dequeue enqueue
    store_at init_scheduler run_shared run act timer_step start_timer attach_event stop_timer
    free_devices first_run first_slot second_run second_slot last_round
timer_ends = (
  _,
  later
      (later
        (later
          (later
            (later (later (later (later last_round.1 (ticks refl)) (ticks refl)) (ticks refl))
              (ticks refl))
            (ticks refl))
          (ticks refl))
        (ticks refl))
      (ticks refl),
)

-- `main` joins them all.
main_returns : (x : Program) × Reached x
unfolding ld_round loaded_proc admit load init_mm scan_all scan_one scan_line scan_s word_of
    read_word skip_space read_digits cpu_round get_proc put_proc add_proc scan dequeue enqueue
    store_at init_scheduler run_shared run act timer_step start_timer attach_event stop_timer
    free_devices first_run first_slot second_run second_slot last_round timer_ends
main_returns = (
  _,
  later
      (later (later (later timer_ends.1 (joins 0 refl refl refl)) (joins_loader refl refl))
        (stops refl))
      (returns refl refl),
)

Reach-once_example : 0 < 1
unfolding first_run first_slot second_run
Reach-once_example =
    Reach-once uninit args (pos 1) 1 static (ram, swap) 0 1 static-IsStatic (omega arith)
      second_run.1 (omega arith) refl refl refl

Reach-Finished_example : Finished uninit args (pos 1) 1 static (ram, swap) main_returns.0
unfolding first_run first_slot second_run second_slot last_round timer_ends main_returns
Reach-Finished_example =
    Reach-Finished uninit args (pos 1) 1 static (ram, swap) static-IsStatic (omega arith)
      main_returns.1 refl

Reach-complete_example : instructions 1 2 main_returns.0.log ≡ 2
unfolding first_run first_slot second_run second_slot last_round timer_ends main_returns ld_round
    loaded_proc admit load scan_all scan_one scan_line scan_s word_of read_word skip_space
    read_digits
Reach-complete_example =
    Reach-complete uninit args (pos 1) 1 static (ram, swap) 0 static-IsStatic (omega arith)
      (omega arith) main_returns.1 refl refl (omega arith)

Reach-Returns_example :
    (y : Program) × Steps uninit args (pos 1) 1 last_round.0 y × (y.main ≡ returned)
unfolding first_run first_slot second_run second_slot last_round init_scheduler
Reach-Returns_example =
    Reach-Returns uninit args (pos 1) 1 static (ram, swap) static-IsStatic last_round.0 last_round.1
      stopped_cpu refl
  where
    stopped_cpu :
        (i : ℕ) (c : CpuThread Pcb)
        → get_elem? last_round.0.threads.cpus i ≡ some c
        → c.running ≡ false
    stopped_cpu zero c e = ap (λ c. c.running) (sym (some-injective _ _ e))
    stopped_cpu (suc i) c e = absurd (none-ne-some _ e)

-- A configuration without processes: the loader ends at once, and the CPU waits.
abbrev no_processes : LdArgs
no_processes = record args { ld_processes = []; num_processes = pos 0 }

waiting : (x : Program) × Reach uninit no_processes (pos 1) 1 static (ram, swap) x
unfolding ld_round cpu_round get_proc scan dequeue init_scheduler act start_timer attach_event
waiting = (_, later (later starts (loads_next refl refl refl)) (turns 0 refl refl refl refl))

waiting-IsOut : IsOut uninit no_processes (pos 1) 1 0 waiting.0
unfolding waiting init_scheduler
waiting-IsOut = record {
  lists = replicate 140 [];
  levels = init_scheduler-Levels static-IsStatic;
  idle = IsIdle-replicate 140;
  cpus = one_cpu;
  loaded = omega arith;
  cpu = _;
  at = refl;
  runs = refl;
}
  where
    one_cpu :
        (i : ℕ) {c : CpuThread Pcb}
        → get_elem? waiting.0.threads.cpus i ≡ some c
        → c.core.proc ≡ none
    one_cpu zero e = ap (λ c. c.core.proc) (sym (some-injective _ _ e))
    one_cpu (suc i) e = absurd (none-ne-some _ e)

after_waiting : (x : Program) × Steps uninit no_processes (pos 1) 1 waiting.0 x
unfolding waiting timer_step act start_timer attach_event
after_waiting = (_, more (more here (ticks refl)) (ticks refl))

hangs_example :
    (after_waiting.0.main ≢ returned)
    × ((c : CpuThread Pcb) × (get_elem? after_waiting.0.threads.cpus 0 ≡ some c)
        × (c.running ≡ true))
hangs_example =
    hangs uninit no_processes (pos 1) 1 static (ram, swap) 0 static-IsStatic waiting.1 waiting-IsOut
      after_waiting.1
