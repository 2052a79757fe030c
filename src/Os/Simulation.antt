-- ===== src/Os/Simulation.antt =====
-- The threads of `main` in ossim_source_code/src/os.c, from `start_timer` to its return: the CPUs and
-- the loader with their devices, the timer's thread, and `main` itself. The device of the loader was
-- attached last, so it is the first of the list; that of CPU `i` of `n` is the one at `n - i`.
pub mod Brings
pub mod Parts
pub mod Endings
pub mod Ended
pub mod Pids
pub mod After
pub mod Slots
pub mod Hangs
pub mod Gone
pub mod Returns
pub mod Runs
pub mod Turns
pub mod Once
pub mod Stand
pub mod Advance
pub mod Brought
pub mod Progress
pub mod Admitted
pub mod Ongoing
pub mod Complete
use co2018_assignment.Base.{
  ℕ, zero, suc, ◌+◌, ◌-◌, ◌≡◌, Bool, true, false, ◌||◌, Option, none, some, List, [], ◌∷◌, ◌++◌,
  get_elem?, set, ◌==◌, if◌then◌else◌,
}
use co2018_assignment.Base.Int.{ℤ}
use co2018_assignment.Memphy.{Memphy}
use co2018_assignment.Cpu.{Pcb, Uninit}
use co2018_assignment.Loader.{Load, loads, exits, faults}
use co2018_assignment.Sched.{Sched, init_scheduler}
use co2018_assignment.Timer.{
  Device, act, Call, reports, resumes, detaches, ended, System, timer_step, current_time,
  stop_timer, free_devices, start_timer, attached,
}
use co2018_assignment.Os.{Core, Turn, next_slot, stopped, cpu_round, shared_machine}
use co2018_assignment.Os.{pcb_Schedulable}
use co2018_assignment.Os.Config.{LdProcess}
use co2018_assignment.Os.Loading.{LdArgs, Ld, admit, loaded_proc, ld_round}
use co2018_assignment.Os.Threads.{CpuThread, Threads, goes_on_running, starting}

-- Where `main` stands: in the `pthread_join` of CPU `i`, or of the loader behind the last CPU, before
-- `stop_timer`, in the `pthread_join` of `stop_timer`, or at its end.
pub data MainPc : Type 0 where
  joining : (i : ℕ) → MainPc
  stopping : MainPc
  joining_timer : MainPc
  returned : MainPc

-- `log` lists, newest first, the instructions that the CPUs have run: the process after it, and how
-- many calls of `next_slot` of that CPU had returned. No code reads it.
pub record Program : Type 0 where
  pub timer : System
  pub threads : Threads Pcb (Memphy × Memphy)
  pub ld : Ld
  pub main : MainPc
  pub log : List (ℕ × Pcb)

-- How a round ends for the device of the thread.
abbrev pub last_call : Turn → Call
last_call next_slot = reports
last_call stopped = detaches

abbrev pub is_stopped : Turn → Bool
is_stopped next_slot = false
is_stopped stopped = true

-- A round that ends with a process on the CPU has run an instruction of it.
abbrev pub ran : ℕ → Option Pcb → List (ℕ × Pcb)
ran slot none = []
ran slot (some p) = (slot, p) ∷ []

abbrev pub admitted : LdArgs → ℕ → Load (Pcb × ℕ) → List Pcb
admitted a i (loads (p, _)) = admit a i p ∷ []
admitted a i exits = []
admitted a i faults = []

-- The process that a round of the loader has queued, for the list `loaded` of `Threads`.
abbrev pub queued : LdArgs → Ld → Ld → Option LdProcess → List Pcb
queued a ld ld' none = []
queued a ld ld' (some e) =
    if ld'.i == ld.i then [] else admitted a ld.i (loaded_proc a ld e ld.proc)

module _ (u : Uninit) (a : LdArgs) (time_slot : ℤ) (n : ℕ) where
  pub data Step (x : Program) : Program → Type 0 where
    -- a round of a CPU
    turns :
        (i : ℕ) {c : Core Pcb} {turn : Turn} {c' : Core Pcb} {s : Sched Pcb} {w : Memphy × Memphy}
        {d d' : Device}
        → get_elem? x.threads.cpus i ≡ some (record { core = c; running = true })
        → cpu_round (shared_machine u) time_slot x.threads.is_done c x.threads.sched x.threads.world
          ≡ some (turn, c', s, w)
        → get_elem? x.timer.devices (n - i) ≡ some d
        → act (last_call turn) d ≡ some d'
        → Step x (record x {
          timer = record x.timer { devices = set x.timer.devices (n - i) d' };
          threads = record x.threads {
            cpus = set x.threads.cpus i (record { core = c'; running = goes_on_running turn });
            sched = s;
            world = w;
          };
          log = ran d.slots c'.proc ++ x.log;
        })
    -- a round of the loader
    loads_next :
        {turn : Turn} {ld' : Ld} {s : Sched Pcb} {d d' : Device}
        → ld_round a (current_time x.timer) x.ld x.threads.sched ≡ loads (turn, ld', s)
        → get_elem? x.timer.devices 0 ≡ some d
        → act (last_call turn) d ≡ some d'
        → Step x (record x {
          timer = record x.timer { devices = set x.timer.devices 0 d' };
          threads = record x.threads {
            sched = s;
            is_done = is_stopped turn || x.threads.is_done;
            loaded = queued a x.ld ld' (get_elem? a.ld_processes x.ld.i) ++ x.threads.loaded;
          };
          ld = ld';
        })
    -- a step of the timer's thread
    ticks : {t : System} → timer_step x.timer ≡ some t → Step x (record x { timer = t })
    -- the return of `next_slot` in a CPU or the loader
    wakes :
        (j : ℕ) {d d' : Device}
        → get_elem? x.timer.devices j ≡ some d
        → act resumes d ≡ some d'
        → Step x (record x { timer = record x.timer { devices = set x.timer.devices j d' } })
    -- `main`
    joins :
        (i : ℕ) {c : CpuThread Pcb}
        → x.main ≡ joining i
        → get_elem? x.threads.cpus i ≡ some c
        → c.running ≡ false
        → Step x (record x { main = joining (i + 1) })
    joins_loader :
        x.main ≡ joining n → x.threads.is_done ≡ true → Step x (record x { main = stopping })
    stops :
        x.main ≡ stopping → Step x (record x { timer = stop_timer x.timer; main = joining_timer })
    returns :
        x.main ≡ joining_timer
        → x.timer.timer ≡ ended
        → Step x (record x { timer = free_devices x.timer; main = returned })

  -- When `main` has created the threads: `avail_pid` of loader.c is 1.
  abbrev pub started : Sched Pcb → Memphy × Memphy → Program
  started current w = record {
    timer = start_timer (attached (suc n));
    threads = starting (shared_machine u) time_slot n (init_scheduler current) w;
    ld = record { i = 0; proc = none; avail_pid = 1 };
    main = joining 0;
    log = [];
  }

  pub data Reach (current : Sched Pcb) (w : Memphy × Memphy) : Program → Type 0 where
    starts : Reach current w (started current w)
    later : {x y : Program} → Reach current w x → Step x y → Reach current w y
