-- ===== src/Os/Threads.antt =====
-- The CPUs and the loader of ossim_source_code/src/os.c over one scheduler, their rounds in any order.
pub mod Put
pub mod Places
pub mod Unique
use co2018_assignment.Base.{
  ℕ, ◌≡◌, Bool, true, false, Option, none, some, List, [], ◌∷◌, get_elem?, set, replicate,
}
use co2018_assignment.Base.Int.{ℤ, pos}
use co2018_assignment.Queue.{Schedulable}
use co2018_assignment.Sched.{Sched, add_proc}
use co2018_assignment.Os.{Machine, Core, Turn, next_slot, stopped, cpu_round}

-- A thread of `cpu_routine`, which leaves its loop once it stops.
pub record CpuThread (P : Type 0) : Type 0 where
  pub core : Core P
  pub running : Bool

-- What the threads share, and the CPUs. `loaded` lists the processes that the loader has queued; no
-- code reads it.
pub record Threads (P W : Type 0) : Type 0 where
  pub cpus : List (CpuThread P)
  pub sched : Sched P
  pub world : W
  pub is_done : Bool
  pub loaded : List P

abbrev pub goes_on_running : Turn → Bool
goes_on_running next_slot = true
goes_on_running stopped = false

module _ {P W : Type 0} ⦃o : Schedulable P⦄ (m : Machine P W) (time_slot : ℤ) where
  pub data Step (t : Threads P W) : Threads P W → Type 0 where
    -- a round of a CPU
    turns :
        (i : ℕ) {c : Core P} {turn : Turn} {c' : Core P} {s : Sched P} {w : W}
        → get_elem? t.cpus i ≡ some (record { core = c; running = true })
        → cpu_round m time_slot t.is_done c t.sched t.world ≡ some (turn, c', s, w)
        → Step t (record t {
          cpus = set t.cpus i (record { core = c'; running = goes_on_running turn });
          sched = s;
          world = w;
        })
    -- `add_proc` in `ld_routine`
    queues :
        (p : P) {s : Sched P}
        → add_proc t.sched p ≡ some s
        → Step t (record t { sched = s; loaded = p ∷ t.loaded })
    -- the end of `ld_routine`
    finishes : Step t (record t { is_done = true })

  -- Before the first round of any thread.
  abbrev pub starting : ℕ → Sched P → W → Threads P W
  starting n s w = record {
    cpus =
        replicate n (record { core = record { proc = none; time_left = pos 0 }; running = true });
    sched = s;
    world = w;
    is_done = false;
    loaded = [];
  }

  pub data Reach (n : ℕ) (s : Sched P) (w : W) : Threads P W → Type 0 where
    starts : Reach n s w (starting n s w)
    later : {t t' : Threads P W} → Reach n s w t → Step t t' → Reach n s w t'
