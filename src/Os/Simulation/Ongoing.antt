-- ===== src/Os/Simulation/Ongoing.antt =====
-- How far one process has come in each state that ossim_source_code/src/os.c reaches.
use co2018_assignment.Base.{
  ℕ, ◌+◌, ◌≤◌, ◌<◌, ◌≡◌, refl, subst, Bool, true, Option, none, some, List, [], ◌++◌, get_elem?,
  arith, replicate,
}
use co2018_assignment.Base.Int.{ℤ, pos, pos_part}
use co2018_assignment.Queue.{max_queue_size}
use co2018_assignment.Memphy.{Memphy}
use co2018_assignment.Cpu.{Pcb, Uninit}
use co2018_assignment.Sched.{Sched, max_prio}
use co2018_assignment.Sched.Init.{IsStatic, init_scheduler-Levels}
use co2018_assignment.Os.{shared_machine, pcb_Schedulable}
use co2018_assignment.Os.Drained.{any}
use co2018_assignment.Os.Conserve.{held, count, count-append}
use co2018_assignment.Os.Conserve.Together.{Turned, cpu_round-Turned}
use co2018_assignment.Os.Loading.{LdArgs}
use co2018_assignment.Os.Loading.Round.{ld_round-Round}
use co2018_assignment.Os.Threads.{CpuThread}
use co2018_assignment.Os.Threads.Unique.{on_cpus-replicate, total-replicate}
use co2018_assignment.Os.Simulation.{
  Program, Step, turns, loads_next, ticks, wakes, joins, joins_loader, stops, returns, Reach,
  starts, later, queued, ran,
}
use co2018_assignment.Os.Simulation.Pids.{has_pid}
use co2018_assignment.Os.Simulation.Stand.{astray, Stand}
use co2018_assignment.Os.Simulation.Admitted.{crowd, once, Next, loader_round}
use co2018_assignment.Os.Simulation.Advance.{Stand-turn}
use co2018_assignment.Os.Simulation.Progress.{room_for, sized_otherwise, instructions, Progress}

module _ (u : Uninit) (a : LdArgs) (time_slot : ℤ) (n : ℕ) (current : Sched Pcb)
    (w : Memphy × Memphy) (static : IsStatic current)
    (few : pos_part a.num_processes ≤ max_queue_size) (q size : ℕ) (some_code : 0 < size) where
  abbrev keep : Pcb → Bool
  keep = has_pid q

  abbrev Reached : Program → Type 0
  Reached = Reach u a time_slot n current w

  counted :
      (slot : ℕ) (o : Option Pcb) (log : List (ℕ × Pcb))
      → held keep o + instructions q size log ≡ instructions q size (ran slot o ++ log)
  counted slot none log = omega arith
  counted slot (some p) log = omega arith

  Progress-Step :
      {x y : Program}
      → Reached x
      → Progress q size x
      → (step : Step u a time_slot n x y) → count (sized_otherwise q size) y.threads.loaded ≡ 0
      → Progress q size y
  Progress-Step {x} {y} r h (turns i {c} {turn} {c'} {s} {d = d} at e dev acted) right =
      let full = crowd u a time_slot n current w static few q size some_code x r h.levels in
      let t : Turned (shared_machine u) c x.threads.world c' s h.lists =
        cpu_round-Turned (shared_machine u) time_slot x.threads.is_done c x.threads.sched
          x.threads.world h.lists h.levels
          (room_for u time_slot x.threads.is_done c x.threads.sched x.threads.world h.lists
            x.threads.cpus i (count any x.threads.loaded) h.levels at full.0 full.1 e)
          e in
      record {
        lists = t.lists;
        levels = t.levels;
        stand =
            subst (Stand q size t.lists y.threads.cpus (count keep x.threads.loaded))
              (counted d.slots c'.proc x.log)
              (Stand-turn q size u h.lists x.threads.cpus (count keep x.threads.loaded)
                (instructions q size x.log) h.stand
                (once u a time_slot n current w static few q size some_code x r) i c'
                x.threads.world true _ at t);
      }
  Progress-Step {x} {y} r h (loads_next e dev acted) right =
      let next : Next u a time_slot n current w static few q size some_code x y.threads.sched
          y.threads.loaded =
        loader_round u a time_slot n current w static few q size some_code x r h
          (ld_round-Round a x.ld _ x.threads.sched e) y.threads.loaded refl right
          (once u a time_slot n current w static few q size some_code y
            (later r (loads_next e dev acted))) in
      record { lists = next.lists; levels = next.levels; stand = next.stand }
  Progress-Step r h (ticks e) right = record { lists = h.lists; levels = h.levels; stand = h.stand }
  Progress-Step r h (wakes j dev acted) right = record {
    lists = h.lists;
    levels = h.levels;
    stand = h.stand;
  }
  Progress-Step r h (joins i m at off) right = record {
    lists = h.lists;
    levels = h.levels;
    stand = h.stand;
  }
  Progress-Step r h (joins_loader m d) right = record {
    lists = h.lists;
    levels = h.levels;
    stand = h.stand;
  }
  Progress-Step r h (stops m) right = record { lists = h.lists; levels = h.levels; stand = h.stand }
  Progress-Step r h (returns m e) right = record {
    lists = h.lists;
    levels = h.levels;
    stand = h.stand;
  }

  -- A process that was loaded before a step is loaded after it.
  loaded_before :
      {x y : Program}
      → Step u a time_slot n x y
      → count (sized_otherwise q size) y.threads.loaded ≡ 0
      → count (sized_otherwise q size) x.threads.loaded ≡ 0
  loaded_before {x} (loads_next {ld' = ld'} e dev acted) right = omega (
    arith,
    right,
    count-append (sized_otherwise q size) (queued a x.ld ld' (get_elem? a.ld_processes x.ld.i))
        x.threads.loaded,
  )
  loaded_before (turns i at e dev acted) right = right
  loaded_before (ticks e) right = right
  loaded_before (wakes j dev acted) right = right
  loaded_before (joins i m at off) right = right
  loaded_before (joins_loader m d) right = right
  loaded_before (stops m) right = right
  loaded_before (returns m e) right = right

  pub Reach-Progress :
      {x : Program}
      → Reached x
      → count (sized_otherwise q size) x.threads.loaded ≡ 0
      → Progress q size x
  Reach-Progress starts right = record {
    lists = replicate max_prio [];
    levels = init_scheduler-Levels static;
    stand = record {
      gone = 0;
      placed = omega (arith, total-replicate keep max_prio, on_cpus-replicate keep n (idle) refl);
      ended = λ l. absurd (omega (arith, l));
      sound = omega (
        arith,
        total-replicate (astray q size 0) max_prio,
        on_cpus-replicate (astray q size 0) n (idle) refl,
      );
      within = omega arith;
      queued = λ _. some_code;
      unstarted = λ _. refl;
    };
  }
    where
      idle : CpuThread Pcb
      idle = record { core = record { proc = none; time_left = pos 0 }; running = true }
  Reach-Progress (later {x} {y} r step) right =
      Progress-Step r (Reach-Progress r (loaded_before step right)) step right
