-- ===== src/Os/Simulation/Once.antt =====
-- In which time slots the CPUs of ossim_source_code/src/os.c run one process.
use co2018_assignment.Base.{
  ℕ, ◌+◌, ◌≤◌, ◌<◌, ◌^◌, ◌≡◌, refl, sym, ap, subst, Bool, true, none, some, List, [], ◌∷◌, ◌++◌,
  replicate, get_elem?, ◌==◌, arith,
}
use mathlib.Core.Option.{none-ne-some}
use co2018_assignment.Base.Int.{ℤ, pos, pos_part}
use co2018_assignment.Memphy.{Memphy}
use co2018_assignment.Cpu.{Pcb, Uninit}
use co2018_assignment.Sched.{Sched, max_prio}
use co2018_assignment.Sched.Init.{IsStatic, init_scheduler-Levels}
use co2018_assignment.Sched.Levels.{Levels}
use co2018_assignment.Timer.{stop_timer, free_devices}
use co2018_assignment.Os.{Turn, shared_machine, pcb_Schedulable}
use co2018_assignment.Os.Pid.{run_shared-pid}
use co2018_assignment.Os.Conserve.{count, total, count-append}
use co2018_assignment.Os.Loading.{LdArgs, Ld, admit}
use co2018_assignment.Os.Loading.Round.{Round, is_over, waits, queues, ld_round-Round}
use co2018_assignment.Os.Threads.Put.{Put, add_proc-Put}
use co2018_assignment.Os.Threads.Places.{IsKept}
use co2018_assignment.Os.Threads.Unique.{on_cpus-replicate, total-replicate}
use co2018_assignment.Os.Simulation.{
  Program, Step, turns, loads_next, ticks, wakes, joins, joins_loader, stops, returns, Reach,
  starts, later, queued,
}
use co2018_assignment.Os.Simulation.After.{MoveOn, MoveOn-refl, MoveOn-act, MoveOn-ticks}
use co2018_assignment.Os.Simulation.Brings.{queued-next}
use co2018_assignment.Os.Simulation.Parts.{Reach-Parts}
use co2018_assignment.Os.Simulation.Pids.{has_pid, Reach-Pids}
use co2018_assignment.Os.Simulation.Runs.{Ordered-get, Slots, Slots-later}
use co2018_assignment.Os.Simulation.Turns.{Slots-turn}

module _ (a : LdArgs) (keep : Pcb → Bool) (ld : Ld) (loaded : List Pcb) where
  -- What a round of the loader does to the queues: it queues no more than it adds to `loaded`.
  record Fed (s' : Sched Pcb) (ld' : Ld) (lists : List (List Pcb)) : Type 0 where
    pub after : List (List Pcb)
    pub levels : Levels s' after
    pub grows :
        total keep after + count keep loaded
        ≤ total keep lists + count keep (queued a ld ld' (get_elem? a.ld_processes ld.i) ++ loaded)

  unfed : (s : Sched Pcb) (ld' : Ld) (lists : List (List Pcb)) → Levels s lists → Fed s ld' lists
  unfed s ld' lists levels = record {
    after = lists;
    levels = levels;
    grows =
        omega (arith, count-append keep (queued a ld ld' (get_elem? a.ld_processes ld.i)) loaded);
  }

  fed :
      {s : Sched Pcb} {turn : Turn} {ld' : Ld} {s' : Sched Pcb} (lists : List (List Pcb))
      → Levels s lists
      → Round a ld s turn ld' s'
      → Fed s' ld' lists
  fed lists levels (is_over _) = unfed _ _ lists levels
  fed lists levels (waits _ _ _) = unfed _ _ lists levels
  fed {s} lists levels (queues p pid {s'} f e) =
      let q : Put keep s' lists (admit a ld.i p) = add_proc-Put keep (admit a ld.i p) levels e in
      let added : queued a ld (record { i = ld.i + 1; proc = none; avail_pid = pid })
            (get_elem? a.ld_processes ld.i)
          ≡ admit a ld.i p ∷ [] =
        queued-next a ld (record { i = ld.i + 1; proc = none; avail_pid = pid })
          (λ e. omega (arith, e)) f.entry f.found in
      record {
        after = q.lists;
        levels = q.levels;
        grows = omega (arith, q.balance, ap (λ l. count keep (l ++ loaded)) added);
      }

module _ (u : Uninit) (a : LdArgs) (time_slot : ℤ) (n : ℕ) (current : Sched Pcb)
    (w : Memphy × Memphy) where
  module _ (few : pos_part a.num_processes < 2 ^ 31) (q : ℕ) where
    abbrev keep : Pcb → Bool
    keep = has_pid q

    once : {x : Program} → Reach u a time_slot n current w x → count keep x.threads.loaded ≤ 1
    once r = omega (arith, (Reach-Pids a q few u time_slot n current w r).once)

    fixed : IsKept (shared_machine u) keep
    fixed p p' w w' e = ap (λ k. k == q) (run_shared-pid u p p' w w' e)

    -- A step in which only devices and `main` move.
    moved :
        (x y : Program)
        → count keep x.threads.loaded ≤ 1
        → Slots keep n x
        → x.threads ≡ y.threads
        → x.log ≡ y.log
        → MoveOn x.timer.devices y.timer.devices
        → Slots keep n y
    moved x y once h threads log moves =
        Slots-later keep n x y h.lists h (subst (λ t. Levels t.sched h.lists) threads h.levels)
          (omega (arith, same)) (omega (arith, same)) (omega (arith, same, once))
          (ap (λ t. t.cpus) threads) log moves
      where
        same : count keep x.threads.loaded ≡ count keep y.threads.loaded
        same = ap (λ t. count keep t.loaded) threads

    Slots-Step :
        {x y : Program}
        → Reach u a time_slot n current w x
        → Slots keep n x
        → (step : Step u a time_slot n x y) → Slots keep n y
    Slots-Step {x} r h (turns i at e dev acted) =
        Slots-turn u a time_slot n keep x h (once r) (Reach-Parts u a time_slot n current w r).timer
          fixed i at e dev acted
    Slots-Step {x} {y} r h (loads_next e dev acted) =
        let f : Fed a keep x.ld x.threads.loaded y.threads.sched y.ld h.lists =
          fed a keep x.ld x.threads.loaded h.lists h.levels
            (ld_round-Round a x.ld _ x.threads.sched e) in
        Slots-later keep n x y f.after h f.levels f.grows
          (omega (
            arith,
            count-append keep (queued a x.ld y.ld (get_elem? a.ld_processes x.ld.i))
                x.threads.loaded,
          ))
          (once (later r (loads_next e dev acted))) refl refl
          (MoveOn-act x.timer.devices 0 _ dev acted)
    Slots-Step {x} {y} r h (ticks e) = moved x y (once r) h refl refl (MoveOn-ticks x.timer e)
    Slots-Step {x} {y} r h (wakes j dev acted) =
        moved x y (once r) h refl refl (MoveOn-act x.timer.devices j _ dev acted)
    Slots-Step {x} {y} r h (joins i m at s) =
        moved x y (once r) h refl refl (MoveOn-refl x.timer.devices)
    Slots-Step {x} {y} r h (joins_loader m d) =
        moved x y (once r) h refl refl (MoveOn-refl x.timer.devices)
    Slots-Step {x} {y} r h (stops m) =
        moved x y (once r) h refl refl (unfold stop_timer in MoveOn-refl x.timer.devices)
    Slots-Step {x} {y} r h (returns m e) =
        moved x y (once r) h refl refl (unfold free_devices in λ j d at. absurd (none-ne-some _ at))

    Reach-Slots :
        IsStatic current → {x : Program} → Reach u a time_slot n current w x → Slots keep n x
    Reach-Slots static starts = record {
      lists = replicate max_prio [];
      levels = init_scheduler-Levels static;
      placed = omega (
        arith,
        total-replicate keep max_prio,
        on_cpus-replicate keep n
            (record { core = record { proc = none; time_left = pos 0 }; running = true }) refl,
      );
      ordered = tt;
      runs = tt;
    }
    Reach-Slots static (later r step) = Slots-Step r (Reach-Slots static r) step

  -- In every state that the program reaches, from static storage and a configuration of fewer than
  -- 2 ^ 31 processes on, a process runs at most once in each time slot: of two instructions that a CPU
  -- has run of one pid, whichever the CPUs, the older was in an earlier slot.
  pub Reach-once :
      {x : Program} (i j : ℕ) {slot slot' : ℕ} {p p' : Pcb}
      → IsStatic current
      → pos_part a.num_processes < 2 ^ 31
      → Reach u a time_slot n current w x
      → i < j
      → get_elem? x.log i ≡ some (slot, p)
      → get_elem? x.log j ≡ some (slot', p')
      → p.pid ≡ p'.pid
      → slot' < slot
  Reach-once {x} i j {slot} {slot'} {p} {p'} static few r l at at' same =
      Ordered-get (has_pid p.pid) x.log i j (Reach-Slots few p.pid static r).ordered l at at'
        (hit p.pid p.pid refl) (hit p'.pid p.pid (sym same))
    where
      hit : (k q : ℕ) → k ≡ q → (k == q) ≡ true
      hit k q e = ground arith
