-- ===== src/Os/Simulation/Hangs.antt =====
-- When the program of ossim_source_code/src/os.c does not come to its end.
use co2018_assignment.Base.{
  ℕ, ◌≤◌, ◌≡◌, ◌≢◌, inl, inr, refl, sym, ap, subst, ◌∙◌, true, none, some, List, get_elem?,
  get_elem?-set_self, get_elem?-set_ne, lt_of_get_elem?, set, set_cases, arith,
}
use mathlib.Core.Bool.{true≢false}
use mathlib.Core.Option.{some-injective}
use co2018_assignment.Base.Int.{ℤ, pos_part}
use co2018_assignment.Memphy.{Memphy}
use co2018_assignment.Cpu.{Pcb, Uninit}
use co2018_assignment.Sched.{Sched, max_prio}
use co2018_assignment.Sched.Init.{IsStatic}
use co2018_assignment.Sched.Levels.{Levels}
use co2018_assignment.Sched.Dispatch.{IsIdle}
use co2018_assignment.Os.{Core, Turn, next_slot, cpu_round, shared_machine, pcb_Schedulable}
use co2018_assignment.Os.Idle.{cpu_round-IsIdle}
use co2018_assignment.Os.Loading.{LdArgs, Ld}
use co2018_assignment.Os.Loading.Round.{Round, is_over, waits, queues, ld_round-Round}
use co2018_assignment.Os.Threads.{CpuThread, goes_on_running}
use co2018_assignment.Os.Simulation.{
  Program, Step, turns, loads_next, ticks, wakes, joins, joins_loader, stops, returns, Reach, later,
  returned,
}
use co2018_assignment.Os.Simulation.Endings.{HasEnded, Joined, Endings}
use co2018_assignment.Os.Simulation.Ended.{Reach-Endings}
use native.Mathlib.Decide.{ℕ_discrete}

module _ (u : Uninit) (a : LdArgs) (time_slot : ℤ) (n : ℕ) where
  -- Any number of steps.
  pub data Steps (x : Program) : Program → Type 0 where
    here : Steps x x
    more : {y z : Program} → Steps x y → Step u a time_slot n y z → Steps x z

  pub Reach-Steps :
      (current : Sched Pcb) (w : Memphy × Memphy) {x y : Program}
      → Reach u a time_slot n current w x
      → Steps x y
      → Reach u a time_slot n current w y
  Reach-Steps current w r here = r
  Reach-Steps current w r (more ss step) = later (Reach-Steps current w r ss) step

  -- The loader has brought in all processes, and none is left: neither queued nor on a CPU. CPU `k`
  -- is still in its loop.
  pub record IsOut (k : ℕ) (x : Program) : Type 0 where
    pub lists : List (List Pcb)
    pub levels : Levels x.threads.sched lists
    pub idle : IsIdle lists max_prio
    pub cpus :
        (i : ℕ) {c : CpuThread Pcb} → get_elem? x.threads.cpus i ≡ some c → c.core.proc ≡ none
    pub loaded : pos_part a.num_processes ≤ x.ld.i
    pub cpu : CpuThread Pcb
    pub at : get_elem? x.threads.cpus k ≡ some cpu
    pub runs : cpu.running ≡ true

  module _ (k : ℕ) (x : Program) (h : IsOut k x) where
    -- Steps in which no CPU has a round.
    kept :
        (y : Program)
        → x.threads.cpus ≡ y.threads.cpus
        → x.threads.sched ≡ y.threads.sched
        → x.ld.i ≡ y.ld.i
        → IsOut k y
    kept y cpus sched i = record {
      lists = h.lists;
      levels = subst (λ s. Levels s h.lists) sched h.levels;
      idle = h.idle;
      cpus = λ j at. h.cpus j (ap (λ cs. get_elem? cs j) cpus ∙ at);
      loaded = omega (arith, h.loaded, i);
      cpu = h.cpu;
      at = ap (λ cs. get_elem? cs k) (sym cpus) ∙ h.at;
      runs = h.runs;
    }

    -- The round of a CPU does nothing.
    idles :
        (y : Program) (i : ℕ) (c : Core Pcb) {turn : Turn} {c' : Core Pcb} {s : Sched Pcb}
        {w : Memphy × Memphy}
        → c.proc ≡ none
        → cpu_round (shared_machine u) time_slot x.threads.is_done c x.threads.sched x.threads.world
          ≡ some (turn, c', s, w)
        → (y.threads.cpus
            ≡ set x.threads.cpus i (record { core = c'; running = goes_on_running turn }))
          × (y.threads.sched ≡ s)
          × (y.ld.i ≡ x.ld.i)
        → IsOut k y
    idles y i c {turn} {c'} {s} {w} free e (cs, ss, is) = record {
      lists = h.lists;
      levels = subst (λ s. Levels s h.lists) (ap (λ r. r.2) eq ∙ sym ss) h.levels;
      idle = h.idle;
      cpus = λ j at.
          elim (set_cases x.threads.cpus i j this (ap (λ cs. get_elem? cs j) (sym cs) ∙ at)) [
            | inl (_, same) ↦ ap (λ c. c.core.proc) (sym same) ∙ ap (λ r. r.1.proc) (sym eq)
            | inr (_, old) ↦ h.cpus j old
          ];
      loaded = omega (arith, h.loaded, is);
      cpu = found.0;
      at = ap (λ cs. get_elem? cs k) cs ∙ found.1;
      runs = found.2;
    }
      where
        this : CpuThread Pcb
        this = record { core = c'; running = goes_on_running turn }

        before : Turn × Core Pcb × Sched Pcb × (Memphy × Memphy)
        before = (
          next_slot,
          record { proc = none; time_left = c.time_left },
          x.threads.sched,
          x.threads.world,
        )

        after : Turn × Core Pcb × Sched Pcb × (Memphy × Memphy)
        after = (turn, c', s, w)

        eq : before ≡ after
        eq = some-injective _ _ (
            sym (
              cpu_round-IsIdle (shared_machine u) time_slot x.threads.is_done c.time_left
                x.threads.world h.levels h.idle)
            ∙ subst
                (λ proc.
                  cpu_round (shared_machine u) time_slot x.threads.is_done
                    (record { proc = proc; time_left = c.time_left }) x.threads.sched
                    x.threads.world
                  ≡ some after)
                free e)

        found :
            (c : CpuThread Pcb) × (get_elem? (set x.threads.cpus i this) k ≡ some c)
            × (c.running ≡ true)
        found = elim (ℕ_discrete i k) [
          | yes same ↦ (
            this,
            subst (λ k. get_elem? (set x.threads.cpus i this) k ≡ some this) same
                (get_elem?-set_self x.threads.cpus i this
                  (omega (arith, same, lt_of_get_elem? x.threads.cpus k h.at))),
            ap (λ r. goes_on_running r.0) (sym eq),
          )
          | no ne ↦ (h.cpu, get_elem?-set_ne x.threads.cpus i k this ne ∙ h.at, h.runs)
        ]

    all_loaded :
        {turn : Turn} {ld' : Ld} {s : Sched Pcb}
        → Round a x.ld x.threads.sched turn ld' s
        → (x.threads.sched ≡ s) × (x.ld.i ≡ ld'.i)
    all_loaded (is_over le) = (refl, refl)
    all_loaded (waits p pid f) = absurd (omega (arith, h.loaded, f.more))
    all_loaded (queues p pid f e) = absurd (omega (arith, h.loaded, f.more))

    IsOut-Step : {y : Program} → Step u a time_slot n x y → IsOut k y
    IsOut-Step {y} (turns i {c} at e dev acted) = idles y i c (h.cpus i at) e (refl, refl, refl)
    IsOut-Step {y} (loads_next e dev acted) =
        let l = all_loaded (ld_round-Round a x.ld _ x.threads.sched e) in kept y refl l.0 l.1
    IsOut-Step {y} (ticks e) = kept y refl refl refl
    IsOut-Step {y} (wakes j dev acted) = kept y refl refl refl
    IsOut-Step {y} (joins i m at s) = kept y refl refl refl
    IsOut-Step {y} (joins_loader m d) = kept y refl refl refl
    IsOut-Step {y} (stops m) = kept y refl refl refl
    IsOut-Step {y} (returns m e) = kept y refl refl refl

  IsOut-Steps : (k : ℕ) {x y : Program} → IsOut k x → Steps x y → IsOut k y
  IsOut-Steps k h here = h
  IsOut-Steps k h (more {y} ss step) = IsOut-Step k y (IsOut-Steps k h ss) step

  -- Where all processes are gone and a CPU is still in its loop, as a CPU is that never got a process,
  -- the program hangs: however the threads go on, that CPU stays in its loop, and `main` does not
  -- return.
  pub hangs :
      (current : Sched Pcb) (w : Memphy × Memphy) (k : ℕ) {x y : Program}
      → IsStatic current
      → Reach u a time_slot n current w x
      → IsOut k x
      → Steps x y
      → (y.main ≢ returned)
        × ((c : CpuThread Pcb) × (get_elem? y.threads.cpus k ≡ some c) × (c.running ≡ true))
  hangs current w k {x} {y} static r h ss =
      (λ m. true≢false (sym out.runs ∙ off m out.cpu out.at), (out.cpu, out.at, out.runs))
    where
      out : IsOut k y
      out = IsOut-Steps k h ss

      ends : Endings a n y
      ends = Reach-Endings u a time_slot n current w static (Reach-Steps current w r ss)

      off : y.main ≡ returned → HasEnded y.threads.cpus k
      off m =
          (subst (Joined a n y) m ends.main).0 k
            (omega (arith, lt_of_get_elem? y.threads.cpus k out.at, ends.cpus))
