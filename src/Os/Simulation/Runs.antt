-- ===== src/Os/Simulation/Runs.antt =====
-- The runs of one process in the log of the CPUs of ossim_source_code/src/os.c.
use co2018_assignment.Base.{
  ℕ, zero, suc, ◌+◌, ◌≤◌, ◌<◌, ◌≡◌, ap, subst, ◌∙◌, Bool, true, some, List, [], ◌∷◌, get_elem?, All,
  All-get, All-imp, arith,
}
use mathlib.Core.Option.{none-ne-some, some-injective}
use co2018_assignment.Cpu.{Pcb}
use co2018_assignment.Sched.Levels.{Levels}
use co2018_assignment.Timer.{Device}
use co2018_assignment.Os.{pcb_Schedulable}
use co2018_assignment.Os.Conserve.{count, total}
use co2018_assignment.Os.Threads.{CpuThread}
use co2018_assignment.Os.Threads.Unique.{on_cpus}
use co2018_assignment.Os.Simulation.{Program, queued}
use co2018_assignment.Os.Simulation.After.{MoveOn}
use co2018_assignment.Os.Simulation.Slots.{Past, Past-later}

-- The runs of the processes that pass the test, newest first, in slots that differ.
abbrev pub Ordered : (Pcb → Bool) → List (ℕ × Pcb) → Type 0
Ordered keep [] = Unit
Ordered keep (e ∷ log) =
    (keep e.1 ≡ true → All (λ f. keep f.1 ≡ true → f.0 < e.0) log) × Ordered keep log

pub Ordered-get :
    (keep : Pcb → Bool) (log : List (ℕ × Pcb)) (i j : ℕ) {e f : ℕ × Pcb}
    → Ordered keep log
    → i < j
    → get_elem? log i ≡ some e
    → get_elem? log j ≡ some f
    → keep e.1 ≡ true
    → keep f.1 ≡ true
    → f.0 < e.0
Ordered-get keep [] i j h l at at' k k' = absurd (none-ne-some _ at)
Ordered-get keep (x ∷ log) i zero h l at at' k k' = absurd (omega (arith, l))
Ordered-get keep (x ∷ log) zero (suc j) {e} {f} h l at at' k k' =
    subst (λ e. f.0 < e.0) eq
      (All-get (λ f. keep f.1 ≡ true → f.0 < x.0) log j (h.0 (ap (λ e. keep e.1) eq ∙ k)) at' k')
  where
    eq : x ≡ e
    eq = some-injective _ _ at
Ordered-get keep (x ∷ log) (suc i) (suc j) h l at at' k k' =
    Ordered-get keep log i j h.1 (omega (arith, l)) at at' k k'

module _ (keep : Pcb → Bool) (n : ℕ) where
  abbrev pub Runs : List Device → List (CpuThread Pcb) → ℕ → ℕ → List (ℕ × Pcb) → Type 0
  Runs devices cpus queued known log =
      All (λ e. keep e.1 ≡ true → Past keep n devices cpus queued known e.0) log

  pub record Slots (x : Program) : Type 0 where
    pub lists : List (List Pcb)
    pub levels : Levels x.threads.sched lists
    pub placed : total keep lists + on_cpus keep x.threads.cpus ≤ count keep x.threads.loaded
    pub ordered : Ordered keep x.log
    pub runs :
        Runs x.timer.devices x.threads.cpus (total keep lists) (count keep x.threads.loaded) x.log

  -- Steps in which no CPU runs: the devices move on, and the loader may queue a process.
  pub Slots-later :
      (x y : Program) (lists : List (List Pcb))
      → (h : Slots x) → Levels y.threads.sched lists
      → total keep lists + count keep x.threads.loaded
        ≤ total keep h.lists + count keep y.threads.loaded
      → count keep x.threads.loaded ≤ count keep y.threads.loaded
      → count keep y.threads.loaded ≤ 1
      → x.threads.cpus ≡ y.threads.cpus
      → x.log ≡ y.log
      → MoveOn x.timer.devices y.timer.devices
      → Slots y
  Slots-later x y lists h levels grows more once cpus log moves = record {
    lists = lists;
    levels = levels;
    placed = omega (arith, h.placed, grows, ap (on_cpus keep) cpus);
    ordered = subst (Ordered keep) log h.ordered;
    runs =
        subst
          (λ cpus. Runs y.timer.devices cpus (total keep lists) (count keep y.threads.loaded) y.log)
          cpus
          (subst
            (Runs y.timer.devices x.threads.cpus (total keep lists) (count keep y.threads.loaded))
            log
            (All-imp _ _ x.log
              (λ e p k.
                Past-later keep n x.timer.devices y.timer.devices x.threads.cpus
                  (total keep h.lists) (total keep lists) (count keep x.threads.loaded)
                  (count keep y.threads.loaded) moves more (λ l. omega (arith, l, grows, once))
                  (p k))
              h.runs));
  }
