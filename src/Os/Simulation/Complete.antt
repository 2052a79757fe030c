-- ===== src/Os/Simulation/Complete.antt =====
-- Every process of ossim_source_code/src/os.c runs to its end.
use co2018_assignment.Base.{
  ℕ, zero, suc, ◌+◌, ◌≤◌, ◌<◌, ◌≡◌, refl, ap, Bool, true, false, none, some, List, [], ◌∷◌, length,
  get_elem?, arith, if◌then◌else◌,
}
use mathlib.Core.Option.{none-ne-some, some-injective}
use co2018_assignment.Base.Int.{ℤ, pos_part}
use co2018_assignment.Queue.{max_queue_size}
use co2018_assignment.Memphy.{Memphy}
use co2018_assignment.Cpu.{Pcb, Uninit}
use co2018_assignment.Sched.{Sched}
use co2018_assignment.Sched.Init.{IsStatic}
use co2018_assignment.Sched.Unique.{Levels-unique}
use co2018_assignment.Os.{pcb_Schedulable}
use co2018_assignment.Os.Drained.{any}
use co2018_assignment.Os.Conserve.{one, held, count, total}
use co2018_assignment.Os.Loading.{LdArgs}
use co2018_assignment.Os.Threads.{CpuThread}
use co2018_assignment.Os.Threads.Unique.{on_cpus}
use co2018_assignment.Os.Simulation.{Program, Reach, returned}
use co2018_assignment.Os.Simulation.Ended.{Finished, Reach-Finished}
use co2018_assignment.Os.Simulation.Pids.{has_pid, Reach-Pids}
use co2018_assignment.Os.Simulation.Ongoing.{Reach-Progress}
use co2018_assignment.Os.Simulation.Progress.{sized_otherwise, instructions, Progress}

count-any : (test : Pcb → Bool) (ps : List Pcb) → count test ps ≤ count any ps
count-any test [] = omega arith
count-any test (p ∷ ps) = omega (arith, at_most_one (test p), count-any test ps)
  where
    at_most_one : (b : Bool) → (if b then 1 else 0) ≤ 1
    at_most_one true = omega arith
    at_most_one false = omega arith

total-any : (test : Pcb → Bool) (pss : List (List Pcb)) → total test pss ≤ total any pss
total-any test [] = omega arith
total-any test (ps ∷ pss) = omega (arith, count-any test ps, total-any test pss)

on_cpus-none :
    (test : Pcb → Bool) (cs : List (CpuThread Pcb))
    → ((i : ℕ) (c : CpuThread Pcb) → get_elem? cs i ≡ some c → c.core.proc ≡ none)
    → on_cpus test cs ≡ 0
on_cpus-none test [] f = refl
on_cpus-none test (c ∷ cs) f =
    omega (arith, ap (held test) (f 0 c refl), on_cpus-none test cs (λ i c e. f (suc i) c e))

-- One process of a list passes the one test and not the other, which is stronger.
one_apart :
    (f g : Pcb → Bool) (ps : List Pcb) (j : ℕ) {p : Pcb}
    → ((p : Pcb) → one f p ≤ one g p)
    → get_elem? ps j ≡ some p
    → one f p ≡ 0
    → one g p ≡ 1
    → count f ps + 1 ≤ count g ps
one_apart f g [] j le e a b = absurd (none-ne-some _ e)
one_apart f g (p₀ ∷ ps) zero le e a b =
    omega
      (arith, ap (one f) (some-injective _ _ e), ap (one g) (some-injective _ _ e), a, b, counts ps)
  where
    counts : (ps : List Pcb) → count f ps ≤ count g ps
    counts [] = omega arith
    counts (p ∷ ps) = omega (arith, le p, counts ps)
one_apart f g (p₀ ∷ ps) (suc j) le e a b = omega (arith, le p₀, one_apart f g ps j le e a b)

module _ (u : Uninit) (a : LdArgs) (time_slot : ℤ) (n : ℕ) (current : Sched Pcb)
    (w : Memphy × Memphy) where
  -- From static storage on, with a CPU and with at most ten processes, which a level has room for: when `main`
  -- returns, each process that the loader has queued, and whose code is not empty, has run exactly
  -- as many instructions as its code has.
  pub Reach-complete :
      {x : Program} (j : ℕ) {p : Pcb}
      → IsStatic current
      → 0 < n
      → pos_part a.num_processes ≤ max_queue_size
      → Reach u a time_slot n current w x
      → x.main ≡ returned
      → get_elem? x.threads.loaded j ≡ some p
      → 0 < length p.text
      → instructions p.pid (length p.text) x.log ≡ length p.text
  Reach-complete {x} j {p} static some_cpu few r m at some_code =
      h.stand.ended (omega (arith, h.stand.placed, empty, idle, apart))
    where
      size : ℕ
      size = length p.text

      right : one (sized_otherwise p.pid size) p ≡ 0
      right = ground arith

      mine : one (has_pid p.pid) p ≡ 1
      mine = ground arith

      le : (p₀ : Pcb) → one (sized_otherwise p.pid size) p₀ ≤ one (has_pid p.pid) p₀
      le p₀ = ground arith

      apart :
          count (sized_otherwise p.pid size) x.threads.loaded + 1
          ≤ count (has_pid p.pid) x.threads.loaded
      apart =
          one_apart (sized_otherwise p.pid size) (has_pid p.pid) x.threads.loaded j le at right mine

      h : Progress p.pid size x
      h = Reach-Progress u a time_slot n current w static few p.pid size some_code r (
          omega (
            arith,
            apart,
            (Reach-Pids a p.pid (omega (arith, few)) u time_slot n current w r).once,
          ))

      f : Finished u a time_slot n current w x
      f = Reach-Finished u a time_slot n current w static some_cpu r m

      idle : on_cpus (has_pid p.pid) x.threads.cpus ≡ 0
      idle = on_cpus-none (has_pid p.pid) x.threads.cpus (λ i c e. (f.cpus i e).1)

      empty : total (has_pid p.pid) h.lists ≡ 0
      empty = omega (
        arith,
        total-any (has_pid p.pid) h.lists,
        ap (total any) (Levels-unique h.levels f.nothing_queued.levels),
        f.nothing_queued.nothing,
      )
