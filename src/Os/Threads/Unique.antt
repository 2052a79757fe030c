-- ===== src/Os/Threads/Unique.antt =====
-- In every state that the threads of ossim_source_code/src/os.c reach, a process is in one place.
use co2018_assignment.Base.{
  ℕ, zero, suc, ◌+◌, ◌≤◌, ◌≡◌, ◌≢◌, refl, ap, subst, Bool, none, some, List, [], ◌∷◌, get_elem?,
  set, replicate, arith,
}
use mathlib.Core.Option.{none-ne-some, some-injective}
use co2018_assignment.Base.Int.{ℤ}
use co2018_assignment.Queue.{Schedulable}
use co2018_assignment.Sched.{Sched, max_prio, init_scheduler}
use co2018_assignment.Sched.Init.{IsStatic, init_scheduler-Levels}
use co2018_assignment.Sched.Levels.{Levels}
use co2018_assignment.Os.{Machine}
use co2018_assignment.Os.Conserve.{held, count, total}
use co2018_assignment.Os.Threads.{
  CpuThread, Threads, Step, turns, queues, finishes, Reach, starts, later,
}
use co2018_assignment.Os.Threads.Put.{Put, add_proc-Put}
use co2018_assignment.Os.Threads.Places.{Within, IsKept, cpu_round-Ends}

module _ {P : Type 0} (keep : P → Bool) where
  -- The processes on the CPUs that pass the test.
  abbrev pub on_cpus : List (CpuThread P) → ℕ
  on_cpus [] = 0
  on_cpus (c ∷ cs) = held keep c.core.proc + on_cpus cs

  pub on_cpus-set :
      (cs : List (CpuThread P)) (i : ℕ) (c' : CpuThread P) {c : CpuThread P}
      → get_elem? cs i ≡ some c
      → on_cpus (set cs i c') + held keep c.core.proc ≡ on_cpus cs + held keep c'.core.proc
  on_cpus-set [] i c' e = absurd (none-ne-some _ e)
  on_cpus-set (c₀ ∷ cs) zero c' {c} e = omega (
    arith,
    let same : held keep c₀.core.proc ≡ held keep c.core.proc =
          ap (λ c. held keep c.core.proc) (some-injective _ _ e) in
        same,
  )
  on_cpus-set (c₀ ∷ cs) (suc i) c' e = omega (arith, on_cpus-set cs i c' e)

  pub on_cpus-get :
      (cs : List (CpuThread P)) (i : ℕ) {c : CpuThread P}
      → get_elem? cs i ≡ some c
      → held keep c.core.proc ≤ on_cpus cs
  on_cpus-get [] i e = absurd (none-ne-some _ e)
  on_cpus-get (c₀ ∷ cs) zero e =
      subst (λ c. held keep c.core.proc ≤ on_cpus (c₀ ∷ cs)) (some-injective _ _ e) (omega arith)
  on_cpus-get (c₀ ∷ cs) (suc i) e = omega (arith, on_cpus-get cs i e)

  -- Two CPUs hold no more than all.
  pub on_cpus-get_two :
      (cs : List (CpuThread P)) (i j : ℕ) {c d : CpuThread P}
      → i ≢ j
      → get_elem? cs i ≡ some c
      → get_elem? cs j ≡ some d
      → held keep c.core.proc + held keep d.core.proc ≤ on_cpus cs
  on_cpus-get_two [] i j ne e f = absurd (none-ne-some _ e)
  on_cpus-get_two (c₀ ∷ cs) zero zero ne e f = absurd (ne refl)
  on_cpus-get_two (c₀ ∷ cs) zero (suc j) {c} {d} ne e f =
      subst (λ c. held keep c.core.proc + held keep d.core.proc ≤ on_cpus (c₀ ∷ cs))
        (some-injective _ _ e) (omega (arith, on_cpus-get cs j f))
  on_cpus-get_two (c₀ ∷ cs) (suc i) zero {c} {d} ne e f =
      subst (λ d. held keep c.core.proc + held keep d.core.proc ≤ on_cpus (c₀ ∷ cs))
        (some-injective _ _ f) (omega (arith, on_cpus-get cs i e))
  on_cpus-get_two (c₀ ∷ cs) (suc i) (suc j) ne e f =
      omega (arith, on_cpus-get_two cs i j (λ q. ne (ap suc q)) e f)

  pub on_cpus-replicate :
      (n : ℕ) (c : CpuThread P) → c.core.proc ≡ none → on_cpus (replicate n c) ≡ 0
  on_cpus-replicate zero c e = refl
  on_cpus-replicate (suc n) c e = omega (arith, ap (held keep) e, on_cpus-replicate n c e)

  pub total-replicate : (n : ℕ) → total keep (replicate n []) ≡ 0
  total-replicate zero = refl
  total-replicate (suc n) = omega (arith, total-replicate n)

module _ {P W : Type 0} ⦃o : Schedulable P⦄ (m : Machine P W) (time_slot : ℤ)
    (keep : P → Bool) where
  -- Where the loaded processes are.
  pub record Placed (t : Threads P W) : Type 0 where
    pub lists : List (List P)
    pub levels : Levels t.sched lists
    pub once : total keep lists + on_cpus keep t.cpus ≤ count keep t.loaded

  Placed-Step : {t t' : Threads P W} → IsKept m keep → Placed t → Step m time_slot t t' → Placed t'
  Placed-Step {t} fixed h (turns i {c} {turn} {c'} {s} {w} at e) =
      let r : Within m keep s (held keep c'.proc) (total keep h.lists + held keep c.proc) =
        cpu_round-Ends m keep time_slot t.is_done c t.sched t.world h.lists fixed h.levels turn c' s
          w e in
      record {
        lists = r.lists;
        levels = r.levels;
        once = omega (arith, r.balance, h.once, on_cpus-set keep t.cpus i _ at);
      }
  Placed-Step {t} fixed h (queues p {s} e) =
      let q : Put keep s h.lists p = add_proc-Put keep p h.levels e in
      record { lists = q.lists; levels = q.levels; once = omega (arith, q.balance, h.once) }
  Placed-Step fixed h finishes = record { lists = h.lists; levels = h.levels; once = h.once }

  -- However the rounds of `n` CPUs and of the loader follow one another, from idle CPUs and what
  -- `init_scheduler` makes of static storage on, the levels
  -- are well formed, and of the processes that pass a test that no instruction changes, the queues and
  -- the CPUs hold no more together than the loader has queued: a process that was loaded once is never
  -- queued twice, on two CPUs, or on a CPU and in a queue.
  pub Reach-Placed :
      (n : ℕ) (current : Sched P) (w : W) {t : Threads P W}
      → IsStatic current
      → IsKept m keep
      → Reach m time_slot n (init_scheduler current) w t
      → Placed t
  Reach-Placed n current w static fixed starts = record {
    lists = replicate max_prio [];
    levels = init_scheduler-Levels static;
    once = omega (arith, total-replicate keep max_prio, on_cpus-replicate keep n _ refl);
  }
  Reach-Placed n current w static fixed (later r step) =
      Placed-Step fixed (Reach-Placed n current w static fixed r) step
