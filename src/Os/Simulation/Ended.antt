-- ===== src/Os/Simulation/Ended.antt =====
-- What holds when `main` of ossim_source_code/src/os.c returns.
use co2018_assignment.Base.{
  ℕ, ◌+◌, ◌≤◌, ◌<◌, ◌≡◌, refl, sym, ap, subst, ◌∙◌, true, false, ◌||◌, none, some, List,
  length-replicate, get_elem?, get_elem?-replicate, get_elem?_of_lt, lt_of_get_elem?, arith,
}
use native.Mathlib.Decide.{dec_lt}
use mathlib.Core.Bool.{true≢false}
use mathlib.Core.Option.{some-injective}
use co2018_assignment.Base.Int.{ℤ, pos, pos_part}
use co2018_assignment.Memphy.{Memphy}
use co2018_assignment.Cpu.{Pcb, Uninit}
use co2018_assignment.Sched.{Sched}
use co2018_assignment.Sched.Init.{IsStatic}
use co2018_assignment.Timer.{ended, System, free_devices}
use co2018_assignment.Os.{Turn, shared_machine, pcb_Schedulable}
use co2018_assignment.Os.Drained.{any, Drained}
use co2018_assignment.Os.Loading.{LdArgs, Ld}
use co2018_assignment.Os.Loading.Round.{Round, ld_round-Round}
use co2018_assignment.Os.Threads.{CpuThread}
use co2018_assignment.Os.Threads.Unique.{Reach-Placed}
use co2018_assignment.Os.Simulation.{
  Program, Step, turns, loads_next, ticks, wakes, joins, joins_loader, stops, returns, Reach,
  starts, later, is_stopped, returned,
}
use co2018_assignment.Os.Simulation.Endings.{
  HasEnded, Joined, Left, Endings, Joined-imp, Endings-moved, over, or_true, timer_ended,
  Endings-turn,
}
use co2018_assignment.Os.Simulation.Parts.{Reach-Parts}

module _ (u : Uninit) (a : LdArgs) (time_slot : ℤ) (n : ℕ) (current : Sched Pcb)
    (w : Memphy × Memphy) where
  -- The whole program has come to its end.
  pub record Finished (x : Program) : Type 0 where
    pub cpus :
        (i : ℕ) {c : CpuThread Pcb}
        → get_elem? x.threads.cpus i ≡ some c
        → (c.running ≡ false) × (c.core.proc ≡ none)
    pub loaded : pos_part a.num_processes ≤ x.ld.i
    pub nothing_queued : Drained x.threads.sched
    pub timer : x.timer.timer ≡ ended

  Endings-loads :
      (x : Program) {turn : Turn} (ld' : Ld) (s : Sched Pcb) (t : System) (loaded : List Pcb)
      → Round a x.ld x.threads.sched turn ld' s
      → x.timer.timer ≡ t.timer
      → Endings a n x
      → Endings a n (record x {
        timer = t;
        threads = record x.threads {
          sched = s;
          is_done = is_stopped turn || x.threads.is_done;
          loaded = loaded;
        };
        ld = ld';
      })
  Endings-loads x {turn} ld' s t loaded r same h = record {
    cpus = h.cpus;
    left = λ i {c} at off.
        let l : Left a n x c = h.left i at off in
        record {
          idle = l.idle;
          is_done = or_true a n (is_stopped turn) l.is_done;
          drained =
              subst Drained (over a n r h.loader (or_true a n (is_stopped turn) l.is_done)).1
                l.drained;
        };
    loader = λ d. (over a n r h.loader d).0;
    main =
        Joined-imp a n x after x.main (λ i e. e) (or_true a n (is_stopped turn)) (λ q. sym same ∙ q)
          h.main;
  }
    where
      after : Program
      after = record x {
        timer = t;
        threads = record x.threads {
          sched = s;
          is_done = is_stopped turn || x.threads.is_done;
          loaded = loaded;
        };
        ld = ld';
      }

  Endings-Step :
      {x y : Program}
      → IsStatic current
      → Reach u a time_slot n current w x
      → Endings a n x
      → Step u a time_slot n x y
      → Endings a n y
  Endings-Step {x} {y} static r h (turns i at e dev acted) =
      Endings-turn u a time_slot n current w x i y.timer y.log
        (Reach-Placed (shared_machine u) time_slot any n current w static (λ _ _ _ _ _. refl)
          (Reach-Parts u a time_slot n current w r).threads)
        h refl at e
  Endings-Step {x} {y} static r h (loads_next {ld' = ld'} {s} e dev acted) =
      Endings-loads x ld' s y.timer y.threads.loaded (ld_round-Round a x.ld _ x.threads.sched e)
        refl h
  Endings-Step {x} {y} static r h (ticks e) =
      Endings-moved a n x y refl refl
        (Joined-imp a n x y x.main (λ i l. l) (λ d. d) (timer_ended a n x.timer e) h.main) h
  Endings-Step {x} {y} static r h (wakes j dev acted) =
      Endings-moved a n x y refl refl
        (Joined-imp a n x y x.main (λ i l. l) (λ d. d) (λ q. q) h.main) h
  Endings-Step {x} {y} static r h (joins i {c} m at off) =
      Endings-moved a n x y refl refl
        (omega (arith, lt_of_get_elem? x.threads.cpus i at, h.cpus), λ k l. joined k l (dec_lt k i))
        h
    where
      before : (k : ℕ) → k < i → HasEnded x.threads.cpus k
      before = (subst (Joined a n x) m h.main).1

      joined : (k : ℕ) → k < i + 1 → Dec (k < i) → HasEnded x.threads.cpus k
      joined k l (yes earlier) = before k earlier
      joined k l (no last) = λ c₁ at₁.
          let k_eq : k ≡ i = omega (arith, l, last) in
          ap (λ c. c.running)
            (some-injective _ _ (sym at₁ ∙ (ap (get_elem? x.threads.cpus) k_eq ∙ at)))
          ∙ off
  Endings-Step {x} {y} static r h (joins_loader m d) =
      Endings-moved a n x y refl refl ((subst (Joined a n x) m h.main).1, d) h
  Endings-Step {x} {y} static r h (stops m) =
      Endings-moved a n x y refl refl (subst (Joined a n x) m h.main) h
  Endings-Step {x} {y} static r h (returns m e) =
      let j : ((i : ℕ) → i < n → HasEnded x.threads.cpus i) × (x.threads.is_done ≡ true) =
        subst (Joined a n x) m h.main in
      Endings-moved a n x y refl refl (j.0, j.1, unfold free_devices in e) h

  pub Reach-Endings :
      {x : Program} → IsStatic current → Reach u a time_slot n current w x → Endings a n x
  Reach-Endings static starts = record {
    cpus = length-replicate n waiting;
    left = λ i at off.
        absurd (true≢false (ap (λ c. c.running) (get_elem?-replicate n i waiting at) ∙ off));
    loader = λ d. absurd (true≢false (sym d));
    main = (omega arith, λ i l. absurd (omega (arith, l)));
  }
    where
      waiting : CpuThread Pcb
      waiting = record { core = record { proc = none; time_left = pos 0 }; running = true }
  Reach-Endings static (later r step) = Endings-Step static r (Reach-Endings static r) step

  -- From static storage on, when `main` returns, and there is a CPU, the work is done: the loader has
  -- brought in every process of the configuration, each CPU has left its loop and has no process,
  -- no level holds a process, and the timer's thread has ended.
  pub Reach-Finished :
      {x : Program}
      → IsStatic current
      → 0 < n
      → Reach u a time_slot n current w x
      → x.main ≡ returned
      → Finished x
  Reach-Finished {x} static some_cpu r m =
      let first = get_elem?_of_lt x.threads.cpus 0 (omega (arith, h.cpus, some_cpu)) in
      record {
        cpus = λ i at. (off i _ at, (h.left i at (off i _ at)).idle);
        loaded = h.loader j.1;
        nothing_queued = (h.left 0 first.1 (off 0 _ first.1)).drained;
        timer = j.2;
      }
    where
      h : Endings a n x
      h = Reach-Endings static r

      j : Joined a n x returned
      j = subst (Joined a n x) m h.main

      off : (i : ℕ) → HasEnded x.threads.cpus i
      off i c at = j.0 i (omega (arith, lt_of_get_elem? x.threads.cpus i at, h.cpus)) c at
