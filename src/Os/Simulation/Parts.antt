-- ===== src/Os/Simulation/Parts.antt =====
-- The parts of the whole program, ossim_source_code/src/os.c, keep to the rules of each part.
use co2018_assignment.Base.{
  ℕ, suc, ◌+◌, ◌≡◌, refl, sym, subst, ◌∙◌, true, ◌||◌, none, some, ◌++◌, get_elem?, arith,
}
use co2018_assignment.Base.Int.{ℤ}
use co2018_assignment.Memphy.{Memphy}
use co2018_assignment.Cpu.{Pcb, Uninit}
use co2018_assignment.Sched.{Sched, init_scheduler}
use co2018_assignment.Timer
use co2018_assignment.Timer.{System, acts, ticks, stops, frees, stop_timer}
use co2018_assignment.Timer.Ticks.{timer_step-Kept}
use co2018_assignment.Os.{Turn, shared_machine, pcb_Schedulable}
use co2018_assignment.Os.Threads
use co2018_assignment.Os.Threads.{Threads, finishes}
use co2018_assignment.Os.Loading.{LdArgs, Ld}
use co2018_assignment.Os.Loading.Round.{Round, is_over, waits, queues, ld_round-Round}
use co2018_assignment.Os.Simulation
use co2018_assignment.Os.Simulation.{
  Program, Step, turns, loads_next, wakes, joins, joins_loader, returns, Reach, starts, later,
  joining_timer, last_call, is_stopped, queued, stopping, joining,
}
use co2018_assignment.Os.Simulation.Brings.{queued-same, queued-next}

module _ (u : Uninit) (a : LdArgs) (time_slot : ℤ) (n : ℕ) (current : Sched Pcb)
    (w : Memphy × Memphy) where
  abbrev ThreadsReach : Threads Pcb (Memphy × Memphy) → Type 0
  ThreadsReach = Threads.Reach (shared_machine u) time_slot n (init_scheduler current) w

  -- The states of the parts are states that each part reaches by itself.
  pub record Parts (x : Program) : Type 0 where
    pub timer : Timer.Reach (suc n) x.timer
    pub threads : ThreadsReach x.threads
    pub stop : x.main ≡ joining_timer → x.timer.timer_stop ≡ true

  after-Round :
      (t : Threads Pcb (Memphy × Memphy)) (ld : Ld) {turn : Turn} {ld' : Ld} {s : Sched Pcb}
      → ThreadsReach t
      → Round a ld t.sched turn ld' s
      → ThreadsReach (record t {
        sched = s;
        is_done = is_stopped turn || t.is_done;
        loaded = queued a ld ld' (get_elem? a.ld_processes ld.i) ++ t.loaded;
      })
  after-Round t ld r (is_over _) =
      subst (λ q. ThreadsReach (record t { is_done = true; loaded = q ++ t.loaded }))
        (sym (queued-same a ld ld (get_elem? a.ld_processes ld.i) refl)) (Threads.later r finishes)
  after-Round t ld r (waits p pid _) =
      subst (λ q. ThreadsReach (record t { loaded = q ++ t.loaded }))
        (sym (
          queued-same a ld (record { i = ld.i; proc = some p; avail_pid = pid })
            (get_elem? a.ld_processes ld.i) refl))
        r
  after-Round t ld r (queues p pid {s' = s} f e) =
      subst (λ q. ThreadsReach (record t { sched = s; loaded = q ++ t.loaded }))
        (sym (
          queued-next a ld (record { i = ld.i + 1; proc = none; avail_pid = pid })
            (λ q. omega (arith, q)) f.entry f.found))
        (Threads.later r (Threads.queues _ e))

  Parts-Step : {x y : Program} → Parts x → Step u a time_slot n x y → Parts y
  Parts-Step h (turns i at e dev acted) = record {
    timer = Timer.later h.timer (acts _ _ dev acted);
    threads = Threads.later h.threads (Threads.turns i at e);
    stop = h.stop;
  }
  Parts-Step {x} h (loads_next {turn} {ld'} {s} e dev acted) = record {
    timer = Timer.later h.timer (acts _ _ dev acted);
    threads = after-Round x.threads x.ld h.threads (ld_round-Round a x.ld _ x.threads.sched e);
    stop = h.stop;
  }
  Parts-Step {x} h (Simulation.ticks e) = record {
    timer = Timer.later h.timer (ticks e);
    threads = h.threads;
    stop = λ m. (timer_step-Kept x.timer e).stop ∙ h.stop m;
  }
  Parts-Step h (wakes j dev acted) = record {
    timer = Timer.later h.timer (acts _ _ dev acted);
    threads = h.threads;
    stop = h.stop;
  }
  Parts-Step h (joins i m at r) = record { timer = h.timer; threads = h.threads; stop = λ e. cc }
  Parts-Step h (joins_loader m d) = record { timer = h.timer; threads = h.threads; stop = λ e. cc }
  Parts-Step h (Simulation.stops m) = record {
    timer = Timer.later h.timer stops;
    threads = h.threads;
    stop = λ _. unfold stop_timer in refl;
  }
  Parts-Step h (returns m e) = record {
    timer = Timer.later h.timer (frees e (h.stop m));
    threads = h.threads;
    stop = λ e. cc;
  }

  -- However the threads of the program follow one another, from their creation in `main` on: what they
  -- do to the timer's globals is a sequence of steps of the timer with `n + 1` devices, and what they do
  -- to the queues and CPUs is a sequence of rounds of `n` CPUs and of a loader. `main` waits for the
  -- timer's thread only after it has set `timer_stop`.
  pub Reach-Parts : {x : Program} → Reach u a time_slot n current w x → Parts x
  Reach-Parts starts = record { timer = Timer.starts; threads = Threads.starts; stop = λ e. cc }
  Reach-Parts (later r step) = Parts-Step (Reach-Parts r) step
