-- ===== src/Os/Simulation/Returns.antt =====
-- `main` of ossim_source_code/src/os.c returns once all other threads have left their loops.
use co2018_assignment.Base.{
  ℕ, zero, suc, ◌+◌, ◌*◌, ◌-◌, ◌<◌, ◌≡◌, refl, sym, ap, subst, ◌∙◌, true, false, Option, none, some,
  length, get_elem?, get_elem?_of_lt, get_elem?-replicate, lt_of_get_elem?, arith,
}
use native.Mathlib.Decide.{ℕ_discrete}
use mathlib.Core.Bool.{true≢false}
use mathlib.Core.Option.{none-ne-some}
use co2018_assignment.Base.Int.{ℤ, pos}
use co2018_assignment.Memphy.{Memphy}
use co2018_assignment.Cpu.{Pcb, Uninit}
use co2018_assignment.Sched.{Sched}
use co2018_assignment.Sched.Init.{IsStatic}
use co2018_assignment.Timer.{Device, System, timer_step, stop_timer, free_devices, ended}
use co2018_assignment.Timer.Reached.{length-attached}
use co2018_assignment.Timer.Ending.{Reach-timer_steps}
unfoldable use co2018_assignment.Timer.Ending.{timer_steps, after}
use co2018_assignment.Os.Loading.{LdArgs}
use co2018_assignment.Os.Threads.{CpuThread}
use co2018_assignment.Os.Simulation.{
  Program, Step, turns, loads_next, ticks, wakes, joins, joins_loader, stops, returns, Reach,
  starts, later, MainPc, joining, stopping, joining_timer, returned,
}
use co2018_assignment.Os.Simulation.Endings.{Joined}
use co2018_assignment.Os.Simulation.Ended.{Reach-Endings}
use co2018_assignment.Os.Simulation.Gone.{
  Gone, Gone-kept, Gone-turn, Gone-loads, StayOff-refl, StayOff-act, StayOff-ticks,
}
use co2018_assignment.Os.Simulation.Hangs.{Steps, here, more}
use co2018_assignment.Os.Simulation.Parts.{Reach-Parts}

module _ (u : Uninit) (a : LdArgs) (time_slot : ℤ) (n : ℕ) (current : Sched Pcb)
    (w : Memphy × Memphy) (static : IsStatic current) where
  abbrev Onward : Program → Program → Type 0
  Onward = Steps u a time_slot n

  Gone-Step :
      {x y : Program}
      → Reach u a time_slot n current w x
      → Gone n x
      → Step u a time_slot n x y
      → Gone n y
  Gone-Step {x} {y} r h (turns i {turn = turn} {c'} at e dev acted) =
      Gone-turn n x y i turn c' h at dev acted (refl, refl, refl)
  Gone-Step {x} {y} r h (loads_next {turn} e dev acted) =
      Gone-loads n x y turn h dev acted (refl, refl, refl)
  Gone-Step {x} {y} r h (ticks e) = Gone-kept n x y (StayOff-ticks x.timer e) refl h
  Gone-Step {x} {y} r h (wakes j dev acted) =
      Gone-kept n x y (StayOff-act x.timer.devices j _ dev acted) refl h
  Gone-Step {x} {y} r h (joins i m at off) = Gone-kept n x y (StayOff-refl x.timer.devices) refl h
  Gone-Step {x} {y} r h (joins_loader m d) = Gone-kept n x y (StayOff-refl x.timer.devices) refl h
  Gone-Step {x} {y} r h (stops m) =
      Gone-kept n x y (unfold stop_timer in StayOff-refl x.timer.devices) refl h
  Gone-Step {x} {y} r h (returns m e) =
      Gone-kept n x y (unfold free_devices in λ j d at. absurd (none-ne-some _ at)) refl h

  Reach-Gone : {x : Program} → Reach u a time_slot n current w x → Gone n x
  Reach-Gone starts = record {
    within = λ j d at. omega (arith, lt_of_get_elem? _ j at, length-attached (suc n));
    cpus = λ i c d at off _.
        absurd (true≢false (ap (λ c. c.running) (get_elem?-replicate n i waiting at) ∙ off));
    loader = λ d. absurd (true≢false (sym d));
  }
    where
      waiting : CpuThread Pcb
      waiting = record { core = record { proc = none; time_left = pos 0 }; running = true }
  Reach-Gone (later r step) = Gone-Step r (Reach-Gone r) step

  go_on_after : {x y z : Program} → Onward x y → Onward y z → Onward x z
  go_on_after r here = r
  go_on_after r (more ss step) = more (go_on_after r ss) step

  -- The steps of the timer's thread as steps of the program.
  timer_goes_on : (k : ℕ) (x : Program) → Onward x (record x { timer = timer_steps k x.timer })
  unfolding timer_steps after
  timer_goes_on zero x = here
  timer_goes_on (suc k) x =
      go (λ t. timer_goes_on k (record x { timer = t })) (timer_step x.timer) refl
    where
      go :
          ((t : System) → Onward (record x { timer = t }) (record x { timer = timer_steps k t }))
          → (o : Option System) → timer_step x.timer ≡ o
          → Onward x (record x { timer = after x.timer (timer_steps k) o })
      go rest none e = here
      go rest (some t) e = go_on_after (more here (ticks e)) (rest t)

  -- No thread but the timer's and `main` goes on.
  record AllLeft (x : Program) : Type 0 where
    pub cpus : (i : ℕ) (c : CpuThread Pcb) → get_elem? x.threads.cpus i ≡ some c → c.running ≡ false
    pub loader : x.threads.is_done ≡ true

  all_off :
      (x : Program)
      → Reach u a time_slot n current w x
      → AllLeft x
      → (j : ℕ) (d : Device) → get_elem? x.timer.devices j ≡ some d
      → d.id.fsh ≡ true
  all_off x r h j d at = elim (ℕ_discrete j 0) [
    | yes eq ↦ (g.loader h.loader d (ap (get_elem? x.timer.devices) (sym eq) ∙ at)).1
    | no ne ↦
        let below : n - j < n = omega (arith, ne, g.within j d at) in
        let back : n - (n - j) ≡ j = omega (arith, g.within j d at) in
        let cpu =
          get_elem?_of_lt x.threads.cpus (n - j)
            (omega (arith, below, (Reach-Endings u a time_slot n current w static r).cpus)) in
        (g.cpus (n - j) cpu.0 d cpu.1 (h.cpus (n - j) cpu.0 cpu.1)
          (ap (get_elem? x.timer.devices) back ∙ at)).1
  ]
    where
      g : Gone n x
      g = Reach-Gone r

  abbrev Returns : Program → Type 0
  Returns x = (y : Program) × Onward x y × (y.main ≡ returned)

  after_steps : {x y : Program} → Onward x y → Returns y → Returns x
  after_steps ss (z, more_ss, m) = (z, go_on_after ss more_ss, m)

  from_joining_timer :
      (x : Program)
      → Reach u a time_slot n current w x
      → AllLeft x
      → x.main ≡ joining_timer
      → Returns x
  from_joining_timer x r h m = (
    record x { timer = free_devices (timer_steps steps x.timer); main = returned },
    more (timer_goes_on steps x) (returns m ends),
    refl,
  )
    where
      steps : ℕ
      steps = 4 * length x.timer.devices + 8

      ends : (timer_steps steps x.timer).timer ≡ ended
      ends =
          Reach-timer_steps (suc n) (Reach-Parts u a time_slot n current w r).timer (all_off x r h)

  from_stopping :
      (x : Program) → Reach u a time_slot n current w x → AllLeft x → x.main ≡ stopping → Returns x
  from_stopping x r h m =
      after_steps (more here (stops m)) (
        from_joining_timer _ (later r (stops m)) (record { cpus = h.cpus; loader = h.loader }) refl)

  -- `main` joins the CPUs that are left, one after the other, and the loader.
  from_joining :
      (left k : ℕ) (x : Program)
      → k + left ≡ n
      → Reach u a time_slot n current w x
      → AllLeft x
      → x.main ≡ joining k
      → Returns x
  from_joining zero k x e r h m =
      let joins_it : Step u a time_slot n x (record x { main = stopping }) =
        joins_loader (m ∙ ap joining (let same : k ≡ n = omega (arith, e) in same)) h.loader in
      after_steps (more here joins_it)
        (from_stopping _ (later r joins_it) (record { cpus = h.cpus; loader = h.loader }) refl)
  from_joining (suc left) k x e r h m =
      let cpu =
        get_elem?_of_lt x.threads.cpus k
          (omega (arith, e, (Reach-Endings u a time_slot n current w static r).cpus)) in
      let joins_it : Step u a time_slot n x (record x { main = joining (k + 1) }) =
        joins k m cpu.1 (h.cpus k cpu.0 cpu.1) in
      after_steps (more here joins_it) (
        from_joining left (k + 1) _ (omega (arith, e)) (later r joins_it)
          (record { cpus = h.cpus; loader = h.loader }) refl)

  -- In every state that the program reaches from static storage on, once each CPU has left its loop
  -- and the loader has set `done`, there are further steps after which `main` has returned: it is not
  -- stuck in a `pthread_join`.
  pub Reach-Returns :
      (x : Program)
      → Reach u a time_slot n current w x
      → ((i : ℕ) (c : CpuThread Pcb) → get_elem? x.threads.cpus i ≡ some c → c.running ≡ false)
      → x.threads.is_done ≡ true
      → Returns x
  Reach-Returns x r off done = go x.main refl
    where
      h : AllLeft x
      h = record { cpus = off; loader = done }

      go : (pc : MainPc) → x.main ≡ pc → Returns x
      go (joining k) m =
          from_joining (n - k) k x
            (omega (
              arith,
              (subst (Joined a n x) m (Reach-Endings u a time_slot n current w static r).main).0,
            ))
            r h m
      go stopping m = from_stopping x r h m
      go joining_timer m = from_joining_timer x r h m
      go returned m = (x, here, m)
