-- ===== src/Os/Simulation/Endings.antt =====
-- The threads of ossim_source_code/src/os.c that have ended, and what `main` knows of them.
use co2018_assignment.Base.{
  ℕ, ◌≤◌, ◌<◌, ◌≡◌, inl, inr, refl, sym, ap, subst, ◌∙◌, Bool, true, false, ◌||◌, none, some, List,
  length, length-set, get_elem?, set, set_cases, arith,
}
use mathlib.Core.Bool.{true≢false}
use mathlib.Core.Option.{none-ne-some}
use co2018_assignment.Base.Int.{ℤ, pos_part}
use co2018_assignment.Memphy.{Memphy}
use co2018_assignment.Cpu.{Pcb, Uninit}
use co2018_assignment.Sched.{Sched}
use co2018_assignment.Timer.{ended, System, timer_step}
use co2018_assignment.Os.{
  Core, Turn, next_slot, stopped, cpu_round, shared_machine, pcb_Schedulable,
}
use co2018_assignment.Os.Drained.{any, Drained, Emptied, cpu_round-Emptied, cpu_round-Drained}
use co2018_assignment.Os.Loading.{LdArgs, Ld}
use co2018_assignment.Os.Loading.Round.{Round, is_over, waits, queues}
use co2018_assignment.Os.Threads.{CpuThread, goes_on_running}
use co2018_assignment.Os.Threads.Unique.{Placed}
use co2018_assignment.Os.Simulation.{
  Program, is_stopped, MainPc, joining, stopping, joining_timer, returned,
}

-- This CPU, if it is there, has left its loop.
abbrev pub HasEnded : List (CpuThread Pcb) → ℕ → Type 0
HasEnded cpus i = (c : CpuThread Pcb) → get_elem? cpus i ≡ some c → c.running ≡ false

module _ (a : LdArgs) (n : ℕ) where
  -- The threads that `main` has joined.
  abbrev pub Joined : Program → MainPc → Type 0
  Joined x (joining k) = (k ≤ n) × ((i : ℕ) → i < k → HasEnded x.threads.cpus i)
  Joined x stopping = ((i : ℕ) → i < n → HasEnded x.threads.cpus i) × (x.threads.is_done ≡ true)
  Joined x joining_timer =
      ((i : ℕ) → i < n → HasEnded x.threads.cpus i) × (x.threads.is_done ≡ true)
  Joined x returned =
      ((i : ℕ) → i < n → HasEnded x.threads.cpus i)
      × (x.threads.is_done ≡ true)
      × (x.timer.timer ≡ ended)

  -- A CPU that has left its loop has no process, and since then the loader is done and nothing is
  -- queued.
  pub record Left (x : Program) (c : CpuThread Pcb) : Type 0 where
    pub idle : c.core.proc ≡ none
    pub is_done : x.threads.is_done ≡ true
    pub drained : Drained x.threads.sched

  pub record Endings (x : Program) : Type 0 where
    pub cpus : length x.threads.cpus ≡ n
    pub left :
        (i : ℕ) {c : CpuThread Pcb}
        → get_elem? x.threads.cpus i ≡ some c
        → c.running ≡ false
        → Left x c
    pub loader : x.threads.is_done ≡ true → pos_part a.num_processes ≤ x.ld.i
    pub main : Joined x x.main

  pub Joined-imp :
      (x y : Program) (pc : MainPc)
      → ((i : ℕ) → HasEnded x.threads.cpus i → HasEnded y.threads.cpus i)
      → (x.threads.is_done ≡ true → y.threads.is_done ≡ true)
      → (x.timer.timer ≡ ended → y.timer.timer ≡ ended)
      → Joined x pc
      → Joined y pc
  Joined-imp x y (joining k) f g h j = (j.0, λ i l. f i (j.1 i l))
  Joined-imp x y stopping f g h j = (λ i l. f i (j.0 i l), g j.1)
  Joined-imp x y joining_timer f g h j = (λ i l. f i (j.0 i l), g j.1)
  Joined-imp x y returned f g h j = (λ i l. f i (j.0 i l), g j.1, h j.2)

  -- A CPU that runs is not one of those that have ended.
  ended_set :
      (cpus : List (CpuThread Pcb)) (i : ℕ) (c' : CpuThread Pcb) {c : CpuThread Pcb}
      → get_elem? cpus i ≡ some c
      → c.running ≡ true
      → (k : ℕ) → HasEnded cpus k
      → HasEnded (set cpus i c') k
  ended_set cpus i c' {c} at runs k h c₁ at₁ = elim (set_cases cpus i k c' at₁) [
    | inl (eq, _) ↦
        absurd (true≢false (sym runs ∙ h c (subst (λ k. get_elem? cpus k ≡ some c) eq at)))
    | inr (_, same) ↦ h c₁ same
  ]

  -- Steps that leave the CPUs, the queues and `main` alone.
  pub Endings-moved :
      (x y : Program)
      → x.threads ≡ y.threads
      → x.ld ≡ y.ld
      → Joined y y.main
      → Endings x
      → Endings y
  Endings-moved x y threads ld main h = record {
    cpus = ap (λ t. length t.cpus) (sym threads) ∙ h.cpus;
    left = λ i {c} at off.
        let l : Left x c = h.left i (ap (λ t. get_elem? t.cpus i) threads ∙ at) off in
        record {
          idle = l.idle;
          is_done = ap (λ t. t.is_done) (sym threads) ∙ l.is_done;
          drained = subst (λ t. Drained t.sched) threads l.drained;
        };
    loader = λ d.
        subst (λ ld. pos_part a.num_processes ≤ ld.i) ld
          (h.loader (ap (λ t. t.is_done) threads ∙ d));
    main = main;
  }

  pub or_true : (b : Bool) {d : Bool} → d ≡ true → (b || d) ≡ true
  or_true true e = refl
  or_true false e = e

  -- Once `done` is set, or in the round that sets it, the loader queues nothing.
  pub over :
      {ld : Ld} {s : Sched Pcb} {turn : Turn} {ld' : Ld} {s' : Sched Pcb} {is_done : Bool}
      → Round a ld s turn ld' s'
      → (is_done ≡ true → pos_part a.num_processes ≤ ld.i)
      → (is_stopped turn || is_done) ≡ true
      → (pos_part a.num_processes ≤ ld'.i) × (s ≡ s')
  over (is_over le) h d = (le, refl)
  over (waits p pid f) h d = absurd (omega (arith, h d, f.more))
  over (queues p pid f e) h d = absurd (omega (arith, h d, f.more))

  pub timer_ended :
      (s : System) {t : System} → timer_step s ≡ some t → s.timer ≡ ended → t.timer ≡ ended
  unfolding timer_step
  timer_ended s {t} e q =
      absurd (none-ne-some _ (subst (λ pc. timer_step (record s { timer = pc }) ≡ some t) q e))

module _ (u : Uninit) (a : LdArgs) (time_slot : ℤ) (n : ℕ) (current : Sched Pcb)
    (w : Memphy × Memphy) where
  pub Endings-turn :
      (x : Program) (i : ℕ) {c : Core Pcb} {turn : Turn} {c' : Core Pcb} {s : Sched Pcb}
      {w' : Memphy × Memphy} (t : System) (log : List (ℕ × Pcb))
      → Placed (shared_machine u) time_slot any x.threads
      → Endings a n x
      → x.timer.timer ≡ t.timer
      → get_elem? x.threads.cpus i ≡ some (record { core = c; running = true })
      → cpu_round (shared_machine u) time_slot x.threads.is_done c x.threads.sched x.threads.world
        ≡ some (turn, c', s, w')
      → Endings a n (record x {
        timer = t;
        threads = record x.threads {
          cpus = set x.threads.cpus i (record { core = c'; running = goes_on_running turn });
          sched = s;
          world = w';
        };
        log = log;
      })
  Endings-turn x i {c} {turn} {c'} {s} {w'} t log placed h same at e = record {
    cpus = length-set x.threads.cpus i this ∙ h.cpus;
    left = λ k {c = c₁} at₁ off. elim (set_cases x.threads.cpus i k this at₁) [
      | inl (_, eq) ↦
          let stop : (c'.proc ≡ none) × (x.threads.is_done ≡ true) =
            r.stops (is_off turn (ap (λ c. c.running) eq ∙ off)) in
          record {
            idle = ap (λ c. c.core.proc) (sym eq) ∙ stop.0;
            is_done = stop.1;
            drained = r.drained stop.0;
          }
      | inr (_, old) ↦
          let l : Left a n x c₁ = h.left k old off in
          record {
            idle = l.idle;
            is_done = l.is_done;
            drained =
                cpu_round-Drained (shared_machine u) time_slot x.threads.is_done c x.threads.sched
                  x.threads.world c' l.drained e;
          }
    ];
    loader = h.loader;
    main =
        Joined-imp a n x after x.main (ended_set a n x.threads.cpus i this at refl) (λ d. d)
          (λ q. sym same ∙ q) h.main;
  }
    where
      this : CpuThread Pcb
      this = record { core = c'; running = goes_on_running turn }

      after : Program
      after = record x {
        timer = t;
        threads = record x.threads { cpus = set x.threads.cpus i this; sched = s; world = w' };
        log = log;
      }

      r : Emptied (shared_machine u) x.threads.is_done turn c' s
      r =
          cpu_round-Emptied (shared_machine u) time_slot x.threads.is_done c x.threads.sched
            x.threads.world placed.levels e

      is_off : (turn : Turn) → goes_on_running turn ≡ false → turn ≡ stopped
      is_off next_slot e = absurd (true≢false e)
      is_off stopped e = refl
