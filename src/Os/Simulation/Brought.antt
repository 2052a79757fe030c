-- ===== src/Os/Simulation/Brought.antt =====
-- How many processes the loader of ossim_source_code/src/os.c has brought in, and how the next one
-- stands.
use co2018_assignment.Base.{
  ℕ, ◌+◌, ◌≤◌, ◌≡◌, refl, sym, subst, ◌∙◌, Option, none, some, List, ◌++◌, get_elem?, arith,
}
use co2018_assignment.Base.Int.{ℤ, pos_part}
use co2018_assignment.Memphy.{Memphy}
use co2018_assignment.Cpu.{Pcb, Uninit}
use co2018_assignment.Sched.{Sched}
use co2018_assignment.Os.{Turn}
use co2018_assignment.Os.Drained.{any}
use co2018_assignment.Os.Conserve.{count}
use co2018_assignment.Os.Config.{LdProcess}
use co2018_assignment.Os.Loading.{LdArgs, Ld}
use co2018_assignment.Os.Loading.Numbers.{IsNumbered, loaded_proc-IsNumbered}
use co2018_assignment.Os.Loading.Round.{Found, Round, is_over, waits, queues, ld_round-Round}
use co2018_assignment.Os.Simulation.{
  Program, Step, turns, loads_next, ticks, wakes, joins, joins_loader, stops, returns, Reach,
  starts, later, queued,
}
use co2018_assignment.Os.Simulation.Brings.{queued-same, queued-next}

-- At its first instruction.
abbrev pub IsUnrun : Option Pcb → Type 0
IsUnrun none = Unit
IsUnrun (some p) = p.pc ≡ 0

module _ (a : LdArgs) where
  pub record Brought (ld : Ld) (loaded : List Pcb) : Type 0 where
    pub few : count any loaded ≤ ld.i
    pub within : ld.i ≤ pos_part a.num_processes
    pub unrun : IsUnrun ld.proc

  pub Found-unrun :
      (ld : Ld) {e : LdProcess} (p : Pcb) (pid : ℕ)
      → IsUnrun ld.proc
      → Found a ld e p pid
      → p.pc ≡ 0
  Found-unrun ld {e} p pid h f = go ld.proc h (loaded_proc-IsNumbered a ld e ld.proc f.found)
    where
      go : (o : Option Pcb) → IsUnrun o → IsNumbered ld.avail_pid o p pid → p.pc ≡ 0
      go none h k = k.2
      go (some p₀) h k = k.2 ∙ h

  Brought-Round :
      (ld : Ld) (loaded : List Pcb) {turn : Turn} {ld' : Ld} {s s' : Sched Pcb}
      → Brought ld loaded
      → Round a ld s turn ld' s'
      → Brought ld' (queued a ld ld' (get_elem? a.ld_processes ld.i) ++ loaded)
  Brought-Round ld loaded h (is_over _) =
      subst (λ l. Brought ld (l ++ loaded))
        (sym (queued-same a ld ld (get_elem? a.ld_processes ld.i) refl)) h
  Brought-Round ld loaded h (waits p pid f) =
      subst (λ l. Brought (next ld) (l ++ loaded))
        (sym (queued-same a ld (next ld) (get_elem? a.ld_processes ld.i) refl))
        (record { few = h.few; within = h.within; unrun = Found-unrun ld p pid h.unrun f })
    where
      next : Ld → Ld
      next ld = record { i = ld.i; proc = some p; avail_pid = pid }
  Brought-Round ld loaded h (queues p pid f _) =
      subst (λ l. Brought (next ld) (l ++ loaded))
        (sym (queued-next a ld (next ld) (λ e. omega (arith, e)) f.entry f.found))
        (record { few = omega (arith, h.few); within = omega (arith, f.more); unrun = tt })
    where
      next : Ld → Ld
      next ld = record { i = ld.i + 1; proc = none; avail_pid = pid }

  module _ (u : Uninit) (time_slot : ℤ) (n : ℕ) (current : Sched Pcb) (w : Memphy × Memphy) where
    Brought-Step :
        {x y : Program}
        → Brought x.ld x.threads.loaded
        → Step u a time_slot n x y
        → Brought y.ld y.threads.loaded
    Brought-Step h (turns i at e dev acted) = h
    Brought-Step {x} h (loads_next e dev acted) =
        Brought-Round x.ld x.threads.loaded h (ld_round-Round a x.ld _ x.threads.sched e)
    Brought-Step h (ticks e) = h
    Brought-Step h (wakes j dev acted) = h
    Brought-Step h (joins i m at r) = h
    Brought-Step h (joins_loader m d) = h
    Brought-Step h (stops m) = h
    Brought-Step h (returns m e) = h

    pub Reach-Brought :
        {x : Program} → Reach u a time_slot n current w x → Brought x.ld x.threads.loaded
    Reach-Brought starts = record { few = omega arith; within = omega arith; unrun = tt }
    Reach-Brought (later r step) = Brought-Step (Reach-Brought r) step
