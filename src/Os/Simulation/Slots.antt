-- ===== src/Os/Simulation/Slots.antt =====
-- In which slots the CPUs of ossim_source_code/src/os.c have run a process, and where it is now.
use co2018_assignment.Base.{
  ℕ, ◌+◌, ◌-◌, ◌≤◌, ◌<◌, ◌≡◌, inl, inr, sym, subst, ◌∙◌, Bool, some, List, get_elem?, set,
  set_cases, lt_of_get_elem?, get_elem?-set_self, arith,
}
use native.Mathlib.Decide.{ℕ_discrete, dec_lt}
use mathlib.Core.Option.{some-injective}
use co2018_assignment.Cpu.{Pcb}
use co2018_assignment.Timer.{Device}
use co2018_assignment.Os.Conserve.{held}
use co2018_assignment.Os.Threads.{CpuThread}
use co2018_assignment.Os.Threads.Unique.{on_cpus, on_cpus-get, on_cpus-get_two}
use co2018_assignment.Os.Simulation.After.{After, MovedOn, MoveOn}

module _ (keep : Pcb → Bool) (n : ℕ) where
  -- What a run in this slot leaves: the process that has run, if one process at most passes the test,
  -- runs again in a later slot only. `queued` and `known` count the queued ones and the loaded ones.
  pub record Past (devices : List Device) (cpus : List (CpuThread Pcb)) (queued known : ℕ)
      (slot : ℕ) : Type 0 where
    pub loaded : 1 ≤ known
    pub in_queue : 0 < queued → (j : ℕ) (d : Device) → get_elem? devices j ≡ some d → After slot d
    pub on_cpu :
        (i : ℕ) {c : CpuThread Pcb} {d : Device}
        → get_elem? cpus i ≡ some c
        → get_elem? devices (n - i) ≡ some d
        → 0 < held keep c.core.proc
        → After slot d

  -- Nothing but the devices moves on, and no more processes are queued.
  pub Past-later :
      (xs ys : List Device) (cpus : List (CpuThread Pcb)) (queued queued' known known' : ℕ)
      {slot : ℕ}
      → MoveOn xs ys
      → known ≤ known'
      → (1 ≤ known → queued' ≤ queued)
      → Past xs cpus queued known slot
      → Past ys cpus queued' known' slot
  Past-later xs ys cpus queued queued' known known' {slot} moves more fewer p = record {
    loaded = omega (arith, p.loaded, more);
    in_queue = λ l j d at.
        let m : MovedOn xs j d = moves j d at in
        m.later slot (p.in_queue (omega (arith, l, fewer p.loaded)) j m.device m.at);
    on_cpu = λ i {c} {d} at dev l.
        let m : MovedOn xs (n - i) d = moves (n - i) d dev in m.later slot (p.on_cpu i at m.at l);
  }

  module _ (xs ys : List Device) (moves : MoveOn xs ys) (cpus : List (CpuThread Pcb)) (i : ℕ)
      {c : CpuThread Pcb} (c' : CpuThread Pcb) {d : Device} (at : get_elem? cpus i ≡ some c)
      (dev : get_elem? xs (n - i) ≡ some d) (queued queued' known : ℕ)
      (balance : queued' + held keep c'.core.proc ≤ queued + held keep c.core.proc) where
    -- A CPU that takes or has the process runs it in a later slot than before.
    pub runs_later :
        {slot : ℕ}
        → Past xs cpus queued known slot
        → 0 < queued + held keep c.core.proc
        → After slot d
    runs_later p l = elim (dec_lt 0 queued) [
      | yes q ↦ p.in_queue q (n - i) d dev
      | no none_queued ↦ p.on_cpu i at dev (omega (arith, l, none_queued))
    ]

    -- After the round of a CPU.
    pub Past-turn :
        {slot : ℕ}
        → (After slot d → (j : ℕ) (d : Device) → get_elem? ys j ≡ some d → After slot d)
        → Past xs cpus queued known slot
        → Past ys (set cpus i c') queued' known slot
    Past-turn {slot} others p = record {
      loaded = p.loaded;
      in_queue = λ l j d' at'. others (runs_later p (omega (arith, l, balance))) j d' at';
      on_cpu = λ k {c = c₁} {d = d₁} at₁ dev₁ l. elim (set_cases cpus i k c' at₁) [
        | inl (eq, same) ↦
            others
              (runs_later p
                (omega (arith, balance, subst (λ c. 0 < held keep c.core.proc) (sym same) l)))
              (n - k) d₁ dev₁
        | inr (ne, same) ↦
            let m : MovedOn xs (n - k) d₁ = moves (n - k) d₁ dev₁ in
            m.later slot (p.on_cpu k same m.at l)
      ];
    }

    -- The run of that round itself.
    pub Past-new :
        {d' : Device}
        → queued' + on_cpus keep (set cpus i c') ≤ known
        → known ≤ 1
        → 0 < held keep c'.core.proc
        → After d.slots d'
        → get_elem? ys (n - i) ≡ some d'
        → Past ys (set cpus i c') queued' known d.slots
    Past-new {d'} placed once here late dev' = record {
      loaded = omega (arith, placed, mine, here);
      in_queue = λ l. absurd (omega (arith, l, placed, once, mine, here));
      on_cpu = λ k {c = c₁} {d = d₁} at₁ dev₁ l. elim (ℕ_discrete i k) [
        | yes eq ↦
            subst (After d.slots)
              (some-injective _ _
                (sym (subst (λ k. get_elem? ys (n - k) ≡ some d') eq dev') ∙ dev₁))
              late
        | no ne ↦ absurd (
            omega (
              arith,
              l,
              here,
              placed,
              once,
              on_cpus-get_two keep (set cpus i c') i k ne written at₁,
            ))
      ];
    }
      where
        written : get_elem? (set cpus i c') i ≡ some c'
        written = get_elem?-set_self cpus i c' (lt_of_get_elem? cpus i at)

        mine : held keep c'.core.proc ≤ on_cpus keep (set cpus i c')
        mine = on_cpus-get keep (set cpus i c') i written
