-- ===== src/Os/Simulation/Turns.antt =====
-- The round of a CPU of ossim_source_code/src/os.c, for the runs of one process.
use co2018_assignment.Base.{
  ℕ, suc, ◌+◌, ◌-◌, ◌≤◌, ◌<◌, ◌≡◌, if◌then◌else◌, refl, ap, subst, Bool, true, Option, none, some,
  List, ◌++◌, get_elem?, get_elem?-set_self, lt_of_get_elem?, set, All-imp, arith,
}
use co2018_assignment.Base.Int.{ℤ}
use co2018_assignment.Memphy.{Memphy}
use co2018_assignment.Cpu.{Pcb, Uninit}
use co2018_assignment.Sched.{Sched}
use co2018_assignment.Timer
use co2018_assignment.Timer.{Device, DevicePc, working, act, stop_timer, free_devices, System}
use co2018_assignment.Timer.Invariant.{Inv}
use co2018_assignment.Timer.Reached.{Reach-Inv}
use co2018_assignment.Timer.Barrier.{slots_of_Place}
use co2018_assignment.Os.{Core, Turn, cpu_round, shared_machine, pcb_Schedulable}
use co2018_assignment.Os.Conserve.{held, count, total}
use co2018_assignment.Os.Loading.{LdArgs}
use co2018_assignment.Os.Threads.{CpuThread, goes_on_running}
use co2018_assignment.Os.Threads.Places.{Within, IsKept, cpu_round-Ends}
use co2018_assignment.Os.Threads.Unique.{on_cpus, on_cpus-set}
use co2018_assignment.Os.Simulation.{Program, ran, last_call}
use co2018_assignment.Os.Simulation.After.{
  After, AfterAt, MovedOn, MoveOn, MoveOn-act, After-Place, ends_round,
}
use co2018_assignment.Os.Simulation.Runs.{Ordered, Runs, Slots}
use co2018_assignment.Os.Simulation.Slots.{Past-turn, Past-new, runs_later}

module _ (u : Uninit) (a : LdArgs) (time_slot : ℤ) (n : ℕ) (keep : Pcb → Bool) (x : Program)
    (h : Slots keep n x) (once : count keep x.threads.loaded ≤ 1)
    (timer : Timer.Reach (suc n) x.timer) (fixed : IsKept (shared_machine u) keep) (i : ℕ)
    {c : Core Pcb} {turn : Turn} {c' : Core Pcb} {s : Sched Pcb} {w : Memphy × Memphy}
    {d d' : Device} (at : get_elem? x.threads.cpus i ≡ some (record { core = c; running = true }))
    (e : cpu_round (shared_machine u) time_slot x.threads.is_done c x.threads.sched x.threads.world
      ≡ some (turn, c', s, w))
    (dev : get_elem? x.timer.devices (n - i) ≡ some d)
    (acted : act (last_call turn) d ≡ some d') where
  abbrev this : CpuThread Pcb
  this = record { core = c'; running = goes_on_running turn }

  abbrev devices : List Device
  devices = set x.timer.devices (n - i) d'

  abbrev cpus : List (CpuThread Pcb)
  cpus = set x.threads.cpus i this

  abbrev known : ℕ
  known = count keep x.threads.loaded

  r : Within (shared_machine u) keep s (held keep c'.proc) (total keep h.lists + held keep c.proc)
  r =
      cpu_round-Ends (shared_machine u) keep time_slot x.threads.is_done c x.threads.sched
        x.threads.world h.lists fixed h.levels turn c' s w e

  moves : MoveOn x.timer.devices devices
  moves = MoveOn-act x.timer.devices (n - i) (last_call turn) dev acted

  inv : Inv (Reach-Inv (suc n) timer).0 x.timer
  inv = (Reach-Inv (suc n) timer).1

  before : (slot : ℕ) → After slot d → slot < d.slots
  before slot l = subst (λ p. AfterAt slot d.slots p) (ends_round turn d acted).0 l

  -- The other devices are not behind the one at work.
  others :
      (slot : ℕ)
      → After slot d
      → (j : ℕ) (d₁ : Device) → get_elem? devices j ≡ some d₁
      → After slot d₁
  others slot l j d₁ at₁ = m.later slot (
      After-Place slot (Reach-Inv (suc n) timer).0 x.timer.timer_stop j m.device x.timer.timer
        (inv.devices j m.device m.at)
        (omega (
          arith,
          before slot l,
          slots_of_Place (Reach-Inv (suc n) timer).0 x.timer.timer_stop (n - i) d
              (ends_round turn d acted).0 x.timer.timer (inv.devices (n - i) d dev),
        )))
    where
      m : MovedOn x.timer.devices j d₁
      m = moves j d₁ at₁

  placed : total keep r.lists + on_cpus keep cpus ≤ known
  placed = omega (arith, r.balance, h.placed, on_cpus-set keep x.threads.cpus i this at)

  old-Runs : Runs keep n devices cpus (total keep r.lists) known x.log
  old-Runs =
      All-imp _ _ x.log
        (λ e p k.
          Past-turn keep n x.timer.devices devices moves x.threads.cpus i this at dev
            (total keep h.lists) (total keep r.lists) known r.balance (others e.0) (p k))
        h.runs

  here : (p : Pcb) → c'.proc ≡ some p → keep p ≡ true → 0 < held keep c'.proc
  here p q k = omega (arith, ap (held keep) q, ap {B = ℕ} (λ b. if b then 1 else 0) k)

  runs :
      (o : Option Pcb)
      → c'.proc ≡ o
      → Runs keep n devices cpus (total keep r.lists) known (ran d.slots o ++ x.log)
  runs none q = old-Runs
  runs (some p) q = (
    λ k.
        Past-new keep n x.timer.devices devices moves x.threads.cpus i this at dev
          (total keep h.lists) (total keep r.lists) known r.balance placed once (here p q k)
          (ends_round turn d acted).1
          (get_elem?-set_self x.timer.devices (n - i) d'
            (lt_of_get_elem? x.timer.devices (n - i) dev)),
    old-Runs,
  )

  ordered : (o : Option Pcb) → c'.proc ≡ o → Ordered keep (ran d.slots o ++ x.log)
  ordered none q = h.ordered
  ordered (some p) q = (
    λ k.
        All-imp _ _ x.log
          (λ e past k'. before e.0 (
            runs_later keep n x.timer.devices devices moves x.threads.cpus i this at dev
              (total keep h.lists) (total keep r.lists) known r.balance (past k')
              (omega (arith, here p q k, r.balance))))
          h.runs,
    h.ordered,
  )

  pub Slots-turn : Slots keep n (record x {
    timer = record x.timer { devices = devices };
    threads = record x.threads { cpus = cpus; sched = s; world = w };
    log = ran d.slots c'.proc ++ x.log;
  })
  Slots-turn = record {
    lists = r.lists;
    levels = r.levels;
    placed = placed;
    ordered = ordered c'.proc refl;
    runs = runs c'.proc refl;
  }
