-- ===== src/Os/Idle.antt =====
-- A CPU that has no process.
use co2018_assignment.Base.{
  ℕ, zero, suc, ◌≡◌, refl, ◌∙◌, sym, Bool, none, some, inl, inr, List, [], ◌∷◌, ◌++◌,
}
use co2018_assignment.Base.Int.{ℤ}
use co2018_assignment.Queue.{Schedulable}
use co2018_assignment.Sched.{Sched, max_prio, get_proc}
use mathlib.Core.Option.{some-injective}
use co2018_assignment.Sched.Levels.{Levels, queue_at}
use co2018_assignment.Sched.Dispatch.{IsIdle, get_proc_lem}
use co2018_assignment.Os.{Machine, next_slot, choose, proceed, cpu_round, cpu_rounds, go_on}

split_ne {ℓ} : {A : Type ℓ} (x : A) (ys zs : List A) → [] ≡ ys ++ (x ∷ zs) → ⊥
split_ne x [] zs e = cc
split_ne x (y ∷ ys) zs e = cc

module _ {P : Type 0} ⦃o : Schedulable P⦄ where
  get_proc-IsIdle :
      {s : Sched P} {xss : List (List P)}
      → Levels s xss
      → IsIdle xss max_prio
      → get_proc s ≡ some (none, s)
  get_proc-IsIdle {s} {xss} l idle = elim (get_proc_lem l) [
    | inl (_, e) ↦ e
    | inr d ↦ absurd (
        split_ne d.chosen d.before d.after (
          some-injective _ _ (sym (idle d.level (queue_at d.level d.queued l d.at).3) ∙ d.at)
          ∙ d.highest.split))
  ]

  module _ {W : Type 0} (m : Machine P W) where
    pub cpu_round-IsIdle :
        (time_slot : ℤ) (is_done : Bool) (t : ℤ) (w : W) {s : Sched P} {xss : List (List P)}
        → Levels s xss
        → IsIdle xss max_prio
        → cpu_round m time_slot is_done (record { proc = none; time_left = t }) s w
          ≡ some (next_slot, record { proc = none; time_left = t }, s, w)
    unfolding cpu_round choose proceed
    cpu_round-IsIdle time_slot is_done t w l idle = rw (get_proc-IsIdle l idle) refl

    -- A CPU that has no process, while no level holds one, waits for the next time slot, in each of
    -- any number of rounds: that the loader is done does not stop it.
    pub idle_core_never_stops :
        (n : ℕ) (time_slot : ℤ) (is_done : Bool) (t : ℤ) (w : W) {s : Sched P} {xss : List (List P)}
        → Levels s xss
        → IsIdle xss max_prio
        → cpu_rounds m n time_slot is_done (record { proc = none; time_left = t }) s w
          ≡ some (next_slot, record { proc = none; time_left = t }, s, w)
    unfolding cpu_rounds go_on
    idle_core_never_stops zero time_slot is_done t w l idle = refl
    idle_core_never_stops (suc n) time_slot is_done t w l idle =
        rw (cpu_round-IsIdle time_slot is_done t w l idle)
          (idle_core_never_stops n time_slot is_done t w l idle)
