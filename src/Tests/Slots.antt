-- ===== src/Tests/Slots.antt =====
-- Two devices and the timer of ossim_source_code/src/timer.c, step by step.
use co2018_assignment.Base.{
  ℕ, zero, suc, ◌%◌, ◌^◌, ◌≡◌, ◌⊎◌, Bool, true, false, some, [], ◌∷◌, get_elem?, replicate, ap, sym,
  refl,
}
use mathlib.Core.Option.{none-ne-some, some-injective}
use co2018_assignment.Timer.{
  Device, DevicePc, TimerPc, no_timer, working, waiting, detached, act, reports, resumes, detaches,
  top, bump, ended, System, start_timer, attach_event, timer_step, current_time, ticks, acts, Reach,
  starts, later,
}
use co2018_assignment.Timer.Barrier.{Delayed, Reach-same_slot, Reach-progress}
use co2018_assignment.Timer.Ending.{timer_steps, Reach-timer_steps}

-- Two devices at work in slot 0, and both after their calls of `next_slot`.
abbrev started : System
started = record no_timer {
  devices =
      replicate 2 (record { id = record { done = false; fsh = false }; pc = working; slots = 0 });
  timer_started = true;
  timer = top;
}

started-Reach : Reach 2 started
unfolding start_timer attach_event
started-Reach = starts

abbrev worker : ℕ → Bool → DevicePc → Device
worker n d p = record { id = record { done = d; fsh = false }; pc = p; slots = n }

abbrev system : ℕ → TimerPc → Device → Device → System
system time pc a b = record started { time = time; timer = pc; devices = a ∷ b ∷ [] }

both_wait : Reach 2 (system 0 top (worker 0 true waiting) (worker 0 true waiting))
unfolding act
both_wait = later (later started-Reach (acts 0 reports refl refl)) (acts 1 reports refl refl)

before_bump : Reach 2 (system 0 (bump 0 2) (worker 0 true waiting) (worker 0 true waiting))
unfolding timer_step
before_bump =
    later (later (later (later both_wait (ticks refl)) (ticks refl)) (ticks refl)) (ticks refl)

next_top : Reach 2 (system 1 top (worker 0 false waiting) (worker 0 false waiting))
unfolding timer_step
next_top =
    later (later (later (later before_bump (ticks refl)) (ticks refl)) (ticks refl)) (ticks refl)

slot_one : Reach 2 (system 1 top (worker 1 false working) (worker 1 false working))
unfolding act
slot_one = later (later next_top (acts 0 resumes refl refl)) (acts 1 resumes refl refl)

abbrev gone : Device
gone = record { id = record { done = false; fsh = true }; pc = detached; slots = 1 }

both_gone : Reach 2 (system 1 top gone gone)
unfolding act
both_gone = later (later slot_one (acts 0 detaches refl refl)) (acts 1 detaches refl refl)

abbrev at_work : Device
at_work = worker 1 false working

Reach-same_slot_example :
    (at_work.slots ≡ at_work.slots)
    × (current_time (system 1 top at_work at_work) ≡ at_work.slots % 2 ^ 64)
Reach-same_slot_example = Reach-same_slot 2 0 1 slot_one refl refl refl refl

Reach-progress_example :
    ((t : System) × (timer_step (system 1 top gone gone) ≡ some t))
    ⊎ ((j : ℕ) × (d : Device) × (get_elem? (gone ∷ gone ∷ []) j ≡ some d) × Delayed d)
Reach-progress_example = Reach-progress 2 both_gone (λ e. cc)

Reach-timer_steps_example : (timer_steps 16 (system 1 top gone gone)).timer ≡ ended
Reach-timer_steps_example = Reach-timer_steps 2 both_gone all_gone
  where
    all_gone : (j : ℕ) (d : Device) → get_elem? (gone ∷ gone ∷ []) j ≡ some d → d.id.fsh ≡ true
    all_gone zero d e = ap (λ x. x.id.fsh) (sym (some-injective _ _ e))
    all_gone (suc zero) d e = ap (λ x. x.id.fsh) (sym (some-injective _ _ e))
    all_gone (suc (suc j)) d e = absurd (none-ne-some _ e)
