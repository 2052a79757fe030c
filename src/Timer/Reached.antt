-- ===== src/Timer/Reached.antt =====
-- The invariant holds in every state that the threads of ossim_source_code/src/timer.c reach.
use co2018_assignment.Base.{ℕ, zero, suc, ◌≡◌, inl, Bool, true, length, refl, sym, subst, ◌∙◌}
use co2018_assignment.Base.{replicate, length-replicate, get_elem?-replicate, ap}
use mathlib.Core.Option.{none-ne-some}
use co2018_assignment.Timer.{
  Device, TimerPc, not_started, top, checking, bump, releasing, ended, System, start_timer,
  attached, attach_event, stop_timer, free_devices, Step, ticks, acts, stops, frees, Reach, starts,
  later, fresh, no_timer,
}
use co2018_assignment.Timer.Invariant.{Free, Place, Inv, Each-set, Place-act}
use co2018_assignment.Timer.Turns.{Next, Inv-timer}

-- The steps of any thread.
Inv-Step : (turns : ℕ) {s t : System} → Inv turns s → Step s t → Next t
unfolding stop_timer free_devices
Inv-Step turns {s} inv (ticks e) = Inv-timer turns s inv e
Inv-Step turns {s} inv (acts j c {d} {d'} at e) = (
  turns,
  record {
    time = inv.time;
    counts = inv.counts;
    devices =
        Each-set (Place turns s.timer_stop s.timer) (Place turns s.timer_stop s.timer) s.devices j
          d' inv.devices (λ _ _ _ p. p)
          (λ _. Place-act turns s.timer_stop s.timer j c d (inv.devices j d at) e);
  },
)
Inv-Step turns {s} inv stops = (
  turns,
  record {
    time = inv.time;
    counts = inv.counts;
    devices = λ j d g. stopped s.timer_stop j d s.timer (inv.devices j d g);
  },
)
  where
    stopped :
        (b : Bool) (j : ℕ) (d : Device) (pc : TimerPc)
        → Place turns b pc j d
        → Place turns true pc j d
    stopped b j d not_started p = p
    stopped b j d top p = p
    stopped b j d (checking i fsh event) p = p
    stopped b j d (bump fsh event) p = p
    stopped b j d (releasing i fsh event) p = p
    stopped b j d ended p = (p.0, inl refl)
Inv-Step turns {s} inv (frees _ _) = (
  turns,
  record { time = inv.time; counts = inv.counts; devices = λ j d g. absurd (none-ne-some _ g) },
)

attached-lem : (n : ℕ) → attached n ≡ record no_timer { devices = replicate n fresh }
unfolding attach_event
attached-lem zero = refl
attached-lem (suc n) = ap (λ s. (attach_event s).1) (attached-lem n)

pub length-attached : (n : ℕ) → length (start_timer (attached n)).devices ≡ n
unfolding start_timer
length-attached n = ap (λ s. length s.devices) (attached-lem n) ∙ length-replicate n fresh

Inv-start : (n : ℕ) → Inv 0 (start_timer (record no_timer { devices = replicate n fresh }))
unfolding start_timer
Inv-start n = record {
  time = refl;
  counts = tt;
  devices = λ j d g. subst (Free 0) (get_elem?-replicate n j fresh g) (refl, refl, refl);
}

pub Reach-Inv : (n : ℕ) {s : System} → Reach n s → Next s
Reach-Inv n starts = (0, subst (λ s. Inv 0 (start_timer s)) (sym (attached-lem n)) (Inv-start n))
Reach-Inv n (later r step) = Inv-Step (Reach-Inv n r).0 (Reach-Inv n r).1 step
