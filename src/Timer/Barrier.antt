-- ===== src/Timer/Barrier.antt =====
-- The time slots of ossim_source_code/src/timer.c: where the devices are while `_time` stands, and
-- when it moves.
use co2018_assignment.Base.{
  ℕ, suc, ◌+◌, ◌%◌, ◌^◌, ◌≡◌, ◌≢◌, ◌⊎◌, inl, inr, Bool, true, false, Option, none, some, ◌||◌,
  get_elem?, arith, refl, sym, ap, if◌then◌else◌, ◌∙◌, Bool-cases,
}
use native.Mathlib.Decide.{dec_lt}
use mathlib.Core.Bool.{true≢false}
use mathlib.Core.Option.{none-ne-some, some-injective}
use co2018_assignment.Timer.{
  DevicePc, working, waiting, detached, Device, Call, reports, resumes, act, TimerPc, not_started,
  top, checking, bump, releasing, ended, System, timer_step, current_time, stop_timer, free_devices,
  Step, ticks, acts, stops, frees, Reach, check, release,
}
use co2018_assignment.Timer.Invariant.{Held, Free, HeldAt, FreeAt, Place, Counts, Inv, passed}
use co2018_assignment.Timer.Reached.{Reach-Inv}

free_working :
    (turns : ℕ) (d : Device) (b : Bool) (p : DevicePc)
    → FreeAt turns d b p
    → p ≡ working
    → d.slots ≡ turns
free_working turns d b working h e = h.1
free_working turns d b waiting h e = cc
free_working turns d b detached h e = cc

held_working :
    (turns : ℕ) (d : Device) (b : Bool) (p : DevicePc) → HeldAt turns d b p → p ≡ working → ⊥
held_working turns d b working h e = h
held_working turns d b waiting h e = cc
held_working turns d b detached h e = cc

module _ (turns : ℕ) (stop : Bool) (j : ℕ) (d : Device) (works : d.pc ≡ working) where
  free : (t : ℕ) → Free t d → d.slots ≡ t
  free t h = free_working t d d.id.done d.pc h works

  held : Held turns d → ⊥
  held h = held_working turns d d.id.done d.pc h works

  pub slots_of_Place : (pc : TimerPc) → Place turns stop pc j d → d.slots ≡ passed turns pc
  slots_of_Place not_started h = free turns h
  slots_of_Place top h = free turns h
  slots_of_Place (checking i fsh event) h = free turns h.0
  slots_of_Place (bump fsh event) h = absurd (held h.0)
  slots_of_Place (releasing i fsh event) h = elim (dec_lt j i) [
    | yes l ↦ free (suc turns) (h.0 l)
    | no g ↦ absurd (held (h.1 (omega arith)))
  ]
  slots_of_Place ended h = free turns h.0

-- In every state that the threads reach, any two devices that are at work, between two calls of
-- `next_slot`, have the same number of slots behind them, and `_time` is that number modulo 2 ^ 64.
pub Reach-same_slot :
    (n : ℕ) {s : System} (j k : ℕ) {d d' : Device}
    → Reach n s
    → get_elem? s.devices j ≡ some d
    → get_elem? s.devices k ≡ some d'
    → d.pc ≡ working
    → d'.pc ≡ working
    → (d.slots ≡ d'.slots) × (current_time s ≡ d.slots % 2 ^ 64)
Reach-same_slot n {s} j k {d} {d'} r at_j at_k w w' =
    (a ∙ sym b, inv.time ∙ ap (λ x. x % 2 ^ 64) (sym a))
  where
    turns : ℕ
    turns = (Reach-Inv n r).0

    inv : Inv turns s
    inv = (Reach-Inv n r).1

    a : d.slots ≡ passed turns s.timer
    a = slots_of_Place turns s.timer_stop j d w s.timer (inv.devices j d at_j)

    b : d'.slots ≡ passed turns s.timer
    b = slots_of_Place turns s.timer_stop k d' w' s.timer (inv.devices k d' at_k)

module _ (s : System) {t : System} (i fsh event : ℕ) where
  check-time : (o : Option Device) → check s i fsh event o ≡ some t → s.time ≡ t.time
  unfolding check
  check-time none e = ap System.time (some-injective _ _ e)
  check-time (some d) e = go (d.id.done || d.id.fsh) e
    where
      go :
          (b : Bool)
          → (if b
              then some (record s {
                timer = checking (i + 1) (if d.id.fsh then fsh + 1 else fsh) (event + 1);
              })
              else none)
            ≡ some t
          → s.time ≡ t.time
      go true e = ap System.time (some-injective _ _ e)
      go false e = absurd (none-ne-some _ e)

  release-time : (o : Option Device) → release s i fsh event o ≡ some t → s.time ≡ t.time
  unfolding release
  release-time none e = ap System.time (some-injective _ _ e)
  release-time (some d) e = ap System.time (some-injective _ _ e)

held_lem :
    (turns : ℕ) (d : Device)
    → Held turns d
    → ((d.pc ≡ waiting) × (d.id.done ≡ true)) ⊎ (d.id.fsh ≡ true)
held_lem turns d h = go d.id.done d.pc h
  where
    go :
        (b : Bool) (p : DevicePc)
        → HeldAt turns d b p
        → ((p ≡ waiting) × (b ≡ true)) ⊎ (d.id.fsh ≡ true)
    go b working h = absurd h
    go true waiting h = inl (refl, refl)
    go false waiting h = absurd h
    go b detached h = inr h

tick-time :
    (turns j : ℕ) (s : System) {t : System} (d : Device) (pc : TimerPc)
    → timer_step (record s { timer = pc }) ≡ some t
    → s.time ≢ t.time
    → Place turns s.timer_stop pc j d
    → Held turns d
unfolding timer_step
tick-time turns j s d not_started e moved h = absurd (none-ne-some _ e)
tick-time turns j s d top e moved h = absurd (moved (ap System.time (some-injective _ _ e)))
tick-time turns j s d (checking i fsh event) e moved h = absurd (
    moved (
      check-time (record s { timer = checking i fsh event }) i fsh event (get_elem? s.devices i) e))
tick-time turns j s d (bump fsh event) e moved h = h.0
tick-time turns j s d (releasing i fsh event) e moved h = absurd (
    moved (
      release-time (record s { timer = releasing i fsh event }) i fsh event (get_elem? s.devices i)
        e))
tick-time turns j s d ended e moved h = absurd (none-ne-some _ e)

-- `_time` moves only while no device is at work: in the state before that step, each device has set
-- `done` and waits in `next_slot`, or is detached.
pub Step-time :
    (n j : ℕ) {s t : System} {d : Device}
    → Reach n s
    → Step s t
    → current_time s ≢ current_time t
    → get_elem? s.devices j ≡ some d
    → ((d.pc ≡ waiting) × (d.id.done ≡ true)) ⊎ (d.id.fsh ≡ true)
unfolding stop_timer free_devices
Step-time n j {s} {t} {d} r (ticks e) moved at_j =
    held_lem (Reach-Inv n r).0 d
      (tick-time (Reach-Inv n r).0 j s d s.timer e moved ((Reach-Inv n r).1.devices j d at_j))
Step-time n j r (acts _ _ _ _) moved at_j = absurd (moved refl)
Step-time n j r stops moved at_j = absurd (moved refl)
Step-time n j r (frees _ _) moved at_j = absurd (moved refl)

abbrev pub Delayed : Device → Type 0
Delayed d = (d.id.done ≡ false) × ((c : Call) × (d' : Device) × (act c d ≡ some d'))

-- A device that the timer waits for is not waiting itself.
delayed : (turns : ℕ) (d : Device) → Free turns d → (d.id.done || d.id.fsh) ≡ false → Delayed d
unfolding act
delayed turns d h e = go d.id.done d.pc h e
  where
    go :
        (b : Bool) (p : DevicePc)
        → FreeAt turns (record d { id = record d.id { done = b }; pc = p }) b p
        → (b || d.id.fsh) ≡ false
        → Delayed (record d { id = record d.id { done = b }; pc = p })
    go true p h e = absurd (true≢false e)
    go false working h e = (refl, (reports, _, refl))
    go false waiting h e = (refl, (resumes, _, refl))
    go false detached h e = absurd (true≢false (sym h ∙ e))

release_steps :
    (s : System) (i fsh event : ℕ) (o : Option Device)
    → (t : System) × (release s i fsh event o ≡ some t)
unfolding release
release_steps s i fsh event none = (_, refl)
release_steps s i fsh event (some d) = (_, refl)

passes : (b : Bool) (s : System) → b ≡ true → (t : System) × ((if b then some s else none) ≡ some t)
passes true s q = (s, refl)
passes false s q = absurd (true≢false (sym q))

module _ (turns : ℕ) (s : System) (i fsh event : ℕ) where
  check_steps :
      (o : Option Device)
      → get_elem? s.devices i ≡ o
      → ((d : Device) → o ≡ some d → Free turns d)
      → ((t : System) × (check s i fsh event o ≡ some t))
        ⊎ ((j : ℕ) × (d : Device) × (get_elem? s.devices j ≡ some d) × Delayed d)
  unfolding check
  check_steps none at h = inl (_, refl)
  check_steps (some d) at h = elim (Bool-cases (d.id.done || d.id.fsh)) [
    | inl q ↦ inl (passes (d.id.done || d.id.fsh) _ q)
    | inr q ↦ inr (i, d, at, delayed turns d (h d refl) q)
  ]

-- The threads never wait for one another in a circle: in every state that they reach before the
-- timer's thread has ended, that thread can step, or the device that it waits for can, which has not set `done` since the last slot.
pub Reach-progress :
    (n : ℕ) {s : System}
    → Reach n s
    → s.timer ≢ ended
    → ((t : System) × (timer_step s ≡ some t))
      ⊎ ((j : ℕ) × (d : Device) × (get_elem? s.devices j ≡ some d) × Delayed d)
unfolding timer_step check release
Reach-progress n {s} r going = go s.timer (Reach-Inv n r).1.counts going (Reach-Inv n r).1.devices
  where
    go :
        (pc : TimerPc)
        → Counts pc
        → pc ≢ ended
        → ((j : ℕ) (d : Device)
            → get_elem? s.devices j ≡ some d
            → Place (Reach-Inv n r).0 s.timer_stop pc j d)
        → ((t : System) × (timer_step (record s { timer = pc }) ≡ some t))
          ⊎ ((j : ℕ) × (d : Device) × (get_elem? s.devices j ≡ some d) × Delayed d)
    go not_started c ne h = absurd c
    go top c ne h = inl (_, refl)
    go (checking i fsh event) c ne h =
        check_steps (Reach-Inv n r).0 (record s { timer = checking i fsh event }) i fsh event _ refl
          (λ d at. (h i d at).0)
    go (bump fsh event) c ne h = inl (_, refl)
    go (releasing i fsh event) c ne h = inl (
        release_steps (record s { timer = releasing i fsh event }) i fsh event
          (get_elem? s.devices i))
    go ended c ne h = absurd (ne refl)
