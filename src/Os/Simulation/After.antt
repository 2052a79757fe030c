-- ===== src/Os/Simulation/After.antt =====
-- The slots of the devices of ossim_source_code/src/timer.c, while they move on.
use co2018_assignment.Base.{
  ℕ, suc, ◌+◌, ◌≤◌, ◌<◌, ◌≡◌, inl, inr, refl, sym, subst, Bool, true, false, some, List, get_elem?,
  set, set_cases, arith,
}
use native.Mathlib.Decide.{dec_lt}
use mathlib.Core.Option.{none-ne-some, some-injective}
use co2018_assignment.Timer.{
  DevicePc, working, waiting, detached, Device, Call, reports, resumes, detaches, act, TimerPc,
  not_started, top, checking, bump, releasing, ended, System, timer_step,
}
use co2018_assignment.Timer.Invariant.{Held, Free, HeldAt, FreeAt, Place, passed}
use co2018_assignment.Timer.Ticks.{Stayed, timer_step-Kept}
use co2018_assignment.Os.{Turn, next_slot, stopped}
use co2018_assignment.Os.Simulation.{last_call}

-- The next round of this device is in a slot after `slot`.
abbrev pub AfterAt : ℕ → ℕ → DevicePc → Type 0
AfterAt slot slots working = slot < slots
AfterAt slot slots waiting = slot ≤ slots
AfterAt slot slots detached = Unit

abbrev pub After : ℕ → Device → Type 0
After slot d = AfterAt slot d.slots d.pc

abbrev device : Bool → Bool → DevicePc → ℕ → Device
device b f p n = record { id = record { done = b; fsh = f }; pc = p; slots = n }

After-act :
    (slot : ℕ) (c : Call) (d : Device) {d' : Device}
    → act c d ≡ some d'
    → After slot d
    → After slot d'
unfolding act
After-act slot c d {d'} e h = go c d.id.done d.pc e h
  where
    go :
        (c : Call) (b : Bool) (p : DevicePc)
        → act c (device b d.id.fsh p d.slots) ≡ some d'
        → AfterAt slot d.slots p
        → After slot d'
    go reports b working e h =
        let late : slot ≤ d.slots = omega (arith, h) in
        subst (After slot) (some-injective _ _ e) late
    go detaches b working e h = subst (After slot) (some-injective _ _ e) tt
    go resumes b working e h = absurd (none-ne-some _ e)
    go resumes false waiting e h =
        let early : slot < d.slots + 1 = omega (arith, h) in
        subst (After slot) (some-injective _ _ e) early
    go resumes true waiting e h = absurd (none-ne-some _ e)
    go reports b waiting e h = absurd (none-ne-some _ e)
    go detaches b waiting e h = absurd (none-ne-some _ e)
    go reports b detached e h = absurd (none-ne-some _ e)
    go resumes b detached e h = absurd (none-ne-some _ e)
    go detaches b detached e h = absurd (none-ne-some _ e)

-- A thread that ends a round was at work, and its next round is in a later slot.
pub ends_round :
    (turn : Turn) (d : Device) {d' : Device}
    → act (last_call turn) d ≡ some d'
    → (d.pc ≡ working) × After d.slots d'
unfolding act
ends_round turn d {d'} e = go turn d.pc e
  where
    go :
        (turn : Turn) (p : DevicePc)
        → act (last_call turn) (record d { pc = p }) ≡ some d'
        → (p ≡ working) × After d.slots d'
    go next_slot working e =
        let late : d.slots ≤ d.slots = omega arith in
        (refl, subst (After d.slots) (some-injective _ _ e) late)
    go stopped working e = (refl, subst (After d.slots) (some-injective _ _ e) tt)
    go next_slot waiting e = absurd (none-ne-some _ e)
    go stopped waiting e = absurd (none-ne-some _ e)
    go next_slot detached e = absurd (none-ne-some _ e)
    go stopped detached e = absurd (none-ne-some _ e)

After-Free : (slot turns : ℕ) (d : Device) → slot < turns → Free turns d → After slot d
After-Free slot turns d l h = go d.id.done d.pc h
  where
    go : (b : Bool) (p : DevicePc) → FreeAt turns d b p → AfterAt slot d.slots p
    go b working h = omega (arith, l, h.1)
    go true waiting h = omega (arith, l, h.0)
    go false waiting h = omega (arith, l, h.0)
    go b detached h = tt

After-Held : (slot turns : ℕ) (d : Device) → slot ≤ turns → Held turns d → After slot d
After-Held slot turns d l h = go d.id.done d.pc h
  where
    go : (b : Bool) (p : DevicePc) → HeldAt turns d b p → AfterAt slot d.slots p
    go b working h = absurd h
    go true waiting h = omega (arith, l, h.0)
    go false waiting h = absurd h
    go b detached h = tt

-- No device has its next round in a slot that has passed.
pub After-Place :
    (slot turns : ℕ) (stop : Bool) (j : ℕ) (d : Device) (pc : TimerPc)
    → Place turns stop pc j d
    → slot < passed turns pc
    → After slot d
After-Place slot turns stop j d not_started h l = After-Free slot turns d l h
After-Place slot turns stop j d top h l = After-Free slot turns d l h
After-Place slot turns stop j d (checking i fsh event) h l = After-Free slot turns d l h.0
After-Place slot turns stop j d (bump fsh event) h l =
    After-Held slot turns d (omega (arith, l)) h.0
After-Place slot turns stop j d (releasing i fsh event) h l = elim (dec_lt j i) [
  | yes before ↦ After-Free slot (suc turns) d l (h.0 before)
  | no behind ↦ After-Held slot turns d (omega (arith, l)) (h.1 (omega arith))
]
After-Place slot turns stop j d ended h l = After-Free slot turns d l h.0

-- Each device of `ys` is one of `xs`, moved on.
pub record MovedOn (xs : List Device) (j : ℕ) (d' : Device) : Type 0 where
  pub device : Device
  pub at : get_elem? xs j ≡ some device
  pub later : (slot : ℕ) → After slot device → After slot d'

abbrev pub MoveOn : List Device → List Device → Type 0
MoveOn xs ys = (j : ℕ) (d' : Device) → get_elem? ys j ≡ some d' → MovedOn xs j d'

pub MoveOn-refl : (xs : List Device) → MoveOn xs xs
MoveOn-refl xs j d e = record { device = d; at = e; later = λ slot h. h }

pub MoveOn-act :
    (xs : List Device) (i : ℕ) (c : Call) {d d' : Device}
    → get_elem? xs i ≡ some d
    → act c d ≡ some d'
    → MoveOn xs (set xs i d')
MoveOn-act xs i c {d} {d'} at e j d'' at' = elim (set_cases xs i j d' at') [
  | inl (eq, same) ↦ record {
    device = d;
    at = subst (λ k. get_elem? xs k ≡ some d) eq at;
    later = λ slot h. subst (After slot) same (After-act slot c d e h);
  }
  | inr (ne, same) ↦ MoveOn-refl xs j d'' same
]

pub MoveOn-ticks : (s : System) {t : System} → timer_step s ≡ some t → MoveOn s.devices t.devices
MoveOn-ticks s {t} e j d' at =
    let k : Stayed s.devices j d' = (timer_step-Kept s e).devices j d' at in
    record {
      device = k.device;
      at = k.at;
      later = λ slot h.
          subst (λ p. AfterAt slot d'.slots p) (sym k.pc)
            (subst (λ n. AfterAt slot n k.device.pc) (sym k.slots) h);
    }
