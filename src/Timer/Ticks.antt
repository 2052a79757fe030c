-- ===== src/Timer/Ticks.antt =====
-- What a step of the timer's thread in ossim_source_code/src/timer.c leaves alone: where the devices
-- are, and that `main` has stopped the timer.
use co2018_assignment.Base.{
  ℕ, ◌+◌, ◌≡◌, refl, sym, subst, ◌∙◌, Bool, true, false, ◌||◌, Option, none, some, List, get_elem?,
  set, if◌then◌else◌, eq_of_get_elem?-set, get_elem?-set_ne, lt_of_get_elem?,
}
use native.Mathlib.Decide.{ℕ_discrete}
use mathlib.Core.Option.{none-ne-some, some-injective}
use co2018_assignment.Timer.{
  Device, TimerPc, not_started, top, checking, bump, releasing, ended, System, timer_step, check,
  release, clear,
}

-- A device that is still where it was.
pub record Stayed (xs : List Device) (j : ℕ) (d' : Device) : Type 0 where
  pub device : Device
  pub at : get_elem? xs j ≡ some device
  pub pc : d'.pc ≡ device.pc
  pub slots : d'.slots ≡ device.slots
  pub fsh : d'.id.fsh ≡ device.id.fsh

pub record Kept (s t : System) : Type 0 where
  pub stop : t.timer_stop ≡ s.timer_stop
  pub devices : (j : ℕ) (d : Device) → get_elem? t.devices j ≡ some d → Stayed s.devices j d

Stayed-refl : (xs : List Device) (j : ℕ) (d : Device) → get_elem? xs j ≡ some d → Stayed xs j d
Stayed-refl xs j d e = record { device = d; at = e; pc = refl; slots = refl; fsh = refl }

cleared :
    (xs : List Device) (i : ℕ) (d : Device)
    → get_elem? xs i ≡ some d
    → (j : ℕ) (d' : Device) → get_elem? (set xs i (clear d)) j ≡ some d'
    → Stayed xs j d'
cleared xs i d at j d' e = elim (ℕ_discrete i j) [
  | yes eq ↦
      subst (λ k. Stayed xs k d') eq
        (subst (Stayed xs i) (eq_of_get_elem?-set xs i j (clear d) (lt_of_get_elem? xs i at) eq e)
          (record { device = d; at = at; pc = refl; slots = refl; fsh = refl }))
  | no ne ↦ Stayed-refl xs j d' (sym (get_elem?-set_ne xs i j (clear d) ne) ∙ e)
]

module _ (s : System) {t : System} where
  -- Only where the timer's thread stands changes.
  moves : (pc : TimerPc) → some (record s { timer = pc }) ≡ some t → Kept s t
  moves pc e =
      subst (Kept s) (some-injective _ _ e)
        (record { stop = refl; devices = Stayed-refl s.devices })

  check-Kept : (i fsh event : ℕ) (o : Option Device) → check s i fsh event o ≡ some t → Kept s t
  unfolding check
  check-Kept i fsh event none e = moves (bump fsh event) e
  check-Kept i fsh event (some d) e = go (d.id.done || d.id.fsh) e
    where
      go :
          (b : Bool)
          → (if b
              then some (record s {
                timer = checking (i + 1) (if d.id.fsh then fsh + 1 else fsh) (event + 1);
              })
              else none)
            ≡ some t
          → Kept s t
      go true e = moves (checking (i + 1) (if d.id.fsh then fsh + 1 else fsh) (event + 1)) e
      go false e = absurd (none-ne-some _ e)

  release-Kept :
      (i fsh event : ℕ) (o : Option Device)
      → get_elem? s.devices i ≡ o
      → release s i fsh event o ≡ some t
      → Kept s t
  unfolding release
  release-Kept i fsh event none at e = moves _ e
  release-Kept i fsh event (some d) at e =
      subst (Kept s) (some-injective _ _ e)
        (record { stop = refl; devices = cleared s.devices i d at })

elsewhere : (s : System) {t : System} (pc : TimerPc) → Kept (record s { timer = pc }) t → Kept s t
elsewhere s pc k = record { stop = k.stop; devices = k.devices }

-- A step of the timer's thread moves no device, and counts none of its slots.
pub timer_step-Kept : (s : System) {t : System} → timer_step s ≡ some t → Kept s t
unfolding timer_step
timer_step-Kept s {t} e = go s.timer e
  where
    go : (pc : TimerPc) → timer_step (record s { timer = pc }) ≡ some t → Kept s t
    go not_started e = absurd (none-ne-some _ e)
    go top e = moves s _ e
    go (checking i fsh event) e =
        elsewhere s (checking i fsh event)
          (check-Kept (record s { timer = checking i fsh event }) i fsh event _ e)
    go (bump fsh event) e =
        subst (Kept s) (some-injective _ _ e)
          (record { stop = refl; devices = Stayed-refl s.devices })
    go (releasing i fsh event) e =
        elsewhere s (releasing i fsh event)
          (release-Kept (record s { timer = releasing i fsh event }) i fsh event _ refl e)
    go ended e = absurd (none-ne-some _ e)
