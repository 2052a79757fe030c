-- ===== src/Timer/Invariant.antt =====
-- What holds of every reachable state of the threads of ossim_source_code/src/timer.c. `turns` is the
-- number of turns of the timer that are complete, of which `_time` is the remainder.
use co2018_assignment.Base.{
  ℕ, suc, ◌%◌, ◌^◌, ◌≤◌, ◌<◌, ◌≡◌, ◌⊎◌, inl, inr, Bool, true, false, some, List, length, get_elem?,
  set, arith, refl, sym, subst, ◌∙◌,
}
use co2018_assignment.Base.{lt_of_get_elem?, get_elem?-set_ne, length-set, eq_of_get_elem?-set}
use native.Mathlib.Decide.{ℕ_discrete, dec_lt}
use mathlib.Core.Option.{none-ne-some, some-injective}
use co2018_assignment.Timer.{
  DevicePc, working, waiting, detached, Device, Call, reports, resumes, detaches, act, TimerPc,
  not_started, top, checking, bump, releasing, ended, System,
}

abbrev pub IsGone : Device → Type 0
IsGone d = d.id.fsh ≡ true

-- The device has called `next_slot` in this turn and waits, or is detached.
abbrev pub HeldAt : ℕ → Device → Bool → DevicePc → Type 0
HeldAt turns d _ working = ⊥
HeldAt turns d true waiting = (d.slots ≡ turns) × (d.id.fsh ≡ false)
HeldAt turns d false waiting = ⊥
HeldAt turns d _ detached = IsGone d

abbrev pub Held : ℕ → Device → Type 0
Held turns d = HeldAt turns d d.id.done d.pc

-- The device may be anywhere in this turn.
abbrev pub FreeAt : ℕ → Device → Bool → DevicePc → Type 0
FreeAt turns d done working = (done ≡ false) × (d.slots ≡ turns) × (d.id.fsh ≡ false)
FreeAt turns d true waiting = (d.slots ≡ turns) × (d.id.fsh ≡ false)
FreeAt turns d false waiting = (suc d.slots ≡ turns) × (d.id.fsh ≡ false)
FreeAt turns d _ detached = IsGone d

abbrev pub Free : ℕ → Device → Type 0
Free turns d = FreeAt turns d d.id.done d.pc

-- What the timer's place says of the device at `j`.
abbrev pub Place : ℕ → Bool → TimerPc → ℕ → Device → Type 0
Place turns stop not_started j d = Free turns d
Place turns stop top j d = Free turns d
Place turns stop (checking i fsh event) j d =
    Free turns d × (j < i → Held turns d) × (fsh ≡ event → j < i → IsGone d)
Place turns stop (bump fsh event) j d = Held turns d × (fsh ≡ event → IsGone d)
Place turns stop (releasing i fsh event) j d =
    (j < i → Free (suc turns) d) × (i ≤ j → Held turns d) × (fsh ≡ event → IsGone d)
Place turns stop ended j d = Free turns d × ((stop ≡ true) ⊎ IsGone d)

-- The counts of the timer's thread: no more devices are detached than were seen.
abbrev pub Counts : TimerPc → Type 0
Counts (checking i fsh event) = (event ≡ i) × (fsh ≤ event)
Counts (bump fsh event) = fsh ≤ event
Counts (releasing i fsh event) = fsh ≤ event
Counts not_started = ⊥
Counts top = Unit
Counts ended = Unit

-- `_time` is behind the turns by one between `_time++` and the test of the loop.
abbrev pub passed : ℕ → TimerPc → ℕ
passed turns (releasing i fsh event) = suc turns
passed turns _ = turns

abbrev pub Each : (ℕ → Device → Type 0) → List Device → Type 0
Each R xs = (j : ℕ) (d : Device) → get_elem? xs j ≡ some d → R j d

pub record Inv (turns : ℕ) (s : System) : Type 0 where
  pub time : s.time ≡ passed turns s.timer % 2 ^ 64
  pub counts : Counts s.timer
  pub devices : Each (Place turns s.timer_stop s.timer) s.devices

-- The list after a write: what holds of the device that was written, and of each other one.
pub Each-set :
    (R S : ℕ → Device → Type 0) (xs : List Device) (i : ℕ) (d' : Device)
    → Each R xs
    → ((j : ℕ) (d : Device) → (i ≡ j → ⊥) → R j d → S j d)
    → (i < length xs → S i d')
    → Each S (set xs i d')
Each-set R S xs i d' before others here j d e = elim (ℕ_discrete i j) [
  | yes eq ↦
      let i_lt : i < length xs = omega (arith, lt_of_get_elem? _ j e, length-set xs i d', eq) in
      subst (λ k. S k d) eq (subst (S i) (eq_of_get_elem?-set xs i j d' i_lt eq e) (here i_lt))
  | no ne ↦ others j d ne (before j d (sym (get_elem?-set_ne xs i j d' ne) ∙ e))
]

abbrev device : Bool → Bool → DevicePc → ℕ → Device
device b f p n = record { id = record { done = b; fsh = f }; pc = p; slots = n }

Free-act :
    (turns : ℕ) (b f : Bool) (p : DevicePc) (n : ℕ) (c : Call) {d' : Device}
    → FreeAt turns (device b f p n) b p
    → act c (device b f p n) ≡ some d'
    → Free turns d' × (f ≡ false)
unfolding act
Free-act turns b f working n reports h e =
    (subst (Free turns) (some-injective _ _ e) (h.1, h.2), h.2)
Free-act turns b f working n resumes h e = absurd (none-ne-some _ e)
Free-act turns b f working n detaches h e = (subst (Free turns) (some-injective _ _ e) refl, h.2)
Free-act turns b f waiting n reports h e = absurd (none-ne-some _ e)
Free-act turns b f waiting n detaches h e = absurd (none-ne-some _ e)
Free-act turns true f waiting n resumes h e = absurd (none-ne-some _ e)
Free-act turns false f waiting n resumes h e =
    (subst (Free turns) (some-injective _ _ e) (refl, omega (arith, h.0), h.1), h.1)
Free-act turns b f detached n reports h e = absurd (none-ne-some _ e)
Free-act turns b f detached n resumes h e = absurd (none-ne-some _ e)
Free-act turns b f detached n detaches h e = absurd (none-ne-some _ e)

Held-act :
    (turns : ℕ) (b f : Bool) (p : DevicePc) (n : ℕ) (c : Call) {d' : Device}
    → HeldAt turns (device b f p n) b p
    → act c (device b f p n) ≡ some d'
    → ⊥
unfolding act
Held-act turns b f working n c h e = h
Held-act turns true f waiting n reports h e = absurd (none-ne-some _ e)
Held-act turns true f waiting n resumes h e = absurd (none-ne-some _ e)
Held-act turns true f waiting n detaches h e = absurd (none-ne-some _ e)
Held-act turns false f waiting n c h e = h
Held-act turns b f detached n reports h e = absurd (none-ne-some _ e)
Held-act turns b f detached n resumes h e = absurd (none-ne-some _ e)
Held-act turns b f detached n detaches h e = absurd (none-ne-some _ e)

-- Where the timer stands says the same of a device after its own step.
pub Place-act :
    (turns : ℕ) (stop : Bool) (pc : TimerPc) (j : ℕ) (c : Call) (d : Device) {d' : Device}
    → Place turns stop pc j d
    → act c d ≡ some d'
    → Place turns stop pc j d'
Place-act turns stop pc j c d {d'} h e = go pc h
  where
    free : (t : ℕ) → Free t d → Free t d' × (d.id.fsh ≡ false)
    free t f = Free-act t d.id.done d.id.fsh d.pc d.slots c f e

    held : Held turns d → ⊥
    held f = Held-act turns d.id.done d.id.fsh d.pc d.slots c f e

    here : d.id.fsh ≡ true → d.id.fsh ≡ false → ⊥
    here g f = cc

    go : (pc : TimerPc) → Place turns stop pc j d → Place turns stop pc j d'
    go not_started h = (free turns h).0
    go top h = (free turns h).0
    go (checking i fsh event) h =
        ((free turns h.0).0, λ l. absurd (held (h.1 l)), λ q l. absurd (held (h.1 l)))
    go (bump fsh event) h = absurd (held h.0)
    go (releasing i fsh event) h = elim (dec_lt j i) [
      | yes l ↦
          let f : Free (suc turns) d' × (d.id.fsh ≡ false) = free (suc turns) (h.0 l) in
          (λ _. f.0, λ g. absurd (held (h.1 g)), λ q. absurd (here (h.2 q) f.1))
      | no g ↦ absurd (held (h.1 (omega arith)))
    ]
    go ended h = (
      (free turns h.0).0,
      elim h.1 [ inl s ↦ inl s | inr g ↦ absurd (here g (free turns h.0).1) ],
    )
