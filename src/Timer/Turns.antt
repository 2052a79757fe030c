-- ===== src/Timer/Turns.antt =====
-- The steps of `timer_routine` in ossim_source_code/src/timer.c keep the invariant.
use co2018_assignment.Base.{
  ℕ, suc, ◌+◌, ◌<◌, ◌≡◌, inl, inr, Bool, true, false, ◌||◌, Option, none, some, List, length,
  get_elem?, arith, refl, sym, subst, ◌∙◌,
}
use co2018_assignment.Base.{◌==◌, get_elem?_of_lt, if◌then◌else◌, ap, lt_of_get_elem?}
use native.Mathlib.Decide.{ℕ_discrete, dec_lt}
use mathlib.Core.Bool.{true≢false}
use mathlib.Core.Option.{none-ne-some, some-injective}
use co2018_assignment.Timer.{
  DevicePc, working, waiting, detached, Device, TimerPc, not_started, top, checking, bump,
  releasing, ended, System, timer_step, check, release, clear,
}
use co2018_assignment.Timer.Invariant.{IsGone, Held, Free, HeldAt, FreeAt, Place, Inv, Each-set}

pub lt_of_none :
    (xs : List Device) {i j : ℕ} {d : Device}
    → get_elem? xs i ≡ none
    → get_elem? xs j ≡ some d
    → j < i
lt_of_none xs {i} {j} at_i at_j = elim (dec_lt i (length xs)) [
  | yes l ↦ absurd (none-ne-some _ (sym at_i ∙ (get_elem?_of_lt xs i l).1))
  | no g ↦ omega (arith, g, lt_of_get_elem? xs j at_j)
]

abbrev pub Next : System → Type 0
Next t = (turns : ℕ) × Inv turns t

abbrev at_pc : System → TimerPc → System
at_pc s pc = record s { timer = pc }

-- What held of the cells before `i` holds of the cells before `i + 1`.
below_suc :
    (R : Device → Type 0) (xs : List Device) {i j : ℕ} {d d' : Device}
    → get_elem? xs i ≡ some d
    → get_elem? xs j ≡ some d'
    → R d
    → (j < i → R d')
    → j < i + 1
    → R d'
below_suc R xs {i} {j} {d} {d'} at_i at_j here below l = elim (ℕ_discrete i j) [
  | yes eq ↦ subst R (some-injective _ _ (sym at_i ∙ (ap (get_elem? xs) eq ∙ at_j))) here
  | no ne ↦ below (omega (arith, ne))
]

-- The test of the inner loop.
seen : (turns : ℕ) (d : Device) → Free turns d → (d.id.done || d.id.fsh) ≡ true → Held turns d
seen turns d h e = go d.id.done d.pc h e
  where
    go :
        (b : Bool) (p : DevicePc) → FreeAt turns d b p → (b || d.id.fsh) ≡ true → HeldAt turns d b p
    go true working h e = absurd (true≢false h.0)
    go false working h e = absurd (true≢false (sym e ∙ h.2))
    go true waiting h e = h
    go false waiting h e = absurd (true≢false (sym e ∙ h.1))
    go b detached h e = h

released : (turns : ℕ) (d : Device) → Held turns d → Free (suc turns) (clear d)
released turns d h = go d.id.done d.pc h
  where
    go : (b : Bool) (p : DevicePc) → HeldAt turns d b p → FreeAt (suc turns) (clear d) false p
    go b working h = absurd h
    go true waiting h = (omega (arith, h.0), h.1)
    go false waiting h = absurd h
    go b detached h = h

module _ (turns : ℕ) (s : System) {t : System} where
  top-Next : Inv turns (at_pc s top) → timer_step (at_pc s top) ≡ some t → Next t
  unfolding timer_step
  top-Next inv e = subst Next (some-injective _ _ e) (turns, go s.timer_stop refl)
    where
      go : (b : Bool) → s.timer_stop ≡ b → Inv turns (at_pc s (if b then ended else checking 0 0 0))
      go true q = record {
        time = inv.time;
        counts = tt;
        devices = λ j d g. (inv.devices j d g, inl q);
      }
      go false q = record {
        time = inv.time;
        counts = (refl, omega arith);
        devices =
            λ j d g. (inv.devices j d g, λ l. absurd (omega arith), λ _ l. absurd (omega arith));
      }

  checking-Next :
      (i fsh event : ℕ) (o : Option Device)
      → get_elem? s.devices i ≡ o
      → Inv turns (at_pc s (checking i fsh event))
      → check (at_pc s (checking i fsh event)) i fsh event o ≡ some t
      → Next t
  unfolding check
  checking-Next i fsh event none at inv e = subst Next (some-injective _ _ e) (
    turns,
    record {
      time = inv.time;
      counts = inv.counts.1;
      devices = λ j d g.
          let j_lt : j < i = lt_of_none s.devices at g in
          let p : Place turns s.timer_stop (checking i fsh event) j d = inv.devices j d g in
          (p.1 j_lt, λ q. p.2 q j_lt);
    },
  )
  checking-Next i fsh event (some d) at inv e = decide (d.id.done || d.id.fsh) refl e
    where
      go :
          (f : Bool)
          → d.id.fsh ≡ f
          → Held turns d
          → Inv turns (at_pc s (checking (i + 1) (if f then fsh + 1 else fsh) (event + 1)))
      go true q h = record {
        time = inv.time;
        counts = (omega (arith, inv.counts.0), omega (arith, inv.counts.1));
        devices = λ j d' g.
            let p : Place turns s.timer_stop (checking i fsh event) j d' = inv.devices j d' g in
            (
              p.0,
              below_suc (Held turns) s.devices at g h p.1,
              λ eq. below_suc IsGone s.devices at g q (p.2 (omega arith)),
            );
      }
      go false q h = record {
        time = inv.time;
        counts = (omega (arith, inv.counts.0), omega (arith, inv.counts.1));
        devices = λ j d' g.
            let p : Place turns s.timer_stop (checking i fsh event) j d' = inv.devices j d' g in
            (
              p.0,
              below_suc (Held turns) s.devices at g h p.1,
              λ eq _. absurd (omega (arith, inv.counts.1)),
            );
      }

      decide :
          (b : Bool)
          → (d.id.done || d.id.fsh) ≡ b
          → (if b
              then some (at_pc s (checking (i + 1) (if d.id.fsh then fsh + 1 else fsh) (event + 1)))
              else none)
            ≡ some t
          → Next t
      decide true q e =
          subst Next (some-injective _ _ e)
            (turns, go d.id.fsh refl (seen turns d (inv.devices i d at).0 q))
      decide false q e = absurd (none-ne-some _ e)

  bump-Next :
      (fsh event : ℕ)
      → Inv turns (at_pc s (bump fsh event))
      → timer_step (at_pc s (bump fsh event)) ≡ some t
      → Next t
  unfolding timer_step
  bump-Next fsh event inv e = subst Next (some-injective _ _ e) (
    turns,
    record {
      time = omega (arith, inv.time);
      counts = inv.counts;
      devices = λ j d g.
          let p : Place turns s.timer_stop (bump fsh event) j d = inv.devices j d g in
          (λ l. absurd (omega arith), λ _. p.0, p.1);
    },
  )

  releasing-Next :
      (i fsh event : ℕ) (o : Option Device)
      → get_elem? s.devices i ≡ o
      → Inv turns (at_pc s (releasing i fsh event))
      → release (at_pc s (releasing i fsh event)) i fsh event o ≡ some t
      → Next t
  unfolding release
  releasing-Next i fsh event none at inv e =
      subst Next (some-injective _ _ e) (suc turns, go (fsh == event) refl)
    where
      eq_of_test : (fsh == event) ≡ true → fsh ≡ event
      eq_of_test q = ground arith

      go : (b : Bool) → (fsh == event) ≡ b → Inv (suc turns) (at_pc s (if b then ended else top))
      go true q = record {
        time = inv.time;
        counts = tt;
        devices = λ j d g.
            let p : Place turns s.timer_stop (releasing i fsh event) j d = inv.devices j d g in
            (p.0 (lt_of_none s.devices at g), inr (p.2 (eq_of_test q)));
      }
      go false q = record {
        time = inv.time;
        counts = tt;
        devices = λ j d g. (inv.devices j d g).0 (lt_of_none s.devices at g);
      }
  releasing-Next i fsh event (some d) at inv e = subst Next (some-injective _ _ e) (
    turns,
    record {
      time = inv.time;
      counts = inv.counts;
      devices =
          Each-set (Place turns s.timer_stop (releasing i fsh event))
            (Place turns s.timer_stop (releasing (i + 1) fsh event)) s.devices i (clear d)
            inv.devices (λ j d' ne p. (λ l. p.0 (omega (arith, ne)), λ l. p.1 (omega arith), p.2))
            (λ l.
              let p : Place turns s.timer_stop (releasing i fsh event) i d = inv.devices i d at in
              (λ _. released turns d (p.1 (omega arith)), λ l. absurd (omega arith), p.2));
    },
  )

pub Inv-timer : (turns : ℕ) (s : System) {t : System} → Inv turns s → timer_step s ≡ some t → Next t
unfolding timer_step
Inv-timer turns s {t} inv e = go s.timer inv e
  where
    go : (pc : TimerPc) → Inv turns (at_pc s pc) → timer_step (at_pc s pc) ≡ some t → Next t
    go not_started inv e = absurd (none-ne-some _ e)
    go top inv e = top-Next turns s inv e
    go (checking i fsh event) inv e = checking-Next turns s i fsh event _ refl inv e
    go (bump fsh event) inv e = bump-Next turns s fsh event inv e
    go (releasing i fsh event) inv e = releasing-Next turns s i fsh event _ refl inv e
    go ended inv e = absurd (none-ne-some _ e)
