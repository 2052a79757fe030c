-- ===== src/Os/Simulation/Gone.antt =====
-- The devices of the threads of ossim_source_code/src/os.c that have ended.
use co2018_assignment.Base.{
  ℕ, ◌-◌, ◌≤◌, ◌≡◌, ◌≢◌, ◌⊎◌, inl, inr, refl, sym, ap, subst, ◌∙◌, true, false, ◌||◌, some, List,
  get_elem?, get_elem?-set_self, lt_of_get_elem?, set, set_cases,
}
use mathlib.Core.Bool.{true≢false}
use mathlib.Core.Option.{none-ne-some, some-injective}
use co2018_assignment.Cpu.{Pcb}
use co2018_assignment.Timer.{
  Device, DevicePc, working, waiting, detached, Call, reports, resumes, detaches, act, System,
  timer_step,
}
use co2018_assignment.Timer.Ticks.{Stayed, timer_step-Kept}
use co2018_assignment.Os.{Core, Turn, next_slot, stopped}
use co2018_assignment.Os.Threads.{CpuThread, goes_on_running}
use co2018_assignment.Os.Simulation.{Program, last_call, is_stopped}

-- The thread of this device has called `detach_event`.
abbrev pub IsOff : Device → Type 0
IsOff d = (d.pc ≡ detached) × (d.id.fsh ≡ true)

off_ends : (c : Call) (d : Device) {d' : Device} → IsOff d → act c d ≡ some d' → ⊥
unfolding act
off_ends c d {d'} off e = go c (subst (λ p. act c (record d { pc = p }) ≡ some d') off.0 e)
  where
    go : (c : Call) → act c (record d { pc = detached }) ≡ some d' → ⊥
    go reports e = none-ne-some _ e
    go resumes e = none-ne-some _ e
    go detaches e = none-ne-some _ e

detaches-IsOff : (d : Device) {d' : Device} → act detaches d ≡ some d' → IsOff d'
unfolding act
detaches-IsOff d {d'} e = go d.pc e
  where
    go : (p : DevicePc) → act detaches (record d { pc = p }) ≡ some d' → IsOff d'
    go working e = subst IsOff (some-injective _ _ e) (refl, refl)
    go waiting e = absurd (none-ne-some _ e)
    go detached e = absurd (none-ne-some _ e)

-- Each device of `ys` is one of `xs`, and those that were detached are.
pub record StaysOff (xs : List Device) (j : ℕ) (d' : Device) : Type 0 where
  pub device : Device
  pub at : get_elem? xs j ≡ some device
  pub off : IsOff device → IsOff d'

abbrev pub StayOff : List Device → List Device → Type 0
StayOff xs ys = (j : ℕ) (d' : Device) → get_elem? ys j ≡ some d' → StaysOff xs j d'

pub StayOff-refl : (xs : List Device) → StayOff xs xs
StayOff-refl xs j d e = record { device = d; at = e; off = λ h. h }

pub StayOff-act :
    (xs : List Device) (i : ℕ) (c : Call) {d d' : Device}
    → get_elem? xs i ≡ some d
    → act c d ≡ some d'
    → StayOff xs (set xs i d')
StayOff-act xs i c {d} {d'} at e j d'' at' = elim (set_cases xs i j d' at') [
  | inl (eq, same) ↦ record {
    device = d;
    at = subst (λ k. get_elem? xs k ≡ some d) eq at;
    off = λ off. absurd (off_ends c d off e);
  }
  | inr (ne, same) ↦ StayOff-refl xs j d'' same
]

pub StayOff-ticks : (s : System) {t : System} → timer_step s ≡ some t → StayOff s.devices t.devices
StayOff-ticks s {t} e j d' at =
    let k : Stayed s.devices j d' = (timer_step-Kept s e).devices j d' at in
    record { device = k.device; at = k.at; off = λ off. (k.pc ∙ off.0, k.fsh ∙ off.1) }

module _ (n : ℕ) where
  -- There are `n + 1` devices at most, and those of threads that have ended are detached.
  pub record Gone (x : Program) : Type 0 where
    pub within : (j : ℕ) (d : Device) → get_elem? x.timer.devices j ≡ some d → j ≤ n
    pub cpus :
        (i : ℕ) (c : CpuThread Pcb) (d : Device)
        → get_elem? x.threads.cpus i ≡ some c
        → c.running ≡ false
        → get_elem? x.timer.devices (n - i) ≡ some d
        → IsOff d
    pub loader :
        x.threads.is_done ≡ true → (d : Device) → get_elem? x.timer.devices 0 ≡ some d → IsOff d

  pub Gone-kept :
      (x y : Program)
      → StayOff x.timer.devices y.timer.devices
      → x.threads ≡ y.threads
      → Gone x
      → Gone y
  Gone-kept x y moves same h = record {
    within = λ j d at. h.within j (moves j d at).device (moves j d at).at;
    cpus = λ i c d at off dev.
        let m : StaysOff x.timer.devices (n - i) d = moves (n - i) d dev in
        m.off (h.cpus i c m.device (ap (λ t. get_elem? t.cpus i) same ∙ at) off m.at);
    loader = λ e d dev.
        let m : StaysOff x.timer.devices 0 d = moves 0 d dev in
        m.off (h.loader (ap (λ t. t.is_done) same ∙ e) m.device m.at);
  }

  pub Gone-turn :
      (x y : Program) (i : ℕ) (turn : Turn) (c' : Core Pcb) {c : CpuThread Pcb} {d d' : Device}
      → Gone x
      → get_elem? x.threads.cpus i ≡ some c
      → get_elem? x.timer.devices (n - i) ≡ some d
      → act (last_call turn) d ≡ some d'
      → (y.threads.cpus
          ≡ set x.threads.cpus i (record { core = c'; running = goes_on_running turn }))
        × (y.threads.is_done ≡ x.threads.is_done)
        × (y.timer.devices ≡ set x.timer.devices (n - i) d')
      → Gone y
  Gone-turn x y i turn c' {c} {d} {d'} h at dev acted (cs, done, ds) = record {
    within = λ j d₁ at₁. h.within j _ (moves j d₁ (ap (λ ds. get_elem? ds j) (sym ds) ∙ at₁)).at;
    cpus = λ k c₁ d₁ at₁ off dev₁.
        cpu k c₁ d₁ off (ap (λ ds. get_elem? ds (n - k)) (sym ds) ∙ dev₁)
          (set_cases x.threads.cpus i k this (ap (λ cs. get_elem? cs k) (sym cs) ∙ at₁));
    loader = λ e d₁ dev₁.
        let m : StaysOff x.timer.devices 0 d₁ =
          moves 0 d₁ (ap (λ ds. get_elem? ds 0) (sym ds) ∙ dev₁) in
        m.off (h.loader (sym done ∙ e) m.device m.at);
  }
    where
      this : CpuThread Pcb
      this = record { core = c'; running = goes_on_running turn }

      moves : StayOff x.timer.devices (set x.timer.devices (n - i) d')
      moves = StayOff-act x.timer.devices (n - i) (last_call turn) dev acted

      stops_off :
          (turn : Turn) → goes_on_running turn ≡ false → act (last_call turn) d ≡ some d' → IsOff d'
      stops_off next_slot e a = absurd (true≢false e)
      stops_off stopped e a = detaches-IsOff d a

      cpu :
          (k : ℕ) (c₁ : CpuThread Pcb) (d₁ : Device)
          → c₁.running ≡ false
          → get_elem? (set x.timer.devices (n - i) d') (n - k) ≡ some d₁
          → ((i ≡ k) × (this ≡ c₁)) ⊎ ((i ≢ k) × (get_elem? x.threads.cpus k ≡ some c₁))
          → IsOff d₁
      cpu k c₁ d₁ off dev₁ (inl (eq, same)) =
          subst IsOff
            (some-injective _ _ (
              sym (
                subst (λ k. get_elem? (set x.timer.devices (n - i) d') (n - k) ≡ some d') eq
                  (get_elem?-set_self x.timer.devices (n - i) d'
                    (lt_of_get_elem? x.timer.devices (n - i) dev)))
              ∙ dev₁))
            (stops_off turn (ap (λ c. c.running) same ∙ off) acted)
      cpu k c₁ d₁ off dev₁ (inr (ne, old)) =
          let m : StaysOff x.timer.devices (n - k) d₁ = moves (n - k) d₁ dev₁ in
          m.off (h.cpus k c₁ m.device old off m.at)

  pub Gone-loads :
      (x y : Program) (turn : Turn) {d d' : Device}
      → Gone x
      → get_elem? x.timer.devices 0 ≡ some d
      → act (last_call turn) d ≡ some d'
      → (y.threads.cpus ≡ x.threads.cpus)
        × (y.threads.is_done ≡ (is_stopped turn || x.threads.is_done))
        × (y.timer.devices ≡ set x.timer.devices 0 d')
      → Gone y
  Gone-loads x y turn {d} {d'} h dev acted (cs, done, ds) = record {
    within = λ j d₁ at₁. h.within j _ (moves j d₁ (ap (λ ds. get_elem? ds j) (sym ds) ∙ at₁)).at;
    cpus = λ k c₁ d₁ at₁ off dev₁.
        let m : StaysOff x.timer.devices (n - k) d₁ =
          moves (n - k) d₁ (ap (λ ds. get_elem? ds (n - k)) (sym ds) ∙ dev₁) in
        m.off (h.cpus k c₁ m.device (ap (λ cs. get_elem? cs k) (sym cs) ∙ at₁) off m.at);
    loader = λ e d₁ dev₁.
        loader turn acted (sym done ∙ e) d₁ (ap (λ ds. get_elem? ds 0) (sym ds) ∙ dev₁);
  }
    where
      moves : StayOff x.timer.devices (set x.timer.devices 0 d')
      moves = StayOff-act x.timer.devices 0 (last_call turn) dev acted

      loader :
          (turn : Turn)
          → act (last_call turn) d ≡ some d'
          → (is_stopped turn || x.threads.is_done) ≡ true
          → (d₁ : Device) → get_elem? (set x.timer.devices 0 d') 0 ≡ some d₁
          → IsOff d₁
      loader stopped a e d₁ dev₁ =
          subst IsOff
            (some-injective _ _ (
              sym (get_elem?-set_self x.timer.devices 0 d' (lt_of_get_elem? x.timer.devices 0 dev))
              ∙ dev₁))
            (detaches-IsOff d a)
      loader next_slot a e d₁ dev₁ =
          let m : StaysOff x.timer.devices 0 d₁ = moves 0 d₁ dev₁ in
          m.off (h.loader e m.device m.at)
