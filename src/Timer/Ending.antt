-- ===== src/Timer/Ending.antt =====
-- The end of `timer_routine` in ossim_source_code/src/timer.c, for which `stop_timer` waits.
use co2018_assignment.Base.{
  ℕ, zero, suc, ◌+◌, ◌-◌, ◌*◌, ◌≤◌, ◌<◌, ◌≡◌, ◌≢◌, Bool, true, false, Option, none, some, ◌||◌,
  ◌==◌, length, get_elem?, arith, refl, sym, ap, ◌∙◌, if◌then◌else◌, lt_of_get_elem?, length-set,
}
use mathlib.Core.Bool.{true≢false}
use co2018_assignment.Timer.{
  Device, TimerPc, not_started, top, checking, bump, releasing, ended, System, timer_step, check,
  release, clear, Reach,
}
use co2018_assignment.Timer.Invariant.{IsGone, Each, Each-set, Counts}
use co2018_assignment.Timer.Reached.{Reach-Inv}

-- Steps of the timer's thread alone, until it waits or is gone.
unfoldable pub after : System → (System → System) → Option System → System
after s rest none = s
after s rest (some t) = rest t

unfoldable pub timer_steps : ℕ → System → System
unfolding after
timer_steps zero s = s
timer_steps (suc k) s = after s (timer_steps k) (timer_step s)

-- How many steps are left, with `n` devices that are all detached.
again : ℕ → ℕ → ℕ → ℕ
again n fsh event = if fsh == event then 0 else 2 * n + 4

rank_at : ℕ → TimerPc → ℕ
unfolding again
rank_at n not_started = 0
rank_at n top = 2 * n + 4
rank_at n (checking i fsh event) = n - i + n + 3 + again n fsh event
rank_at n (bump fsh event) = n + 2 + again n fsh event
rank_at n (releasing i fsh event) = n - i + 1 + again n fsh event
rank_at n ended = 0

rank : System → ℕ
unfolding rank_at
rank s = rank_at (length s.devices) s.timer

rank_le : (n : ℕ) (pc : TimerPc) → rank_at n pc ≤ 4 * n + 7
unfolding rank_at
rank_le n not_started = omega arith
rank_le n top = omega arith
rank_le n (checking i fsh event) = ground arith
rank_le n (bump fsh event) = ground arith
rank_le n (releasing i fsh event) = ground arith
rank_le n ended = omega arith

abbrev AllGone : System → Type 0
AllGone s = Each (λ _. IsGone) s.devices

abbrev Started : System → Type 0
Started s = s.timer ≢ not_started

-- A step that brings the end nearer than `r`.
abbrev Nearer : ℕ → Option System → Type 0
Nearer r o = (t : System) × (o ≡ some t) × AllGone t × Started t × (rank t < r)

abbrev Ends : ℕ → Type 0
Ends k = (s : System) → rank s < k → AllGone s → Started s → (timer_steps k s).timer ≡ ended

module _ (s : System) (gone : AllGone s) (i fsh event : ℕ) where
  check-Nearer :
      (o : Option Device)
      → get_elem? s.devices i ≡ o
      → Nearer (rank_at (length s.devices) (checking i fsh event)) (check s i fsh event o)
  unfolding check rank
  check-Nearer none at = (_, refl, gone, (λ e. cc), omega arith)
  check-Nearer (some d) at = go d.id.done d.id.fsh (gone i d at)
    where
      nearer :
          rank_at (length s.devices) (checking (i + 1) (fsh + 1) (event + 1))
          < rank_at (length s.devices) (checking i fsh event)
      nearer = let i_lt : i < length s.devices = lt_of_get_elem? s.devices i at in ground arith

      go :
          (a b : Bool)
          → b ≡ true
          → Nearer (rank_at (length s.devices) (checking i fsh event)) (
              if a || b
              then some
                  (record s { timer = checking (i + 1) (if b then fsh + 1 else fsh) (event + 1) })
              else none)
      go true true e = (_, refl, gone, (λ e. cc), nearer)
      go false true e = (_, refl, gone, (λ e. cc), nearer)
      go a false e = absurd (true≢false (sym e))

  release-Nearer :
      (o : Option Device)
      → get_elem? s.devices i ≡ o
      → Nearer (rank_at (length s.devices) (releasing i fsh event)) (release s i fsh event o)
  unfolding release rank
  release-Nearer none at = go (fsh == event) refl
    where
      go :
          (b : Bool)
          → (fsh == event) ≡ b
          → Nearer
              (rank_at (length s.devices) (releasing i fsh event))
              (some (record s { timer = if b then ended else top }))
      go true e = (_, refl, gone, (λ e. cc), omega arith)
      go false e = (_, refl, gone, (λ e. cc), ground arith)
  release-Nearer (some d) at = (
    _,
    refl,
    Each-set (λ _. IsGone) (λ _. IsGone) s.devices i (clear d) gone (λ _ _ _ p. p)
        (λ _. gone i d at),
    (λ e. cc),
    let i_lt : i < length s.devices = lt_of_get_elem? s.devices i at in
        grind (arith, length-set s.devices i (clear d)),
  )

step-Nearer :
    (s : System) (pc : TimerPc)
    → AllGone s
    → pc ≢ not_started
    → pc ≢ ended
    → Nearer (rank_at (length s.devices) pc) (timer_step (record s { timer = pc }))
unfolding timer_step rank
step-Nearer s not_started gone a b = absurd (a refl)
step-Nearer s top gone a b = go s.timer_stop
  where
    go :
        (b : Bool)
        → Nearer
            (rank_at (length s.devices) top)
            (some (record s { timer = if b then ended else checking 0 0 0 }))
    go true = (_, refl, gone, (λ e. cc), omega arith)
    go false = (_, refl, gone, (λ e. cc), omega arith)
step-Nearer s (checking i fsh event) gone a b =
    check-Nearer (record s { timer = checking i fsh event }) gone i fsh event _ refl
step-Nearer s (bump fsh event) gone a b = (_, refl, gone, (λ e. cc), omega arith)
step-Nearer s (releasing i fsh event) gone a b =
    release-Nearer (record s { timer = releasing i fsh event }) gone i fsh event _ refl
step-Nearer s ended gone a b = absurd (b refl)

ends_at :
    (k : ℕ)
    → Ends k
    → (s : System) (pc : TimerPc) → rank_at (length s.devices) pc < suc k
    → AllGone s
    → pc ≢ not_started
    → (timer_steps (suc k) (record s { timer = pc })).timer ≡ ended
unfolding timer_steps rank timer_step
ends_at k rest s pc le gone started = go pc le started
  where
    near :
        (pc : TimerPc)
        → rank_at (length s.devices) pc < suc k
        → Nearer (rank_at (length s.devices) pc) (timer_step (record s { timer = pc }))
        → (timer_steps (suc k) (record s { timer = pc })).timer ≡ ended
    near pc le h =
        ap (λ o. (after (record s { timer = pc }) (timer_steps k) o).timer) h.1
        ∙ rest h.0 (omega (arith, h.4)) h.2 h.3

    go :
        (pc : TimerPc)
        → rank_at (length s.devices) pc < suc k
        → pc ≢ not_started
        → (timer_steps (suc k) (record s { timer = pc })).timer ≡ ended
    go not_started le a = absurd (a refl)
    go top le a = near top le (step-Nearer s top gone a (λ e. cc))
    go (checking i fsh event) le a =
        near (checking i fsh event) le (step-Nearer s (checking i fsh event) gone a (λ e. cc))
    go (bump fsh event) le a =
        near (bump fsh event) le (step-Nearer s (bump fsh event) gone a (λ e. cc))
    go (releasing i fsh event) le a =
        near (releasing i fsh event) le (step-Nearer s (releasing i fsh event) gone a (λ e. cc))
    go ended le a = refl

ends : (k : ℕ) → Ends k
unfolding rank
ends zero s le gone started = absurd (omega arith)
ends (suc k) s le gone started = ends_at k (ends k) s s.timer le gone started

-- Once every device is detached, the timer's thread ends by its own steps, whatever state the threads
-- have reached, and the call of `pthread_join` in `stop_timer` returns: with `n` devices in the list
-- at most 4 * n + 8 steps are needed.
pub Reach-timer_steps :
    (n : ℕ) {s : System}
    → Reach n s
    → ((j : ℕ) (d : Device) → get_elem? s.devices j ≡ some d → d.id.fsh ≡ true)
    → (timer_steps (4 * length s.devices + 8) s).timer ≡ ended
unfolding rank
Reach-timer_steps n {s} r gone =
    ends _ s (omega (arith, rank_le (length s.devices) s.timer)) gone
      (started s.timer (Reach-Inv n r).1.counts)
  where
    started : (pc : TimerPc) → Counts pc → pc ≢ not_started
    started not_started c e = c
    started top c e = cc
    started (checking i fsh event) c e = cc
    started (bump fsh event) c e = cc
    started (releasing i fsh event) c e = cc
    started ended c e = cc
