-- ===== src/Os/Drained.antt =====
-- The queues after a round of `cpu_routine` in ossim_source_code/src/os.c that found no process.
use co2018_assignment.Base.{
  ℕ, zero, suc, ◌+◌, ◌≤◌, ◌≡◌, refl, sym, ap, subst, ◌∙◌, inl, inr, Bool, true, false, Option, none,
  some, List, [], ◌∷◌, length, arith, if◌then◌else◌, ◌>>=◌,
}
use mathlib.Core.Option.{none-ne-some, some-injective}
use co2018_assignment.Base.Int.{ℤ, pos}
use co2018_assignment.Queue.{Schedulable}
use co2018_assignment.Sched.{Sched, max_prio, get_proc, put_proc}
use co2018_assignment.Sched.Levels.{Levels}
use co2018_assignment.Sched.Dispatch.{IsIdle, get_proc_lem}
use co2018_assignment.Os.{
  Machine, Core, Turn, next_slot, stopped, Chosen, skips, goes_on, choose, proceed, cpu_round,
  first_load, is_zero, decrement,
}
use co2018_assignment.Os.Conserve.{held, count, total}
use co2018_assignment.Os.Threads.Put.{Put, put_proc-Put}
use co2018_assignment.Os.Threads.Places.{Within, cpu_round-Ends}

abbrev pub any {ℓ} : {P : Type ℓ} → P → Bool
any _ = true

total-IsIdle :
    {P : Type 0} (xss : List (List P)) (n : ℕ) → length xss ≡ n → IsIdle xss n → total any xss ≡ 0
total-IsIdle [] n e idle = refl
total-IsIdle (xs ∷ xss) zero e idle = absurd (omega (arith, e))
total-IsIdle (xs ∷ xss) (suc n) e idle = omega (
  arith,
  total-IsIdle xss n (omega (arith, e)) (λ j l. idle (suc j) (omega (arith, l))),
  ap (count any) (some-injective _ _ (idle 0 (omega arith))),
)

module _ {P : Type 0} ⦃o : Schedulable P⦄ where
  -- No level holds a process.
  pub record Drained (s : Sched P) : Type 0 where
    pub lists : List (List P)
    pub levels : Levels s lists
    pub nothing : total any lists ≡ 0

  abbrev Left : Chosen P → Sched P → Type 0
  Left skips s = Drained s
  Left (goes_on none t) s = Drained s
  Left (goes_on (some p) t) s = Unit

  abbrev Leaves : Option (Chosen P × Sched P) → Type 0
  Leaves r = (chosen : Chosen P) (s : Sched P) → r ≡ some (chosen, s) → Left chosen s

  got-Leaves :
      (f : Option P → Chosen P) {s : Sched P} {xss : List (List P)}
      → ((s : Sched P) → Drained s → Left (f none) s)
      → ((p : P) (s : Sched P) → Left (f (some p)) s)
      → Levels s xss
      → Leaves (get_proc s >>= λ q. some (f q.0, q.1))
  got-Leaves f {s} {xss} empty full l chosen s' e = elim (get_proc_lem l) [
    | inl idle ↦ found none s idle.1 (
        empty s
          (record { lists = xss; levels = l; nothing = total-IsIdle xss max_prio l.lists idle.0 }))
    | inr d ↦ found (some d.chosen) d.sched d.returns (full d.chosen d.sched)
  ]
    where
      found :
          (q : Option P) (s₁ : Sched P) → get_proc s ≡ some (q, s₁) → Left (f q) s₁ → Left chosen s'
      found q s₁ r left =
          subst (λ r. Left r.0 r.1)
            (some-injective _ _ (sym (ap (λ r. r >>= (λ q. some (f q.0, q.1))) r) ∙ e)) left

  module _ {W : Type 0} (m : Machine P W) where
    choose-Leaves :
        (s : Sched P) {xss : List (List P)} (t : ℤ) (proc : Option P)
        → Levels s xss
        → Leaves (choose m s t proc)
    unfolding choose
    choose-Leaves s t none l = got-Leaves (first_load t) (λ _ d. d) (λ _ _. tt) l
    choose-Leaves s {xss} t (some p) l = go (m.finished p) (is_zero t)
      where
        preempt :
            (r : Option (Sched P))
            → put_proc s p ≡ r
            → Leaves (r >>= λ s₁. get_proc s₁ >>= λ q. some (goes_on q.0 t, q.1))
        preempt none e chosen s' e' = absurd (none-ne-some _ e')
        preempt (some s₁) e chosen s' e' =
            let q : Put any s₁ xss p = put_proc-Put any p l e in
            got-Leaves (λ q. goes_on q t) (λ _ d. d) (λ _ _. tt) q.levels chosen s' e'

        go :
            (b z : Bool)
            → Leaves (
                if b
                then (get_proc s >>= λ q. some (goes_on q.0 (pos 0), q.1))
                else (if z
                    then (put_proc s p >>= λ s₁. get_proc s₁ >>= λ q. some (goes_on q.0 t, q.1))
                    else some (goes_on (some p) t, s)))
        go true z chosen s' e =
            got-Leaves (λ q. goes_on q (pos 0)) (λ _ d. d) (λ _ _. tt) l chosen s' e
        go false true chosen s' e = preempt (put_proc s p) refl chosen s' e
        go false false chosen s' e = subst (λ r. Left r.0 r.1) (some-injective _ _ e) tt

    -- A round that ends without a process has left nothing queued, and only such a round stops the CPU,
    -- once `done` is set.
    pub record Emptied (is_done : Bool) (turn : Turn) (c : Core P) (s : Sched P) : Type 0 where
      pub drained : c.proc ≡ none → Drained s
      pub stops : turn ≡ stopped → (c.proc ≡ none) × (is_done ≡ true)

    abbrev Result : Bool → Turn × Core P × Sched P × W → Type 0
    Result is_done (turn, c, s, w) = Emptied is_done turn c s

    proceed-Emptied :
        (time_slot : ℤ) (is_done : Bool) (w : W) (c : Core P) (chosen : Chosen P) (s : Sched P)
        {r : Turn × Core P × Sched P × W}
        → Left chosen s
        → proceed m time_slot is_done w c (chosen, s) ≡ some r
        → Result is_done r
    unfolding proceed
    proceed-Emptied time_slot is_done w c skips s l e =
        subst (Result is_done) (some-injective _ _ e) (record { drained = λ _. l; stops = λ q. cc })
    proceed-Emptied time_slot true w c (goes_on none t) s l e =
        subst (Result true) (some-injective _ _ e)
          (record { drained = λ _. l; stops = λ _. (refl, refl) })
    proceed-Emptied time_slot false w c (goes_on none t) s l e =
        subst (Result false) (some-injective _ _ e) (record { drained = λ _. l; stops = λ q. cc })
    proceed-Emptied time_slot is_done w c (goes_on (some p) t) s {r} l e = go (m.execute p w) e
      where
        go :
            (o : Option (P × W))
            → (o >>= λ (p', w'). some (
              next_slot,
              record { proc = some p'; time_left = decrement (if is_zero t then time_slot else t) },
              s,
              w',
            ))
              ≡ some r
            → Result is_done r
        go none e = absurd (none-ne-some _ e)
        go (some (p', w')) e =
            subst (Result is_done) (some-injective _ _ e)
              (record { drained = λ q. cc; stops = λ q. cc })

    pub cpu_round-Emptied :
        (time_slot : ℤ) (is_done : Bool) (c : Core P) (s : Sched P) (w : W) {xss : List (List P)}
        {turn : Turn} {c' : Core P} {s' : Sched P} {w' : W}
        → Levels s xss
        → cpu_round m time_slot is_done c s w ≡ some (turn, c', s', w')
        → Emptied is_done turn c' s'
    unfolding cpu_round
    cpu_round-Emptied time_slot is_done c s w {turn = turn} {c'} {s'} {w'} l e =
        go (choose m s c.time_left c.proc) refl e
      where
        go :
            (r : Option (Chosen P × Sched P))
            → choose m s c.time_left c.proc ≡ r
            → (r >>= proceed m time_slot is_done w c) ≡ some (turn, c', s', w')
            → Emptied is_done turn c' s'
        go none q e = absurd (none-ne-some _ e)
        go (some (chosen, s₁)) q e =
            proceed-Emptied time_slot is_done w c chosen s₁
              (choose-Leaves s c.time_left c.proc l chosen s₁ q) e

    -- Drained queues stay drained.
    pub cpu_round-Drained :
        (time_slot : ℤ) (is_done : Bool) (c : Core P) (s : Sched P) (w : W) {turn : Turn}
        (c' : Core P) {s' : Sched P} {w' : W}
        → Drained s
        → cpu_round m time_slot is_done c s w ≡ some (turn, c', s', w')
        → Drained s'
    cpu_round-Drained time_slot is_done c s w {turn} c' {s'} {w'} d e = go c'.proc refl
      where
        r : Within m any s' (held any c'.proc) (total any d.lists + held any c.proc)
        r =
            cpu_round-Ends m any time_slot is_done c s w d.lists (λ _ _ _ _ _. refl) d.levels turn
              c' s' w' e

        at_most : (q : Option P) → held any q ≤ 1
        at_most none = omega arith
        at_most (some p) = omega arith

        go : (q : Option P) → c'.proc ≡ q → Drained s'
        go none q = (cpu_round-Emptied time_slot is_done c s w d.levels e).drained q
        go (some p) q = record {
          lists = r.lists;
          levels = r.levels;
          nothing = omega (arith, r.balance, d.nothing, at_most c.proc, ap (held any) q);
        }
