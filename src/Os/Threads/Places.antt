-- ===== src/Os/Threads/Places.antt =====
-- A process is in one place: in one queue, or on one CPU of ossim_source_code/src/os.c.
use co2018_assignment.Base.{
  ℕ, ◌+◌, ◌≤◌, ◌≡◌, refl, sym, ap, subst, ◌∙◌, Bool, true, false, Option, none, some, List, arith,
  if◌then◌else◌, ◌>>=◌,
}
use mathlib.Core.Option.{none-ne-some, some-injective}
use co2018_assignment.Base.Int.{ℤ, pos}
use co2018_assignment.Queue.{Schedulable}
use co2018_assignment.Sched.{Sched, get_proc, put_proc}
use co2018_assignment.Sched.Levels.{Levels}
use co2018_assignment.Os.{
  Machine, Core, Turn, next_slot, Chosen, skips, goes_on, choose, proceed, cpu_round, first_load,
  is_zero, decrement,
}
use co2018_assignment.Os.Conserve.{one, held, total, Got, get_proc-Got}
use co2018_assignment.Os.Threads.Put.{Put, put_proc-Put}

module _ {P W : Type 0} ⦃o : Schedulable P⦄ (m : Machine P W) (keep : P → Bool) where
  abbrev chosen_count : Chosen P → ℕ
  chosen_count skips = 0
  chosen_count (goes_on proc t) = held keep proc

  -- The queues hold at most `n` processes with the `k` that are elsewhere.
  pub record Within (s : Sched P) (k n : ℕ) : Type 0 where
    pub lists : List (List P)
    pub levels : Levels s lists
    pub balance : total keep lists + k ≤ n

  abbrev Chooses : Option (Chosen P × Sched P) → ℕ → Type 0
  Chooses r n =
      (chosen : Chosen P) (s : Sched P) → r ≡ some (chosen, s) → Within s (chosen_count chosen) n

  from_get_proc :
      (f : Option P → Chosen P) (s : Sched P) (xss : List (List P)) (n : ℕ)
      → ((q : Option P) → chosen_count (f q) ≤ held keep q)
      → Levels s xss
      → total keep xss ≤ n
      → Chooses (get_proc s >>= λ q. some (f q.0, q.1)) n
  from_get_proc f s xss n le l fits chosen s' e =
      subst (λ r. Within r.1 (chosen_count r.0) n)
        (some-injective _ _ (sym (ap (λ r. r >>= (λ q. some (f q.0, q.1))) g.returns) ∙ e))
        (record {
          lists = g.lists;
          levels = g.levels;
          balance = omega (arith, g.balance, le g.proc);
        })
    where
      g : Got keep s xss
      g = get_proc-Got keep s xss l

  first_count : (t : ℤ) (q : Option P) → chosen_count (first_load t q) ≤ held keep q
  first_count t none = omega arith
  first_count t (some p) = omega arith

  choose-Chooses :
      (s : Sched P) (xss : List (List P)) (t : ℤ) (proc : Option P)
      → Levels s xss
      → Chooses (choose m s t proc) (total keep xss + held keep proc)
  unfolding choose
  choose-Chooses s xss t none l =
      from_get_proc (first_load t) s xss _ (first_count t) l (omega arith)
  choose-Chooses s xss t (some p) l = go (m.finished p) (is_zero t)
    where
      preempt :
          (r : Option (Sched P))
          → put_proc s p ≡ r
          → Chooses
              (r >>= λ s₁. get_proc s₁ >>= λ q. some (goes_on q.0 t, q.1))
              (total keep xss + one keep p)
      preempt none e chosen s' e' = absurd (none-ne-some _ e')
      preempt (some s₁) e chosen s' e' =
          let q : Put keep s₁ xss p = put_proc-Put keep p l e in
          from_get_proc (λ q. goes_on q t) s₁ q.lists _ (λ _. omega arith) q.levels
            (omega (arith, q.balance)) chosen s' e'

      go :
          (b z : Bool)
          → Chooses
              (if b
                then (get_proc s >>= λ q. some (goes_on q.0 (pos 0), q.1))
                else (if z
                    then (put_proc s p >>= λ s₁. get_proc s₁ >>= λ q. some (goes_on q.0 t, q.1))
                    else some (goes_on (some p) t, s)))
              (total keep xss + one keep p)
      go true z chosen s' e =
          from_get_proc (λ q. goes_on q (pos 0)) s xss _ (λ _. omega arith) l (omega arith) chosen
            s' e
      go false true chosen s' e = preempt (put_proc s p) refl chosen s' e
      go false false chosen s' e =
          subst (λ r. Within r.1 (chosen_count r.0) (total keep xss + one keep p))
            (some-injective _ _ e) (record { lists = xss; levels = l; balance = omega arith })

  -- No instruction changes the test.
  abbrev pub IsKept : Type 0
  IsKept = (p p' : P) (w w' : W) → m.execute p w ≡ some (p', w') → keep p' ≡ keep p

  abbrev pub Ends : Option (Turn × Core P × Sched P × W) → ℕ → Type 0
  Ends r n =
      (turn : Turn) (c : Core P) (s : Sched P) (w : W)
      → r ≡ some (turn, c, s, w)
      → Within s (held keep c.proc) n

  proceed-Ends :
      (time_slot : ℤ) (is_done : Bool) (w : W) (c : Core P) (chosen : Chosen P) (s : Sched P)
      (n : ℕ)
      → IsKept
      → Within s (chosen_count chosen) n
      → Ends (proceed m time_slot is_done w c (chosen, s)) n
  unfolding proceed
  proceed-Ends time_slot is_done w c skips s n fixed h turn c' s' w' e =
      subst (λ r. Within r.2 (held keep (r.1.proc)) n) (some-injective _ _ e) h
  proceed-Ends time_slot is_done w c (goes_on none t) s n fixed h turn c' s' w' e =
      subst (λ r. Within r.2 (held keep (r.1.proc)) n) (some-injective _ _ e) h
  proceed-Ends time_slot is_done w c (goes_on (some p) t) s n fixed h turn c' s' w' e =
      go (m.execute p w) refl e
    where
      ran : P × W → Option (Turn × Core P × Sched P × W)
      ran (p', w'') = some (
        next_slot,
        record { proc = some p'; time_left = decrement (if is_zero t then time_slot else t) },
        s,
        w'',
      )

      go :
          (r : Option (P × W))
          → m.execute p w ≡ r
          → (r >>= ran) ≡ some (turn, c', s', w')
          → Within s' (held keep c'.proc) n
      go none ran e = absurd (none-ne-some _ e)
      go (some (p', w'')) ran e =
          subst (λ r. Within r.2 (held keep (r.1.proc)) n) (some-injective _ _ e)
            (subst (λ k. Within s (if k then 1 else 0) n) (sym (fixed p p' w w'' ran)) h)

  pub cpu_round-Ends :
      (time_slot : ℤ) (is_done : Bool) (c : Core P) (s : Sched P) (w : W) (xss : List (List P))
      → IsKept
      → Levels s xss
      → Ends (cpu_round m time_slot is_done c s w) (total keep xss + held keep c.proc)
  unfolding cpu_round
  cpu_round-Ends time_slot is_done c s w xss fixed l turn c' s' w' e =
      go (choose m s c.time_left c.proc) refl e
    where
      go :
          (r : Option (Chosen P × Sched P))
          → choose m s c.time_left c.proc ≡ r
          → (r >>= proceed m time_slot is_done w c) ≡ some (turn, c', s', w')
          → Within s' (held keep c'.proc) (total keep xss + held keep c.proc)
      go none e e' = absurd (none-ne-some _ e')
      go (some (chosen, s₁)) e e' =
          proceed-Ends time_slot is_done w c chosen s₁ _ fixed
            (choose-Chooses s xss c.time_left c.proc l chosen s₁ e) turn c' s' w' e'
