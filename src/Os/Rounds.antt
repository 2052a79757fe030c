-- ===== src/Os/Rounds.antt =====
-- A CPU that runs a process within its time slot.
use co2018_assignment.Base.{
  ℕ, zero, suc, ◌≡◌, refl, ap, Bool, true, false, none, some, Option, ◌>>=◌, if◌then◌else◌, ◌==◌,
  arith,
}
use mathlib.Core.Option.{none-ne-some, some-injective}
use co2018_assignment.Base.Int.{ℤ, pos}
use co2018_assignment.Queue.{Schedulable}
use co2018_assignment.Sched.{Sched, get_proc}
use co2018_assignment.Os.{
  Machine, Core, next_slot, choose, proceed, cpu_round, cpu_rounds, go_on, decrement,
}

nonzero : (n : ℕ) → (suc n == 0) ≡ false
nonzero n = ground arith

module _ {P W : Type 0} ⦃o : Schedulable P⦄ (m : Machine P W) where
  -- `n` instructions of a process that does not finish before the last of them.
  abbrev pub instructions : ℕ → P → W → Option (P × W)
  instructions zero p w = some (p, w)
  instructions (suc n) p w =
      if m.finished p then none else (do (p', w') ← m.execute p w; instructions n p' w')

  -- The process and what is shared, after a first instruction and `n` more.
  record Ahead (n : ℕ) (p : P) (w : W) (p' : P) (w' : W) : Type 0 where
    next : P
    shared : W
    going : m.finished p ≡ false
    first : m.execute p w ≡ some (next, shared)
    others : instructions n next shared ≡ some (p', w')

  ahead :
      (n : ℕ) (p p' : P) (w w' : W) → instructions (suc n) p w ≡ some (p', w') → Ahead n p w p' w'
  ahead n p p' w w' e = split (m.finished p) refl (m.execute p w) refl e
    where
      split :
          (b : Bool)
          → m.finished p ≡ b
          → (r : Option (P × W)) → m.execute p w ≡ r
          → (if b then none else r >>= λ (q, v). instructions n q v) ≡ some (p', w')
          → Ahead n p w p' w'
      split true f r g h = absurd (none-ne-some _ h)
      split false f none g h = absurd (none-ne-some _ h)
      split false f (some (q, v)) g h = record {
        next = q;
        shared = v;
        going = f;
        first = g;
        others = h;
      }

  abbrev running : P → ℤ → Core P
  running p t = record { proc = some p; time_left = t }

  keep_round :
      (time_slot : ℤ) (is_done : Bool) (k : ℕ) (s : Sched P) (p q : P) (w v : W)
      → m.finished p ≡ false
      → m.execute p w ≡ some (q, v)
      → cpu_round m time_slot is_done (record { proc = some p; time_left = pos (suc k) }) s w
        ≡ some (next_slot, record { proc = some q; time_left = pos k }, s, v)
  unfolding cpu_round choose proceed
  keep_round time_slot is_done k s p q w v f g =
      rw (f, nonzero k, g)
        (ap
          (λ b.
            some (next_slot, running q (decrement (if b then time_slot else pos (suc k))), s, v))
          (nonzero k))

  keep_rounds :
      (n : ℕ) (time_slot : ℤ) (is_done : Bool) (s : Sched P) (p p' : P) (w w' : W)
      → instructions n p w ≡ some (p', w')
      → cpu_rounds m n time_slot is_done (record { proc = some p; time_left = pos n }) s w
        ≡ some (next_slot, record { proc = some p'; time_left = pos 0 }, s, w')
  unfolding cpu_rounds go_on
  keep_rounds zero time_slot is_done s p p' w w' e =
      ap (λ (x : P × W). some (next_slot, running x.0 (pos 0), s, x.1)) (some-injective _ _ e)
  keep_rounds (suc n) time_slot is_done s p p' w w' e =
      let a = ahead n p p' w w' e in
      rw (keep_round time_slot is_done n s p a.next w a.shared a.going a.first)
        (keep_rounds n time_slot is_done s a.next p' a.shared w' a.others)

  first_round :
      (k : ℕ) (is_done : Bool) (s s' : Sched P) (p q : P) (w v : W)
      → get_proc s ≡ some (some p, s')
      → m.execute p w ≡ some (q, v)
      → cpu_round m (pos (suc k)) is_done (record { proc = none; time_left = pos 0 }) s w
        ≡ some (next_slot, running q (pos k), s', v)
  unfolding cpu_round choose proceed
  first_round k is_done s s' p q w v got ran = rw (got, ran) refl

  -- A CPU without a process, to which the scheduler gives `p`, runs it for a whole time slot of `k + 1`
  -- rounds, if it neither finishes nor faults before the last of its instructions: one instruction
  -- each round, without the scheduler being called again. Then the slot is used up.
  pub full_time_slot :
      (k : ℕ) (is_done : Bool) (s s' : Sched P) (p p' : P) (w w' : W)
      → get_proc s ≡ some (some p, s')
      → instructions (suc k) p w ≡ some (p', w')
      → cpu_rounds m (suc k) (pos (suc k)) is_done (record { proc = none; time_left = pos 0 }) s w
        ≡ some (next_slot, record { proc = some p'; time_left = pos 0 }, s', w')
  unfolding cpu_rounds go_on
  full_time_slot k is_done s s' p p' w w' got e =
      let a = ahead k p p' w w' e in
      rw (first_round k is_done s s' p a.next w a.shared got a.first)
        (keep_rounds k (pos (suc k)) is_done s' a.next p' a.shared w' a.others)
