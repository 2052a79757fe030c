-- ===== src/Os/Conserve/Together.antt =====
-- One round of `cpu_routine` of ossim_source_code/src/os.c for all tests on processes at once.
use co2018_assignment.Base.{
  ◌+◌, ◌≡◌, refl, sym, ap, subst, ◌∙◌, Bool, Option, none, some, List, arith, ◌>>=◌, if◌then◌else◌,
}
use mathlib.Core.Option.{none-ne-some, some-injective}
use co2018_assignment.Base.Int.{ℤ}
use co2018_assignment.Queue.{Schedulable}
use co2018_assignment.Sched.{Sched}
use co2018_assignment.Sched.Levels.{Levels}
use co2018_assignment.Sched.Unique.{Levels-unique}
use co2018_assignment.Os.{
  Machine, Core, Turn, next_slot, Chosen, skips, goes_on, proceed, cpu_round, is_zero, decrement,
}
use co2018_assignment.Os.Conserve.{held, total}
use co2018_assignment.Os.Conserve.Round.{departs, chosen_count, Picked, RoomFor, choose-Picked}
use co2018_assignment.Os.Drained.{any}

module _ {P W : Type 0} ⦃o : Schedulable P⦄ (m : Machine P W) where
  abbrev chosen_proc : Chosen P → Option P
  chosen_proc skips = none
  chosen_proc (goes_on proc t) = proc

  -- What the second part does with the process that the first part has left.
  abbrev pub Runs : Option P → W → Option P → Type 0
  Runs none w after = after ≡ none
  Runs (some p) w after = (p' : P) × (w' : W) × (m.execute p w ≡ some (p', w')) × (after ≡ some p')

  -- A round that ended: the process it went on with, and where the others are.
  pub record Turned (c : Core P) (w : W) (c' : Core P) (s' : Sched P) (xss : List (List P))
      : Type 0 where
    pub proc : Option P
    pub lists : List (List P)
    pub levels : Levels s' lists
    pub runs : Runs proc w c'.proc
    pub balance :
        (keep : P → Bool)
        → total keep lists + held keep proc + departs m keep c.proc
          ≡ total keep xss + held keep c.proc

  abbrev Goes : W → Chosen P → Sched P → Turn × Core P × Sched P × W → Type 0
  Goes w chosen s (_, c', s', _) = Runs (chosen_proc chosen) w c'.proc × (s ≡ s')

  proceed-Goes :
      (time_slot : ℤ) (is_done : Bool) (w : W) (c : Core P) (chosen : Chosen P) (s : Sched P)
      {r : Turn × Core P × Sched P × W}
      → proceed m time_slot is_done w c (chosen, s) ≡ some r
      → Goes w chosen s r
  unfolding proceed
  proceed-Goes time_slot is_done w c skips s e =
      subst (Goes w skips s) (some-injective _ _ e) (refl, refl)
  proceed-Goes time_slot is_done w c (goes_on none t) s e =
      subst (Goes w (goes_on none t) s) (some-injective _ _ e) (refl, refl)
  proceed-Goes time_slot is_done w c (goes_on (some p) t) s {r} e = go (m.execute p w) refl e
    where
      go :
          (x : Option (P × W))
          → m.execute p w ≡ x
          → (x >>= λ (p', w'). some (
            next_slot,
            record { proc = some p'; time_left = decrement (if is_zero t then time_slot else t) },
            s,
            w',
          ))
            ≡ some r
          → Goes w (goes_on (some p) t) s r
      go none q e = absurd (none-ne-some _ e)
      go (some (p', w')) q e =
          subst (Goes w (goes_on (some p) t) s) (some-injective _ _ e) ((p', w', q, refl), refl)

  count_proc :
      (keep : P → Bool) (chosen : Chosen P)
      → chosen_count m keep chosen ≡ held keep (chosen_proc chosen)
  count_proc keep skips = refl
  count_proc keep (goes_on proc t) = refl

  module _ (time_slot : ℤ) (is_done : Bool) (c : Core P) (s : Sched P) (w : W) (xss : List (List P))
      (levels : Levels s xss) (room : RoomFor m any xss c.time_left c.proc) where
    k : (keep : P → Bool) → Picked m keep s xss c.time_left c.proc
    k keep = choose-Picked m keep s xss c.time_left c.proc levels room

    -- The first part does not depend on the test.
    same : (keep : P → Bool) → ((k any).chosen ≡ (k keep).chosen) × ((k any).sched ≡ (k keep).sched)
    same keep = (ap (λ r. r.0) eq, ap (λ r. r.1) eq)
      where
        first : Chosen P × Sched P
        first = ((k any).chosen, (k any).sched)

        second : Chosen P × Sched P
        second = ((k keep).chosen, (k keep).sched)

        eq : first ≡ second
        eq = some-injective _ _ (sym (k any).returns ∙ (k keep).returns)

    same_lists : (keep : P → Bool) → (k keep).lists ≡ (k any).lists
    same_lists keep =
        Levels-unique (subst (λ s. Levels s (k keep).lists) (sym (same keep).1) (k keep).levels)
          (k any).levels

    pub cpu_round-Turned :
        {turn : Turn} {c' : Core P} {s' : Sched P} {w' : W}
        → cpu_round m time_slot is_done c s w ≡ some (turn, c', s', w')
        → Turned c w c' s' xss
    unfolding cpu_round
    cpu_round-Turned {turn} {c'} {s'} {w'} e = record {
      proc = chosen_proc (k any).chosen;
      lists = (k any).lists;
      levels = subst (λ s. Levels s (k any).lists) g.1 (k any).levels;
      runs = g.0;
      balance = λ keep. omega (
        arith,
        (k keep).balance,
        ap (total keep) (same_lists keep),
        ap (chosen_count m keep) (same keep).0,
        count_proc keep (k any).chosen,
      );
    }
      where
        g : Goes w (k any).chosen (k any).sched (turn, c', s', w')
        g =
            proceed-Goes time_slot is_done w c (k any).chosen (k any).sched
              (sym (ap (λ r. r >>= proceed m time_slot is_done w c) (k any).returns) ∙ e)
