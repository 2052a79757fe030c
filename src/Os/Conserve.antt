-- ===== src/Os/Conserve.antt =====
-- No round of `cpu_routine` in ossim_source_code/src/os.c loses a process or makes a second one.
pub mod Round
pub mod Together
use co2018_assignment.Base.{
  ℕ, zero, suc, ◌+◌, ◌<◌, ◌≡◌, ◌⊎◌, inl, inr, refl, sym, ap, subst, ◌∙◌, Bool, true, false, Option,
  none, some, List, [], ◌∷◌, ◌++◌, length, get_elem?, set, arith, if◌then◌else◌, ◌>>=◌, Bool-cases,
  Option-cases, lt→ltb, ltb,
}
use mathlib.Core.Option.{none-ne-some, some-injective}
use co2018_assignment.Base.Int.{ℤ, pos}
use co2018_assignment.Scan.Decimal.{if_true, if_false}
use co2018_assignment.Queue.{Schedulable, max_queue_size}
use co2018_assignment.Queue.Content.{offer}
use co2018_assignment.Queue.Highest.{IsHighest}
use co2018_assignment.Sched.{Sched, get_proc, put_proc}
use co2018_assignment.Sched.Levels.{Levels, Queued, put_proc_lem}
use co2018_assignment.Sched.Dispatch.{Dispatched, get_proc_lem}
use co2018_assignment.Os.{
  Machine, Core, Turn, next_slot, stopped, Chosen, skips, goes_on, choose, proceed, cpu_round,
  first_load, is_zero, decrement,
}

module _ {P : Type 0} (keep : P → Bool) where
  abbrev pub one : P → ℕ
  one p = if keep p then 1 else 0

  abbrev pub held : Option P → ℕ
  held none = 0
  held (some p) = one p

  abbrev pub count : List P → ℕ
  count [] = 0
  count (p ∷ ps) = one p + count ps

  abbrev pub total : List (List P) → ℕ
  total [] = 0
  total (ps ∷ pss) = count ps + total pss

  pub count-append : (xs ys : List P) → count (xs ++ ys) ≡ count xs + count ys
  count-append [] ys = omega arith
  count-append (x ∷ xs) ys = omega (arith, count-append xs ys)

  pub total-set :
      (xss : List (List P)) (k : ℕ) (ys : List P) {xs : List P}
      → get_elem? xss k ≡ some xs
      → total (set xss k ys) + count xs ≡ total xss + count ys
  total-set [] k ys e = absurd (none-ne-some _ e)
  total-set (zs ∷ xss) zero ys {xs} e =
      omega (arith, let same : count zs ≡ count xs = ap count (some-injective _ _ e) in same)
  total-set (zs ∷ xss) (suc k) ys e = omega (arith, total-set xss k ys e)

  module _ ⦃o : Schedulable P⦄ where
    -- What `get_proc` gives is no longer queued.
    pub record Got (s : Sched P) (xss : List (List P)) : Type 0 where
      pub proc : Option P
      pub sched : Sched P
      pub lists : List (List P)
      pub returns : get_proc s ≡ some (proc, sched)
      pub levels : Levels sched lists
      pub balance : total lists + held proc ≡ total xss

    pub get_proc-Got : (s : Sched P) (xss : List (List P)) → Levels s xss → Got s xss
    get_proc-Got s xss l = elim (get_proc_lem l) [
      | inl idle ↦ record {
        proc = none;
        sched = s;
        lists = xss;
        returns = idle.1;
        levels = l;
        balance = omega arith;
      }
      | inr d ↦ record {
        proc = some d.chosen;
        sched = d.sched;
        lists = set xss d.level (d.before ++ d.after);
        returns = d.returns;
        levels = d.levels;
        balance = omega (
          arith,
          total-set xss d.level (d.before ++ d.after) d.at,
          ap count d.highest.split,
          count-append d.before (d.chosen ∷ d.after),
          count-append d.before d.after,
        );
      }
    ]

    -- There is room at the level of the process.
    abbrev pub HasRoom : List (List P) → Option P → Type 0
    HasRoom xss none = Unit
    HasRoom xss (some p) =
        (xs : List P) × (get_elem? xss (o.prio p) ≡ some xs) × (length xs < max_queue_size)

    pub put_proc-total :
        (xss : List (List P)) (p : P) (xs : List P)
        → get_elem? xss (o.prio p) ≡ some xs
        → length xs < max_queue_size
        → total (set xss (o.prio p) (offer xs p)) ≡ total xss + one p
    put_proc-total xss p xs at room = omega (
      arith,
      total-set xss (o.prio p) (offer xs p) at,
      ap count (if_true (xs ++ (p ∷ [])) xs (lt→ltb (length xs) max_queue_size room)),
      count-append xs (p ∷ []),
    )
