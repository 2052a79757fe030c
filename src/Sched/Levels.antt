-- ===== src/Sched/Levels.antt =====
-- What the levels hold: a list of processes for each, in order of arrival.
use co2018_assignment.Base.{
  ℕ, ◌≤◌, ◌<◌, ◌≡◌, sym, subst, ◌∙◌, Option, none, some, List, length, get_elem?, get_elem?_of_lt,
  get_elem?_of_ge, set, length-set, get_elem?-set_ne, eq_of_get_elem?-set, store_at-in_range, arith,
}
use native.Mathlib.Decide.{ℕ_discrete, dec_lt}
use mathlib.Core.Option.{none-ne-some}
use co2018_assignment.Queue.{Schedulable, Queue}
use co2018_assignment.Queue.Content.{Holds, offer}
use co2018_assignment.Queue.Refine.{enqueue_lem}
use co2018_assignment.Sched.{Sched, max_prio, enqueue_level, put_proc, add_proc}

-- `start` says that the round-robin position has never moved.
pub record Levels {P : Type 0} (s : Sched P) (xss : List (List P)) : Type 0 where
  pub queues : length s.mlq_ready_queue ≡ max_prio
  pub lists : length xss ≡ max_prio
  pub each :
      (i : ℕ) (q : Queue P) (xs : List P)
      → get_elem? s.mlq_ready_queue i ≡ some q
      → get_elem? xss i ≡ some xs
      → Holds q xs
  pub start : s.current_prio ≡ 0

module _ {P : Type 0} where
  -- Replacing one level.
  pub Levels-set :
      {s : Sched P} {xss : List (List P)} (k : ℕ) (q : Queue P) (xs : List P)
      → k < max_prio
      → Levels s xss
      → Holds q xs
      → Levels (record s { mlq_ready_queue = set s.mlq_ready_queue k q }) (set xss k xs)
  Levels-set {s} {xss} k q xs lt l h = record {
    queues = length-set s.mlq_ready_queue k q ∙ l.queues;
    lists = length-set xss k xs ∙ l.lists;
    each = λ i q' ys eq ey. elim (ℕ_discrete k i) [
      | yes same ↦
          subst (λ t. Holds t ys)
            (eq_of_get_elem?-set s.mlq_ready_queue k i q (omega (arith, l.queues)) same eq)
            (subst (Holds q) (eq_of_get_elem?-set xss k i xs (omega (arith, l.lists)) same ey) h)
      | no other ↦
          l.each i q' ys (sym (get_elem?-set_ne s.mlq_ready_queue k i q other) ∙ eq)
            (sym (get_elem?-set_ne xss k i xs other) ∙ ey)
    ];
    start = l.start;
  }

  -- The queue at a level.
  pub queue_at :
      {s : Sched P} {xss : List (List P)} (k : ℕ) (xs : List P)
      → Levels s xss
      → get_elem? xss k ≡ some xs
      → (q : Queue P) × (get_elem? s.mlq_ready_queue k ≡ some q) × Holds q xs × (k < max_prio)
  queue_at {s} {xss} k xs l e =
      let lt = in_range in
      let (q, at) = get_elem?_of_lt s.mlq_ready_queue k (omega (arith, l.queues)) in
      (q, at, l.each k q xs at e, lt)
    where
      in_range : k < max_prio
      in_range = elim (dec_lt k max_prio) [
        | yes h ↦ h
        | no h ↦ absurd (none-ne-some _ (sym (get_elem?_of_ge xss k (omega (arith, l.lists))) ∙ e))
      ]

module _ {P : Type 0} ⦃o : Schedulable P⦄ where
  -- What putting `p` into its level does.
  pub record Queued (s : Sched P) (xss : List (List P)) (p : P) (xs : List P)
      (result : Option (Sched P)) : Type 0 where
    pub sched : Sched P
    pub returns : result ≡ some sched
    pub levels : Levels sched (set xss (o.prio p) (offer xs p))

  enqueue_level_lem :
      {s : Sched P} {xss : List (List P)} (p : P) (xs : List P)
      → Levels s xss
      → get_elem? xss (o.prio p) ≡ some xs
      → Queued s xss p xs (enqueue_level s p)
  unfolding enqueue_level
  enqueue_level_lem {s} {xss} p xs l e =
      let (q, at, h, lt) = queue_at (o.prio p) xs l e in
      let (q', put, h', _) = enqueue_lem p h in
      record {
        sched = record s { mlq_ready_queue = set s.mlq_ready_queue (o.prio p) q' };
        returns =
            rw (
              at,
              put,
              store_at-in_range s.mlq_ready_queue (o.prio p) q' (omega (arith, l.queues)),
            );
        levels = Levels-set (o.prio p) q' (offer xs p) lt l h';
      }

  -- Where the levels hold the lists `xss`, `put_proc` never faults for a process whose `prio` names a level: the process joins the end of
  -- that level, or is dropped if the level is full, and no other level changes.
  pub put_proc_lem :
      {s : Sched P} {xss : List (List P)} (p : P) (xs : List P)
      → Levels s xss
      → get_elem? xss (o.prio p) ≡ some xs
      → Queued s xss p xs (put_proc s p)
  unfolding put_proc
  put_proc_lem p xs l e = enqueue_level_lem p xs l e

  -- `add_proc` does the same.
  pub add_proc_lem :
      {s : Sched P} {xss : List (List P)} (p : P) (xs : List P)
      → Levels s xss
      → get_elem? xss (o.prio p) ≡ some xs
      → Queued s xss p xs (add_proc s p)
  unfolding add_proc
  add_proc_lem p xs l e = enqueue_level_lem p xs l e

  -- For a process whose `prio` is MAX_PRIO or more, `put_proc` and `add_proc` both fault: the access to
  -- the levels is out of range.
  pub put_proc_out_of_range :
      {s : Sched P} {xss : List (List P)} (p : P)
      → Levels s xss
      → max_prio ≤ o.prio p
      → (put_proc s p ≡ none) × (add_proc s p ≡ none)
  unfolding put_proc add_proc
  put_proc_out_of_range {s} p l h =
      let out = get_elem?_of_ge s.mlq_ready_queue (o.prio p) (omega (arith, l.queues)) in
      (rw out, rw out)
