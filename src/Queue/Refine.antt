-- ===== src/Queue/Refine.antt =====
-- The array functions do what the abstract queue does.
use co2018_assignment.Base.{
  ℕ, suc, ◌+◌, ◌-◌, ◌<◌, ◌≡◌, ◌≢◌, refl, ap, ◌∙◌, Option, none, some, List, [], ◌∷◌, ◌++◌, map,
  length, ltb, ◌==◌, length-append, length-map, length-set, set, set-append, get_elem?,
  get_elem?-append, append_assoc, store_at-in_range, Bool-cases, inl, inr, arith,
}
use mathlib.Core.List.{map-append}
use co2018_assignment.Queue.{
  Schedulable, Queue, max_queue_size, empty, enqueue, dequeue, find_highest, shift_down,
}
use co2018_assignment.Queue.Content.{Holds, offer}
use co2018_assignment.Queue.Highest.{IsHighest, Found, search_all, shift_down_lem, last_of}

module _ {P : Type 0} where
  -- `empty` answers 1 exactly on a queue that holds nothing.
  pub empty_lem : (q : Queue P) (xs : List P) → Holds q xs → empty (some q) ≡ (length xs == 0)
  unfolding empty
  empty_lem q xs h = rw h.count

  length-Holds : {q : Queue P} {xs : List P} (h : Holds q xs) → length xs + length h.rest ≡ 10
  length-Holds {xs} h = omega (
    arith,
    ap length h.cells,
    h.whole,
    length-append (map some xs) h.rest,
    length-map (λ (x : P). some x) xs,
  )

  -- The write at the end of the content.
  Holds-write :
      {q : Queue P} {xs : List P} (p : P) (h : Holds q xs)
      → length xs < 10
      → (q' : Queue P) × (enqueue q (some p) ≡ some q')
        × Holds q' (xs ++ (p ∷ []))
        × (q'.slot ≡ q.slot)
  unfolding enqueue
  Holds-write {q} {xs} p h lt = go h.rest h.cells (length-Holds h)
    where
      go :
          (rest : List (Option P))
          → q.proc ≡ map some xs ++ rest
          → length xs + length rest ≡ 10
          → (q' : Queue P) × (enqueue q (some p) ≡ some q')
            × Holds q' (xs ++ (p ∷ []))
            × (q'.slot ≡ q.slot)
      go [] e n = absurd (omega arith)
      go (r ∷ rest) e n = (
        record q { proc = set q.proc q.size (some p); size = q.size + 1 },
        ground (arith, h.count, store_at-in_range q.proc q.size (some p)),
        record {
          rest = rest;
          cells =
              rw (e, h.count, ← length-map (λ (x : P). some x) xs)
                (set-append (map some xs) r (some p) rest ∙ rw (map-append, append_assoc));
          count = omega (arith, h.count, length-append xs (p ∷ []));
          whole = length-set q.proc q.size (some p) ∙ h.whole;
        },
        refl,
      )

  -- On a queue that holds `xs`, `enqueue` never faults: it appends the process, and drops it where
  -- `MAX_QUEUE_SIZE` processes are queued already.
  pub enqueue_lem :
      {q : Queue P} {xs : List P} (p : P)
      → Holds q xs
      → (q' : Queue P) × (enqueue q (some p) ≡ some q') × Holds q' (offer xs p) × (q'.slot ≡ q.slot)
  enqueue_lem {q} {xs} p h = elim (Bool-cases (ltb (length xs) max_queue_size)) [
    | inl room ↦ rw room (Holds-write p h (ground arith))
    | inr full ↦ rw full (q, unfold enqueue in ground (arith, h.count), h, refl)
  ]

module _ {P : Type 0} ⦃s : Schedulable P⦄ where
  dequeue_steps :
      (q : Queue P) (best : ℕ) (p : Option P) (proc : List (Option P))
      → q.size ≢ 0
      → find_highest q.proc 0 q.size 0 ≡ some best
      → get_elem? q.proc best ≡ some p
      → shift_down q.proc (best + 1) (q.size - (best + 1)) ≡ some proc
      → dequeue q ≡ some (p, record q { proc = proc; size = q.size - 1 })
  unfolding dequeue
  dequeue_steps q best p proc ne found read shifted = ground (arith, found, read, shifted)

  -- What `dequeue` does to a queue that holds `xs`.
  pub record Taken (q : Queue P) (xs : List P) : Type 0 where
    pub before : List P
    pub chosen : P
    pub after : List P
    pub queue : Queue P
    pub result : dequeue q ≡ some (some chosen, queue)
    pub highest : IsHighest xs before chosen after
    pub left : Holds queue (before ++ after)

  Taken-Found :
      {q : Queue P} {xs : List P}
      → xs ≢ []
      → Holds q xs
      → Found xs (find_highest q.proc 0 q.size 0)
      → Taken q xs
  Taken-Found {q} {xs} ne h f = record {
    before = f.before;
    chosen = f.chosen;
    after = f.after;
    queue = record q { proc = shifted; size = q.size - 1 };
    result =
        dequeue_steps q (length f.before) (some f.chosen) shifted (omega (arith, size_split))
          f.index read moved;
    highest = f.highest;
    left = record {
      rest = last_of (some f.chosen) (map some f.after) ∷ h.rest;
      cells = rw (map-append, append_assoc);
      count = omega (arith, size_split, length-append f.before f.after);
      whole = omega (arith, kept, h.whole);
    };
  }
    where
      cells_split : q.proc ≡ map some f.before ++ (some f.chosen ∷ (map some f.after ++ h.rest))
      cells_split = h.cells ∙ rw (f.highest.split, map-append, append_assoc)

      size_split : q.size ≡ length f.before + suc (length f.after)
      size_split =
          omega
            (arith, h.count, ap length f.highest.split, length-append f.before (f.chosen ∷ f.after))

      read : get_elem? q.proc (length f.before) ≡ some (some f.chosen)
      read =
          rw (cells_split, ← length-map (λ (x : P). some x) f.before)
            (get_elem?-append (map some f.before) (some f.chosen) (map some f.after ++ h.rest))

      shifted : List (Option P)
      shifted =
          map some f.before
          ++ (map some f.after ++ (last_of (some f.chosen) (map some f.after) ∷ h.rest))

      rounds : q.size - (length f.before + 1) ≡ length {A = Option P} (map some f.after)
      rounds = omega (arith, size_split, length-map (λ (x : P). some x) f.after)

      moved :
          shift_down q.proc (length f.before + 1) (q.size - (length f.before + 1)) ≡ some shifted
      moved = rw rounds (
          shift_down_lem (map some f.after) (map some f.before) (some f.chosen) h.rest q.proc
            (length f.before + 1) cells_split
            (omega (arith, length-map (λ (x : P). some x) f.before)))

      kept : length shifted ≡ length q.proc
      kept =
          rw
            (
              cells_split,
              length-append (map some f.before)
                  (map some f.after ++ (last_of (some f.chosen) (map some f.after) ∷ h.rest)),
              length-append (map some f.before) (some f.chosen ∷ (map some f.after ++ h.rest)),
              length-append (map some f.after) h.rest,
              length-append (map some f.after)
                  (last_of (some f.chosen) (map some f.after) ∷ h.rest),
            )
            (omega arith)

  -- On a queue that holds the list `xs`, which is not empty, `dequeue` never faults. It takes out the process with the
  -- highest `priority`, among equals the one that came first, and the others keep their order.
  pub dequeue_lem : {q : Queue P} {xs : List P} → xs ≢ [] → Holds q xs → Taken q xs
  dequeue_lem {xs = []} ne h = absurd (ne refl)
  dequeue_lem {xs = x ∷ ws} ne h =
      Taken-Found ne h (rw (h.cells, h.count) (search_all (x ∷ ws) h.rest x ws refl))

  -- From an empty queue `dequeue` returns the null pointer, and leaves the queue as it is.
  pub dequeue_empty : {q : Queue P} → Holds q [] → dequeue q ≡ some (none, q)
  unfolding dequeue
  dequeue_empty {q} h = rw h.count
