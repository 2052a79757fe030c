-- ===== src/Queue.antt =====
-- `struct queue_t` of ossim_source_code/include/queue.h and the functions of
-- ossim_source_code/src/queue.c, at the level of the array: `proc` holds MAX_QUEUE_SIZE pointers,
-- of which the first `size` are queued. A null pointer is `none`, and to read its field, or a cell
-- out of range, is a fault. The functions are generic in the process type, of which they read the
-- field `priority` alone.
pub mod Content
pub mod Highest
pub mod Refine
use co2018_assignment.Base.{
  ℕ, zero, suc, ◌+◌, ◌-◌, Bool, true, false, Option, none, some, List, ltb, leb, ◌==◌, ◌&&◌,
  if◌then◌else◌, get_elem?, ◌>>=◌, store_at, replicate,
}

abbrev pub max_queue_size : ℕ
max_queue_size = 10

-- The fields of `struct pcb_t` that queue.c and sched.c read.
pub record Schedulable (P : Type 0) : Type 0 where
  pub priority : P → ℕ
  pub prio : P → ℕ

pub record Queue (P : Type 0) : Type 0 where
  pub proc : List (Option P)
  pub size : ℕ
  pub slot : ℕ

-- `q->proc[i]`, a pointer that is followed next
unfoldable pub deref {ℓ} : {P : Type ℓ} → List (Option P) → ℕ → Option P
deref proc i = get_elem? proc i >>= λ p. p

-- The result 1 or 0; a null queue is empty.
unfoldable pub empty : {P : Type 0} → Option (Queue P) → Bool
empty none = true
empty (some q) = q.size == 0

-- `size` is never negative: it starts at 0, and falls only where it is not 0.
unfoldable pub enqueue : {P : Type 0} → Queue P → Option P → Option (Queue P)
enqueue q p =
    if ltb q.size max_queue_size
    then (do proc ← store_at q.proc q.size p; some (record q { proc = proc; size = q.size + 1 }))
    else some q

-- The second loop of `dequeue` at index `i`, with `left` rounds to go: `q->proc[i-1] = q->proc[i]`.
unfoldable pub shift_down {ℓ} : {A : Type ℓ} → List A → ℕ → ℕ → Option (List A)
shift_down proc i zero = some proc
shift_down proc i (suc left) = do
  p ← get_elem? proc i
  proc' ← store_at proc (i - 1) p
  shift_down proc' (i + 1) left

module _ {P : Type 0} ⦃s : Schedulable P⦄ where
  -- The first loop of `dequeue` at index `i`, with `left` rounds to go.
  unfoldable pub find_highest : List (Option P) → ℕ → ℕ → ℕ → Option ℕ
  unfolding deref
  find_highest proc i zero best = some best
  find_highest proc i (suc left) best = do
    p ← deref proc i
    b ← deref proc best
    find_highest proc (i + 1) left (if ltb (s.priority b) (s.priority p) then i else best)

  -- The pointer that is returned, and the queue after it.
  unfoldable pub dequeue : Queue P → Option (Option P × Queue P)
  unfolding find_highest shift_down
  dequeue q = if q.size == 0 then some (none, q) else (do
    best ← find_highest q.proc 0 q.size 0
    p ← get_elem? q.proc best
    proc ← shift_down q.proc (best + 1) (q.size - (best + 1))
    some (p, record q { proc = proc; size = q.size - 1 }))
