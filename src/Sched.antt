-- ===== src/Sched.antt =====
-- ossim_source_code/src/sched.c with MLQ_SCHED, as the configuration header defines it: one queue
-- for each of MAX_PRIO levels, and `get_mlq_proc`, which keeps its place in a static variable.
-- Every function that touches a queue holds `queue_lock` throughout, so a call is one step.
pub mod Levels
pub mod Dispatch
pub mod Init
pub mod Starve
pub mod Ready
pub mod Single
pub mod Unique
use co2018_assignment.Base.{
  ℕ, zero, suc, ◌+◌, ◌-◌, ◌%◌, Bool, true, false, not, Option, none, some, List, [], ◌∷◌, ltb, ◌==◌,
  ◌&&◌, if◌then◌else◌, get_elem?, ◌>>=◌, store_at,
}
use co2018_assignment.Base.Int.{ℤ, pos, negsuc}
use co2018_assignment.Queue.{Schedulable, Queue, empty, enqueue, dequeue}

abbrev pub max_prio : ℕ
max_prio = 140

-- The globals of sched.c. `current_prio` is the static variable of `get_mlq_proc`; the other one,
-- `currentPrior`, is only ever set to 0.
pub record Sched (P : Type 0) : Type 0 where
  pub ready_queue : Queue P
  pub run_queue : Queue P
  pub mlq_ready_queue : List (Queue P)
  pub current_prior : ℕ
  pub current_prio : ℕ

-- The loop of `queue_empty`.
unfoldable pub all_empty : {P : Type 0} → List (Queue P) → Bool
unfolding empty
all_empty [] = true
all_empty (q ∷ qs) = empty (some q) && all_empty qs

-- -1 if some level holds a process
unfoldable pub queue_empty : {P : Type 0} → Sched P → ℤ
unfolding all_empty
queue_empty s =
    if all_empty s.mlq_ready_queue
    then (if empty (some s.ready_queue) && empty (some s.run_queue) then pos 1 else pos 0)
    else negsuc 0

-- The loop of `init_scheduler` from level `i` on.
unfoldable pub init_levels : {P : Type 0} → ℕ → List (Queue P) → List (Queue P)
init_levels i [] = []
init_levels i (q ∷ qs) = record q { size = 0; slot = max_prio - i } ∷ init_levels (i + 1) qs

unfoldable pub init_scheduler : {P : Type 0} → Sched P → Sched P
unfolding init_levels
init_scheduler {P} s =
    let ready : Queue P = s.ready_queue in
    let run : Queue P = s.run_queue in
    record s {
      current_prior = 0;
      mlq_ready_queue = init_levels 0 s.mlq_ready_queue;
      ready_queue = record ready { size = 0 };
      run_queue = record run { size = 0 };
    }

module _ {P : Type 0} ⦃o : Schedulable P⦄ where
  -- `enqueue(&mlq_ready_queue[prio], proc)`; a level out of range is a fault.
  unfoldable pub enqueue_level : Sched P → P → Option (Sched P)
  enqueue_level s p = do
    q ← get_elem? s.mlq_ready_queue (o.prio p)
    q' ← enqueue q (some p)
    levels ← store_at s.mlq_ready_queue (o.prio p) q'
    some (record s { mlq_ready_queue = levels })

  unfoldable pub put_mlq_proc : Sched P → P → Option (Sched P)
  unfolding enqueue_level
  put_mlq_proc s p = enqueue_level s p

  unfoldable pub add_mlq_proc : Sched P → P → Option (Sched P)
  unfolding enqueue_level
  add_mlq_proc s p = enqueue_level s p

  -- `proc = dequeue(&mlq_ready_queue[prio])`, from the queue `q` at that level
  unfoldable pub dequeue_level : Sched P → ℕ → Queue P → Option (Option P × Sched P)
  dequeue_level s prio q = do
    (p, q') ← dequeue q
    levels ← store_at s.mlq_ready_queue prio q'
    some (p, record s { mlq_ready_queue = levels })

  -- The loop of `get_mlq_proc` with `left` rounds to go. `slot` is signed in the source: after
  -- `slot -= attempt` it is positive exactly if `attempt` was below it. It is local, so what it is
  -- after the loop is lost.
  unfoldable pub scan : Sched P → (slot attempt left : ℕ) → Option (Option P × Sched P)
  unfolding empty dequeue_level
  scan s slot attempt zero = some (none, s)
  scan s slot attempt (suc left) =
      let prio = (s.current_prio + attempt) % max_prio in
      let rest = scan s slot (attempt + 1) left in
      get_elem? s.mlq_ready_queue prio >>= λ q.
      if not (empty (some q))
      then (if ltb attempt slot
          then dequeue_level s prio q
          else some (none, record s { current_prio = (prio + 1) % max_prio }))
      else rest

  unfoldable pub get_mlq_proc : Sched P → Option (Option P × Sched P)
  get_mlq_proc s = scan s (max_prio - s.current_prio) 0 max_prio

  unfoldable pub get_proc : Sched P → Option (Option P × Sched P)
  unfolding get_mlq_proc
  get_proc s = get_mlq_proc s

  unfoldable pub put_proc : Sched P → P → Option (Sched P)
  unfolding put_mlq_proc
  put_proc s p = put_mlq_proc s p

  unfoldable pub add_proc : Sched P → P → Option (Sched P)
  unfolding add_mlq_proc
  add_proc s p = add_mlq_proc s p
