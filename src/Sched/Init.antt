-- ===== src/Sched/Init.antt =====
-- `init_scheduler` on the zeroed globals.
use co2018_assignment.Base.{
  ℕ, ◌+◌, ◌≡◌, refl, subst, List, [], ◌∷◌, length, replicate, length-replicate, All, All-get,
  get_elem?-replicate, arith,
}
use co2018_assignment.Queue.{Queue, max_queue_size}
use co2018_assignment.Queue.Content.{Holds}
use co2018_assignment.Sched.{Sched, max_prio, init_levels, init_scheduler}
use co2018_assignment.Sched.Levels.{Levels}

-- Static storage: MAX_PRIO queues of MAX_QUEUE_SIZE cells, and the position at 0. What the cells and
-- the sizes are does not matter.
pub record IsStatic {P : Type 0} (s : Sched P) : Type 0 where
  pub levels : length s.mlq_ready_queue ≡ max_prio
  pub arrays : All (λ q. length q.proc ≡ max_queue_size) s.mlq_ready_queue
  pub position : s.current_prio ≡ 0

module _ {P : Type 0} where
  length-init_levels : (i : ℕ) (qs : List (Queue P)) → length (init_levels i qs) ≡ length qs
  unfolding init_levels
  length-init_levels i [] = refl
  length-init_levels i (q ∷ qs) = omega (arith, length-init_levels (i + 1) qs)

  init_levels-Holds :
      (i : ℕ) (qs : List (Queue P))
      → All (λ q. length q.proc ≡ max_queue_size) qs
      → All (λ q. Holds q []) (init_levels i qs)
  unfolding init_levels
  init_levels-Holds i [] h = tt
  init_levels-Holds i (q ∷ qs) h = (
    record { rest = q.proc; cells = refl; count = refl; whole = h.0 },
    init_levels-Holds (i + 1) qs h.1,
  )

  -- From static storage, `init_scheduler` makes every level empty, whatever was queued before.
  pub init_scheduler-Levels :
      {s : Sched P} → IsStatic s → Levels (init_scheduler s) (replicate max_prio [])
  unfolding init_scheduler
  init_scheduler-Levels {s} b = record {
    queues = omega (arith, length-init_levels 0 s.mlq_ready_queue, b.levels);
    lists = length-replicate {A = List P} max_prio [];
    each = λ i q xs eq ex. subst (Holds q) (get_elem?-replicate max_prio i [] ex) (
        All-get _ (init_levels 0 s.mlq_ready_queue) i
          (init_levels-Holds 0 s.mlq_ready_queue b.arrays) eq);
    start = b.position;
  }
