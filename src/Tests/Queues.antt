-- ===== src/Tests/Queues.antt =====
-- The queue functions on a queue of two processes.
use co2018_assignment.Base.{◌≡◌, refl, none, some, [], ◌∷◌, replicate, store_at, Bool, ◌==◌}
use co2018_assignment.Queue.{Queue, enqueue, dequeue}
use co2018_assignment.Queue.Content.{Holds, offer}
use co2018_assignment.Queue.Refine.{Taken, enqueue_lem, dequeue_lem}
use co2018_assignment.Sched.Single.{Queues, gets, puts, sched_calls}
use co2018_assignment.Sched.Single.Dispatched.{CalledAll, sched_calls-CalledAll}
use co2018_assignment.Tests.{Task, task_Schedulable, low, high, two_queue}

two_queue-Holds : Holds two_queue (low ∷ high ∷ [])
two_queue-Holds = record { rest = replicate 8 none; cells = refl; count = refl; whole = refl }

two_ne_nil : low ∷ high ∷ [] ≡ [] → ⊥
two_ne_nil e = cc

enqueue_lem_example :
    (q' : Queue Task) × (enqueue two_queue (some low) ≡ some q')
    × Holds q' (offer (low ∷ high ∷ []) low)
    × (q'.slot ≡ 0)
enqueue_lem_example = enqueue_lem {q = two_queue} {xs = low ∷ high ∷ []} low two_queue-Holds

dequeue_lem_example : Taken two_queue (low ∷ high ∷ [])
dequeue_lem_example = dequeue_lem {q = two_queue} {xs = low ∷ high ∷ []} two_ne_nil two_queue-Holds

-- The process of the higher priority leaves first.
dequeue_test :
    dequeue two_queue
    ≡ some
        (some high, record { proc = some low ∷ some high ∷ replicate 8 none; size = 1; slot = 0 })
unfolding dequeue
dequeue_test = refl

-- The one process that is ready is dispatched, put back, and asked for again.
abbrev one_ready : Queues Task
one_ready = record {
  ready_queue = record { proc = some low ∷ replicate 9 none; size = 1; slot = 0 };
  run_queue = record { proc = replicate 10 none; size = 0; slot = 0 };
}

put_back_test :
    (t : Queues Task) × (sched_calls (gets ∷ puts low ∷ gets ∷ []) one_ready ≡ some (low ∷ [], t))
unfolding sched_calls dequeue enqueue store_at
put_back_test = (_, refl)

abbrev is_low : Task → Bool
is_low t = t.pid == 1

sched_calls-CalledAll_example : CalledAll is_low (gets ∷ puts low ∷ gets ∷ []) one_ready (low ∷ [])
sched_calls-CalledAll_example =
    sched_calls-CalledAll is_low (gets ∷ puts low ∷ gets ∷ []) one_ready (low ∷ []) [] (record {
      ready_queue = record { rest = replicate 9 none; cells = refl; count = refl; whole = refl };
      run_queue = record { rest = replicate 10 none; cells = refl; count = refl; whole = refl };
    })
