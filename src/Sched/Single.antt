-- ===== src/Sched/Single.antt =====
-- The functions of ossim_source_code/src/sched.c without MLQ_SCHED: one queue from which processes
-- are dispatched, and one to which they are put back.
pub mod Dispatched
use co2018_assignment.Base.{Option, none, some, List, [], ◌∷◌, ◌>>=◌}
use co2018_assignment.Queue.{Schedulable, Queue, enqueue, dequeue}

-- The globals of that build.
pub record Queues (P : Type 0) : Type 0 where
  pub ready_queue : Queue P
  pub run_queue : Queue P

-- A call from outside.
pub data SchedCall (P : Type 0) : Type 0 where
  gets : SchedCall P
  puts : P → SchedCall P
  adds : P → SchedCall P

-- The process that a call has returned, before those of the later calls.
abbrev pub onto : {P : Type 0} → Option P → List P → List P
onto none ps = ps
onto (some p) ps = p ∷ ps

module _ {P : Type 0} ⦃o : Schedulable P⦄ where
  unfoldable pub get_proc_single : Queues P → Option (Option P × Queues P)
  get_proc_single s = do (p, q) ← dequeue s.ready_queue; some (p, record s { ready_queue = q })

  unfoldable pub put_proc_single : Queues P → P → Option (Queues P)
  put_proc_single s p = do q ← enqueue s.run_queue (some p); some (record s { run_queue = q })

  unfoldable pub add_proc_single : Queues P → P → Option (Queues P)
  add_proc_single s p = do q ← enqueue s.ready_queue (some p); some (record s { ready_queue = q })

  -- One call, with the process that it returns.
  unfoldable pub sched_call : SchedCall P → Queues P → Option (Option P × Queues P)
  unfolding get_proc_single put_proc_single add_proc_single
  sched_call gets s = get_proc_single s
  sched_call (puts p) s = do s' ← put_proc_single s p; some (none, s')
  sched_call (adds p) s = do s' ← add_proc_single s p; some (none, s')

  -- The processes that a sequence of calls dispatches, in order.
  unfoldable pub sched_calls : List (SchedCall P) → Queues P → Option (List P × Queues P)
  unfolding sched_call
  sched_calls [] s = some ([], s)
  sched_calls (c ∷ cs) s = do
    (p, s') ← sched_call c s
    (ps, t) ← sched_calls cs s'
    some (onto p ps, t)
