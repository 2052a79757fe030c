-- ===== src/Sched/Single/Dispatched.antt =====
-- Which processes ossim_source_code/src/sched.c dispatches without MLQ_SCHED.
use co2018_assignment.Base.{
  ℕ, ◌+◌, ◌≤◌, ◌≡◌, refl, ap, ◌∙◌, Bool, Option, none, some, List, [], ◌∷◌, ◌++◌, arith, ◌>>=◌,
}
use co2018_assignment.Queue.{Schedulable}
use co2018_assignment.Queue.Content.{Holds, offer}
use co2018_assignment.Queue.Refine.{Taken, enqueue_lem, dequeue_lem, dequeue_empty}
use co2018_assignment.Sched.Single.{
  Queues, SchedCall, gets, puts, adds, onto, get_proc_single, put_proc_single, add_proc_single,
  sched_call, sched_calls,
}
use co2018_assignment.Os.Conserve.{one, held, count, count-append}
use co2018_assignment.Os.Threads.Put.{count-offer}

module _ {P : Type 0} ⦃o : Schedulable P⦄ where
  -- The content of the two queues.
  pub record AreQueues (s : Queues P) (ready run : List P) : Type 0 where
    pub ready_queue : Holds s.ready_queue ready
    pub run_queue : Holds s.run_queue run

  -- The processes that `add_proc` is called with.
  abbrev pub added : List (SchedCall P) → List P
  added [] = []
  added (adds p ∷ cs) = p ∷ added cs
  added (gets ∷ cs) = added cs
  added (puts p ∷ cs) = added cs

  module _ (keep : P → Bool) where
    abbrev brought : SchedCall P → ℕ
    brought (adds p) = one keep p
    brought gets = 0
    brought (puts p) = 0

    record Called (c : SchedCall P) (s : Queues P) (ready : List P) : Type 0 where
      pub proc : Option P
      pub queues : Queues P
      pub ready_after : List P
      pub run_after : List P
      pub returns : sched_call c s ≡ some (proc, queues)
      pub content : AreQueues queues ready_after run_after
      pub balance : held keep proc + count keep ready_after ≤ count keep ready + brought c

    sched_call-Called :
        (c : SchedCall P) (s : Queues P) (ready run : List P)
        → AreQueues s ready run
        → Called c s ready
    unfolding sched_call get_proc_single put_proc_single add_proc_single
    sched_call-Called gets s [] run h = record {
      proc = none;
      queues = s;
      ready_after = [];
      run_after = run;
      returns =
          ap (λ r. r >>= (λ q. some (q.0, record s { ready_queue = q.1 })))
            (dequeue_empty h.ready_queue);
      content = h;
      balance = omega arith;
    }
    sched_call-Called gets s (p ∷ ps) run h =
        let t : Taken s.ready_queue (p ∷ ps) = dequeue_lem (λ e. cc) h.ready_queue in
        record {
          proc = some t.chosen;
          queues = record s { ready_queue = t.queue };
          ready_after = t.before ++ t.after;
          run_after = run;
          returns = ap (λ r. r >>= (λ q. some (q.0, record s { ready_queue = q.1 }))) t.result;
          content = record { ready_queue = t.left; run_queue = h.run_queue };
          balance = omega (
            arith,
            ap (count keep) t.highest.split,
            count-append keep t.before (t.chosen ∷ t.after),
            count-append keep t.before t.after,
          );
        }
    sched_call-Called (puts p) s ready run h =
        let (q, e, held_after, _) = enqueue_lem p h.run_queue in
        record {
          proc = none;
          queues = record s { run_queue = q };
          ready_after = ready;
          run_after = offer run p;
          returns =
              ap (λ r. r >>= (λ q. some (record s { run_queue = q })) >>= (λ s. some (none, s))) e;
          content = record { ready_queue = h.ready_queue; run_queue = held_after };
          balance = omega arith;
        }
    sched_call-Called (adds p) s ready run h =
        let (q, e, held_after, _) = enqueue_lem p h.ready_queue in
        record {
          proc = none;
          queues = record s { ready_queue = q };
          ready_after = offer ready p;
          run_after = run;
          returns =
              ap (λ r. r >>= (λ q. some (record s { ready_queue = q })) >>= (λ s. some (none, s)))
                e;
          content = record { ready_queue = held_after; run_queue = h.run_queue };
          balance = omega (arith, count-offer keep ready p);
        }

    pub record CalledAll (cs : List (SchedCall P)) (s : Queues P) (ready : List P) : Type 0 where
      pub dispatched : List P
      pub queues : Queues P
      pub ready_after : List P
      pub run_after : List P
      pub returns : sched_calls cs s ≡ some (dispatched, queues)
      pub content : AreQueues queues ready_after run_after
      pub balance :
          count keep dispatched + count keep ready_after ≤ count keep ready + count keep (added cs)

    count-onto : (p : Option P) (ps : List P) → count keep (onto p ps) ≡ held keep p + count keep ps
    count-onto none ps = omega arith
    count-onto (some p) ps = omega arith

    count-added :
        (c : SchedCall P) (cs : List (SchedCall P))
        → count keep (added (c ∷ cs)) ≡ brought c + count keep (added cs)
    count-added gets cs = omega arith
    count-added (puts p) cs = omega arith
    count-added (adds p) cs = omega arith

    -- Without MLQ_SCHED no sequence of calls faults, and a process that is put back is not dispatched
    -- again: of the processes that pass a test, the calls of `get_proc` return no more than there were
    -- in `ready_queue` at the start and `add_proc` was called with, less those that are still
    -- there, however often `put_proc` was called.
    pub sched_calls-CalledAll :
        (cs : List (SchedCall P)) (s : Queues P) (ready run : List P)
        → AreQueues s ready run
        → CalledAll cs s ready
    unfolding sched_calls
    sched_calls-CalledAll [] s ready run h = record {
      dispatched = [];
      queues = s;
      ready_after = ready;
      run_after = run;
      returns = refl;
      content = h;
      balance = omega arith;
    }
    sched_calls-CalledAll (c ∷ cs) s ready run h =
        let f : Called c s ready = sched_call-Called c s ready run h in
        let r : CalledAll cs f.queues f.ready_after =
          sched_calls-CalledAll cs f.queues f.ready_after f.run_after f.content in
        record {
          dispatched = onto f.proc r.dispatched;
          queues = r.queues;
          ready_after = r.ready_after;
          run_after = r.run_after;
          returns =
              ap (λ o. o >>= (λ q. sched_calls cs q.1 >>= (λ t. some (onto q.0 t.0, t.1))))
                f.returns
              ∙ ap (λ o. o >>= (λ t. some (onto f.proc t.0, t.1))) r.returns;
          content = r.content;
          balance =
              omega (arith, f.balance, r.balance, count-onto f.proc r.dispatched, count-added c cs);
        }
