-- ===== src/Tests/Levels.antt =====
-- The scheduler, with a process in level 1.
use co2018_assignment.Base.{
  ℕ, zero, suc, ◌≡◌, refl, none, some, List, [], ◌∷◌, replicate, set, All, arith, ◌⊎◌, length,
}
use co2018_assignment.Queue.{Queue, max_queue_size}
use co2018_assignment.Sched.{Sched, max_prio, init_scheduler, get_proc, put_proc, queue_empty}
use co2018_assignment.Sched.Levels.{Levels, Queued, put_proc_lem}
use co2018_assignment.Sched.Dispatch.{Answer, IsIdle, get_proc_lem}
use co2018_assignment.Sched.Init.{IsStatic, init_scheduler-Levels}
use co2018_assignment.Sched.Ready.{IsReady, queue_empty_lem}
use co2018_assignment.Base.Int.{pos, negsuc}
use co2018_assignment.Sched.Starve.{IsAlone, rounds, starvation}
use co2018_assignment.Tests.{Task, task_Schedulable, low}

abbrev zeroed : Queue Task
zeroed = record { proc = replicate 10 none; size = 0; slot = 0 }

abbrev static : Sched Task
static = record {
  ready_queue = zeroed;
  run_queue = zeroed;
  mlq_ready_queue = replicate 140 zeroed;
  current_prior = 0;
  current_prio = 0;
}

All-replicate :
    (n : ℕ) → All (λ (q : Queue Task). length q.proc ≡ max_queue_size) (replicate n zeroed)
All-replicate zero = tt
All-replicate (suc n) = (refl, All-replicate n)

static-IsStatic : IsStatic static
static-IsStatic = record { levels = refl; arrays = All-replicate 140; position = refl }

abbrev no_tasks : List (List Task)
no_tasks = replicate max_prio []

started : Levels (init_scheduler static) no_tasks
started = init_scheduler-Levels static-IsStatic

put_proc_lem_example :
    Queued (init_scheduler static) no_tasks low [] (put_proc (init_scheduler static) low)
put_proc_lem_example = put_proc_lem {s = init_scheduler static} {xss = no_tasks} low [] started refl

abbrev far : Task
far = record { pid = 3; task_priority = 0; task_prio = 140 }

busy : Queued (init_scheduler static) no_tasks low [] (put_proc (init_scheduler static) low)
busy = put_proc_lem low [] started refl

abbrev one_task : List (List Task)
one_task = set no_tasks 1 (low ∷ [])

get_proc_lem_example : Answer busy.sched one_task (get_proc busy.sched)
get_proc_lem_example = get_proc_lem {s = busy.sched} {xss = one_task} busy.levels

IsIdle-below : IsIdle one_task 1
IsIdle-below zero lt = refl
IsIdle-below (suc j) lt = absurd (omega arith)

busy-IsAlone : IsAlone busy.sched one_task low
busy-IsAlone = record { levels = busy.levels; at = refl; first = IsIdle-below }

starvation_example :
    (t : Sched Task) × (rounds 5 busy.sched ≡ some (replicate 5 low, t)) × Levels t one_task
starvation_example = starvation 5 {s = busy.sched} {xss = one_task} {p = low} busy-IsAlone

queue_empty_lem_example :
    ((queue_empty (init_scheduler static) ≡ pos 1) × IsIdle no_tasks max_prio)
    ⊎ ((queue_empty (init_scheduler static) ≡ negsuc 0) × IsReady no_tasks)
unfolding init_scheduler
queue_empty_lem_example =
    queue_empty_lem {s = init_scheduler static} {xss = no_tasks} started refl refl
