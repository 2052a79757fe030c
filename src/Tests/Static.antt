-- ===== src/Tests/Static.antt =====
-- The scheduler's globals of ossim_source_code/src/sched.c before `init_scheduler`.
use co2018_assignment.Base.{ℕ, zero, suc, ◌≡◌, refl, none, [], length, replicate, All, arith}
use co2018_assignment.Queue.{Queue}
use co2018_assignment.Cpu.{Pcb}
use co2018_assignment.Sched.{Sched}
use co2018_assignment.Sched.Init.{IsStatic}
use co2018_assignment.Sched.Dispatch.{IsIdle}

abbrev pub vacant : Queue Pcb
vacant = record { proc = replicate 10 none; size = 0; slot = 0 }

abbrev pub static : Sched Pcb
static = record {
  ready_queue = vacant;
  run_queue = vacant;
  mlq_ready_queue = replicate 140 vacant;
  current_prior = 0;
  current_prio = 0;
}

All-replicate :
    (n : ℕ) (q : Queue Pcb) → length q.proc ≡ 10 → All (λ q. length q.proc ≡ 10) (replicate n q)
All-replicate zero q h = tt
All-replicate (suc n) q h = (h, All-replicate n q h)

pub static-IsStatic : IsStatic static
static-IsStatic = record { levels = refl; arrays = All-replicate 140 vacant refl; position = refl }

pub IsIdle-replicate : (n : ℕ) → IsIdle {P = Pcb} (replicate n []) n
IsIdle-replicate zero j lt = absurd (omega arith)
IsIdle-replicate (suc n) zero lt = refl
IsIdle-replicate (suc n) (suc j) lt = IsIdle-replicate n j (omega arith)
