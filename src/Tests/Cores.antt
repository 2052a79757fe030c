-- ===== src/Tests/Cores.antt =====
-- A CPU, and a process of two instructions in level 0.
use co2018_assignment.Base.{ℕ, ◌≡◌, refl, none, some, true, [], ◌∷◌, replicate, store_at, arith}
use co2018_assignment.Base.Int.{pos}
use co2018_assignment.Queue.{dequeue}
use co2018_assignment.Sched.{Sched, max_prio, init_scheduler, scan, get_proc}
use co2018_assignment.Sched.Init.{init_scheduler-Levels}
use co2018_assignment.Cpu.{Inst, Pcb, Uninit, calc, run}
use co2018_assignment.Os.{next_slot, cpu_rounds, run_shared, shared_machine, pcb_Schedulable}
use co2018_assignment.Os.Rounds.{instructions, full_time_slot}
use co2018_assignment.Base.{◌⊎◌, ap, Bool, false, ◌==◌}
use co2018_assignment.Memphy.{Memphy}
use co2018_assignment.Os.{cpu_round}
use co2018_assignment.Os.Pid.{run_shared-pid}
use co2018_assignment.Os.Conserve.Round.{Conserves, cpu_round-Conserves}
use co2018_assignment.Os.Threads.{Threads, Reach, starts, later, queues, turns}
use co2018_assignment.Os.Threads.Unique.{Placed, Reach-Placed}
use co2018_assignment.Sched.{add_proc, put_proc}
use co2018_assignment.Queue.{enqueue}
use co2018_assignment.Tests.Static.{vacant, static, static-IsStatic}
use co2018_assignment.Tests.{process, locals, hole, ram, swap}

abbrev calculation : Inst
calculation = record { opcode = calc; arg_0 = 0; arg_1 = 0; arg_2 = 0 }

abbrev two_steps : Pcb
two_steps = record {
  pid = 1;
  priority = 1;
  text = calculation ∷ calculation ∷ [];
  regs = 0 ∷ [];
  pc = 0;
  prio = 0;
  vm = process;
  bp = 0;
}

abbrev uninit : Uninit
uninit = record { locals = locals; region = hole 0 0; addr = pos 0; data_byte = 0; fpn = 0 }

abbrev with_first : ℕ → Sched Pcb
with_first n = record {
  ready_queue = vacant;
  run_queue = vacant;
  mlq_ready_queue =
      record { proc = some two_steps ∷ replicate 9 none; size = n; slot = 0 }
      ∷ replicate 139 vacant;
  current_prior = 0;
  current_prio = 0;
}

dispatches : get_proc (with_first 1) ≡ some (some two_steps, with_first 0)
unfolding get_proc scan dequeue store_at
dispatches = refl

two_instructions :
    instructions (shared_machine uninit) 2 two_steps (ram, swap)
    ≡ some (record two_steps { pc = 2 }, (ram, swap))
unfolding run_shared run
two_instructions = refl

full_time_slot_example :
    cpu_rounds
      (shared_machine uninit)
      2
      (pos 2)
      true
      (record { proc = none; time_left = pos 0 })
      (with_first 1)
      (ram, swap)
    ≡ some (
      next_slot,
      record { proc = some (record two_steps { pc = 2 }); time_left = pos 0 },
      with_first 0,
      (ram, swap),
    )
full_time_slot_example =
    full_time_slot (shared_machine uninit) 1 true (with_first 1) (with_first 0) two_steps
      (record two_steps { pc = 2 }) (ram, swap) (ram, swap) dispatches two_instructions

abbrev is_first : Pcb → Bool
is_first p = p.pid == 1

keeps_first :
    (p p' : Pcb) (w w' : Memphy × Memphy)
    → run_shared uninit p w ≡ some (p', w')
    → is_first p' ≡ is_first p
keeps_first p p' w w' e = ap (λ n. n == 1) (run_shared-pid uninit p p' w w' e)

cpu_round-Conserves_example :
    ((p : Pcb) × (run_shared uninit p (ram, swap) ≡ none)
      × (cpu_round
            (shared_machine uninit)
            (pos 2)
            false
            (record { proc = some two_steps; time_left = pos 0 })
            (init_scheduler static)
            (ram, swap)
          ≡ none))
    ⊎ Conserves
        (shared_machine uninit)
        is_first
        (pos 2)
        false
        (record { proc = some two_steps; time_left = pos 0 })
        (init_scheduler static)
        (ram, swap)
        (replicate max_prio [])
cpu_round-Conserves_example =
    cpu_round-Conserves (shared_machine uninit) is_first (pos 2) false
      (record { proc = some two_steps; time_left = pos 0 }) (init_scheduler static) (ram, swap)
      (replicate max_prio []) (init_scheduler-Levels static-IsStatic) ([], refl, omega arith)
      (λ p p' w. keeps_first p p' (ram, swap) w)

-- The process is queued, and CPU 0 of two takes it.
one_runs :
    (t : Threads Pcb (Memphy × Memphy)) × Reach
      (shared_machine uninit)
      (pos 2)
      2
      (init_scheduler static)
      (ram, swap)
      t
unfolding cpu_round get_proc put_proc add_proc scan dequeue enqueue store_at init_scheduler
    run_shared run
one_runs = (_, later (later starts (queues two_steps refl)) (turns 0 refl refl))

Reach-Placed_example : Placed (shared_machine uninit) (pos 2) is_first one_runs.0
Reach-Placed_example =
    Reach-Placed (shared_machine uninit) (pos 2) is_first 2 static (ram, swap) static-IsStatic
      keeps_first one_runs.1
