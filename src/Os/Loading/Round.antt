-- ===== src/Os/Loading/Round.antt =====
-- The three ways in which a round of `ld_routine` in ossim_source_code/src/os.c ends.
use co2018_assignment.Base.{
  ℕ, ◌+◌, ◌≤◌, ◌<◌, ◌≡◌, refl, subst, Bool, true, false, Option, none, some, get_elem?, ltb,
  if◌then◌else◌, arith,
}
use co2018_assignment.Base.Int.{pos_part}
use co2018_assignment.Cpu.{Pcb}
use co2018_assignment.Loader.{Load, loads, exits, faults, ◌>>=◌, defined}
use co2018_assignment.Sched.{Sched, add_proc}
use co2018_assignment.Os.{Turn, next_slot, stopped, pcb_Schedulable}
use co2018_assignment.Os.Config.{LdProcess}
use co2018_assignment.Os.Loading.{LdArgs, Ld, admit, loaded_proc, start_proc, ld_round}

module _ (a : LdArgs) (ld : Ld) where
  -- The process of this turn of the loop.
  pub record Found (e : LdProcess) (p : Pcb) (pid : ℕ) : Type 0 where
    pub more : ld.i < pos_part a.num_processes
    pub entry : get_elem? a.ld_processes ld.i ≡ some e
    pub found : loaded_proc a ld e ld.proc ≡ loads (p, pid)

  pub data Round (s : Sched Pcb) : Turn → Ld → Sched Pcb → Type 0 where
    is_over : pos_part a.num_processes ≤ ld.i → Round s stopped ld s
    waits :
        {e : LdProcess} (p : Pcb) (pid : ℕ)
        → Found e p pid
        → Round s next_slot (record { i = ld.i; proc = some p; avail_pid = pid }) s
    queues :
        {e : LdProcess} (p : Pcb) (pid : ℕ) {s' : Sched Pcb}
        → Found e p pid
        → add_proc s (admit a ld.i p) ≡ some s'
        → Round s next_slot (record { i = ld.i + 1; proc = none; avail_pid = pid }) s'

  abbrev Ends : Sched Pcb → Load (Turn × Ld × Sched Pcb) → Type 0
  Ends s (loads (turn, ld', s')) = Round s turn ld' s'
  Ends s exits = Unit
  Ends s faults = Unit

  start_proc-Ends :
      (time : ℕ) (s : Sched Pcb) (e : LdProcess) (p : Pcb) (pid : ℕ)
      → Found e p pid
      → Ends s (start_proc a time ld e s (p, pid))
  unfolding start_proc
  start_proc-Ends time s e p pid found =
      go (ltb time e.start_time) (add_proc s (admit a ld.i p)) refl
    where
      go :
          (b : Bool) (o : Option (Sched Pcb))
          → add_proc s (admit a ld.i p) ≡ o
          → Ends s (
              if b
              then loads (next_slot, record { i = ld.i; proc = some p; avail_pid = pid }, s)
              else (defined o >>= λ s'.
                  loads (next_slot, record { i = ld.i + 1; proc = none; avail_pid = pid }, s')))
      go true o q = waits p pid found
      go false none q = tt
      go false (some s') q = queues p pid found q

  ld_round-Ends : (time : ℕ) (s : Sched Pcb) → Ends s (ld_round a time ld s)
  unfolding ld_round
  ld_round-Ends time s = go (ltb ld.i (pos_part a.num_processes)) refl
    where
      with_proc :
          (e : LdProcess) (r : Load (Pcb × ℕ))
          → loaded_proc a ld e ld.proc ≡ r
          → get_elem? a.ld_processes ld.i ≡ some e
          → ld.i < pos_part a.num_processes
          → Ends s (r >>= start_proc a time ld e s)
      with_proc e exits q at more = tt
      with_proc e faults q at more = tt
      with_proc e (loads (p, pid)) q at more =
          start_proc-Ends time s e p pid (record { more = more; entry = at; found = q })

      entry :
          (o : Option LdProcess)
          → get_elem? a.ld_processes ld.i ≡ o
          → ld.i < pos_part a.num_processes
          → Ends s (defined o >>= λ e. loaded_proc a ld e ld.proc >>= start_proc a time ld e s)
      entry none at more = tt
      entry (some e) at more = with_proc e (loaded_proc a ld e ld.proc) refl at more

      go :
          (b : Bool)
          → ltb ld.i (pos_part a.num_processes) ≡ b
          → Ends s (
              if b
              then (defined (get_elem? a.ld_processes ld.i) >>= λ e.
                  loaded_proc a ld e ld.proc >>= start_proc a time ld e s)
              else loads (stopped, ld, s))
      go true q =
          let more : ld.i < pos_part a.num_processes = ground arith in
          entry (get_elem? a.ld_processes ld.i) refl more
      go false q = let over : pos_part a.num_processes ≤ ld.i = ground arith in is_over over

  -- A round that does not fail is at the end of the configuration, or waits with the process that it
  -- has read for its start time, or queues that process.
  pub ld_round-Round :
      (time : ℕ) (s : Sched Pcb) {turn : Turn} {ld' : Ld} {s' : Sched Pcb}
      → ld_round a time ld s ≡ loads (turn, ld', s')
      → Round s turn ld' s'
  ld_round-Round time s e = subst (Ends s) e (ld_round-Ends time s)
