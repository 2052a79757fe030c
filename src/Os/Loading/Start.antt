-- ===== src/Os/Loading/Start.antt =====
-- In which time slot `ld_routine` of ossim_source_code/src/os.c queues a process.
use co2018_assignment.Base.{
  ℕ, zero, suc, ◌+◌, ◌-◌, ◌≤◌, ◌<◌, ◌≡◌, none, some, List, get_elem?, set, refl, ap, ◌∙◌, arith,
  lt→ltb, le→ltb,
}
use co2018_assignment.Base.Int.{pos_part}
use co2018_assignment.Queue.Content.{offer}
use co2018_assignment.Cpu.{Pcb}
use co2018_assignment.Scan.Decimal.{if_true, if_false}
use co2018_assignment.Loader.{loads, ◌>>=◌, defined}
use co2018_assignment.Sched.{Sched, add_proc}
use co2018_assignment.Sched.Levels.{Levels, Queued, add_proc_lem}
use co2018_assignment.Os.{next_slot, pcb_Schedulable}
use co2018_assignment.Os.Config.{LdProcess}
use co2018_assignment.Os.Loading.{
  LdArgs, Ld, admit, loaded_proc, start_proc, ld_round, ld_goes_on, ld_rounds,
}

abbrev waiting : Ld → Pcb → ℕ → Ld
waiting ld p pid = record { i = ld.i; proc = some p; avail_pid = pid }

-- The queues after `k` slots in which the loader does nothing.
abbrev pub undisturbed : (ℕ → Sched Pcb → Sched Pcb) → ℕ → ℕ → Sched Pcb → Sched Pcb
undisturbed others time zero s = s
undisturbed others time (suc k) s = undisturbed others (time + 1) k (others time s)

module _ (a : LdArgs) (ld : Ld) {e : LdProcess} {p : Pcb} {pid : ℕ}
    (more : ld.i < pos_part a.num_processes) (entry : get_elem? a.ld_processes ld.i ≡ some e)
    (found : loaded_proc a ld e ld.proc ≡ loads (p, pid)) where
  round-start_proc :
      (time : ℕ) (s : Sched Pcb) → ld_round a time ld s ≡ start_proc a time ld e s (p, pid)
  unfolding ld_round
  round-start_proc time s =
      if_true _ _ (lt→ltb ld.i (pos_part a.num_processes) more)
      ∙ (ap (λ o. defined o >>= (λ e. loaded_proc a ld e ld.proc >>= start_proc a time ld e s))
            entry
          ∙ ap (λ l. l >>= start_proc a time ld e s) found)

  round_waits :
      (time : ℕ) (s : Sched Pcb)
      → time < e.start_time
      → ld_round a time ld s
        ≡ loads (next_slot, record { i = ld.i; proc = some p; avail_pid = pid }, s)
  unfolding ld_round
  round_waits time s early = round-start_proc time s ∙ if_true _ _ (lt→ltb time e.start_time early)

  round_queues :
      (time : ℕ) (s : Sched Pcb) {s' : Sched Pcb}
      → e.start_time ≤ time
      → add_proc s (admit a ld.i p) ≡ some s'
      → ld_round a time ld s
        ≡ loads (next_slot, record { i = ld.i + 1; proc = none; avail_pid = pid }, s')
  unfolding ld_round
  round_queues time s {s'} late added =
      round-start_proc time s
      ∙ (if_false _ _ (le→ltb time e.start_time late)
          ∙ ap
              (λ o. defined o >>= (λ s'.
                loads (next_slot, record { i = ld.i + 1; proc = none; avail_pid = pid }, s')))
              added)

module _ (others : ℕ → Sched Pcb → Sched Pcb) (a : LdArgs) where
  step :
      (k time : ℕ) (ld ld' : Ld) (s s' : Sched Pcb)
      → ld_round a time ld s ≡ loads (next_slot, ld', s')
      → ld_rounds others a (suc k) time ld s ≡ ld_rounds others a k (time + 1) ld' (others time s')
  unfolding ld_rounds
  step k time ld ld' s s' e =
      ap (λ l. l >>= ld_goes_on (ld_rounds others a k (time + 1)) (others time)) e

  last_step :
      (time t : ℕ) (ld ld' : Ld) (s s' : Sched Pcb)
      → time ≡ t
      → ld_round a time ld s ≡ loads (next_slot, ld', s')
      → ld_rounds others a 1 time ld s ≡ loads (next_slot, ld', others t s')
  unfolding ld_rounds
  last_step time t ld ld' s s' eq e =
      step 0 time ld ld' s s' e ∙ ap (λ t. loads (next_slot, ld', others t s')) eq

  ld_rounds-waits :
      (j time : ℕ) (ld : Ld) (s : Sched Pcb) {e : LdProcess} {p : Pcb} {pid : ℕ}
      → ld.i < pos_part a.num_processes
      → get_elem? a.ld_processes ld.i ≡ some e
      → loaded_proc a ld e ld.proc ≡ loads (p, pid)
      → j < e.start_time - time
      → ld_rounds others a (suc j) time ld s
        ≡ loads (next_slot, waiting ld p pid, undisturbed others time (suc j) s)
  unfolding loaded_proc ld_rounds
  ld_rounds-waits zero time ld s {e} {p} {pid} more entry found early =
      step 0 time ld (waiting ld p pid) s s
        (round_waits a ld more entry found time s (omega (arith, early)))
  ld_rounds-waits (suc j) time ld s {e} {p} {pid} more entry found early =
      step (suc j) time ld (waiting ld p pid) s s
        (round_waits a ld more entry found time s (omega (arith, early)))
      ∙ ld_rounds-waits j (time + 1) (waiting ld p pid) (others time s) more entry refl
          (omega (arith, early))

  -- The process that the loader has read, or reads first, is queued in the slot of its start time, or
  -- at once if that has passed; in every slot before that the loader waits, whatever the CPUs do to
  -- the queues meanwhile. In that slot, where the levels hold the lists `xss`, it joins the end of the
  -- level that the configuration gives it, or is dropped if that level is full, no other level changes, and the loader goes on to
  -- the next process in the slot after.
  pub ld_rounds-start :
      (k time : ℕ) (ld : Ld) (s : Sched Pcb) {e : LdProcess} {p : Pcb} {pid : ℕ}
      {xss : List (List Pcb)} (xs : List Pcb)
      → ld.i < pos_part a.num_processes
      → get_elem? a.ld_processes ld.i ≡ some e
      → loaded_proc a ld e ld.proc ≡ loads (p, pid)
      → e.start_time - time ≡ k
      → Levels (undisturbed others time k s) xss
      → get_elem? xss p.prio ≡ some xs
      → ((j : ℕ)
          → j < k
          → ld_rounds others a (suc j) time ld s
            ≡ loads (
              next_slot,
              record { i = ld.i; proc = some p; avail_pid = pid },
              undisturbed others time (suc j) s,
            ))
        × ((s' : Sched Pcb) × (ld_rounds others a (suc k) time ld s
              ≡ loads (
                next_slot,
                record { i = ld.i + 1; proc = none; avail_pid = pid },
                others (time + k) s',
              ))
            × Levels s' (set xss p.prio (offer xs (admit a ld.i p))))
  unfolding admit loaded_proc ld_rounds
  ld_rounds-start zero time ld s {e} {p} {pid} {xss} xs more entry found late levels at =
      let q : Queued s xss (admit a ld.i p) xs (add_proc s (admit a ld.i p)) =
        add_proc_lem (admit a ld.i p) xs levels at in
      (
        λ j l. absurd (omega arith),
        (
          q.sched,
          last_step time (time + 0) ld _ s q.sched (omega arith)
              (round_queues a ld more entry found time s (omega (arith, late)) q.returns),
          q.levels,
        ),
      )
  ld_rounds-start (suc k) time ld s {e} {p} {pid} {xss} xs more entry found late levels at =
      let waits : ld_round a time ld s ≡ loads (next_slot, waiting ld p pid, s) =
        round_waits a ld more entry found time s (omega (arith, late)) in
      let rest =
        ld_rounds-start k (time + 1) (waiting ld p pid) (others time s) xs more entry refl
          (omega (arith, late)) levels at in
      (
        λ j l. ld_rounds-waits j time ld s more entry found (omega (arith, late)),
        (
          rest.1.0,
          step (suc k) time ld (waiting ld p pid) s s waits
              ∙ (rest.1.1
                  ∙ ap
                      (λ t. loads (
                        next_slot,
                        record { i = ld.i + 1; proc = none; avail_pid = pid },
                        others t rest.1.0,
                      ))
                      (let same : time + 1 + k ≡ time + suc k = omega arith in same)),
          rest.1.2,
        ),
      )
