-- ===== src/Os/Simulation/Admitted.antt =====
-- What the loader of ossim_source_code/src/os.c does to how far one process has come.
use co2018_assignment.Base.{
  ℕ, ◌+◌, ◌≤◌, ◌<◌, ◌≡◌, inr, refl, sym, ap, subst, ◌∙◌, Bool, none, some, List, ◌∷◌, ◌++◌, length,
  get_elem?, set, arith,
}
use mathlib.Core.Option.{some-injective}
use co2018_assignment.Base.Int.{ℤ, pos_part}
use co2018_assignment.Queue.{max_queue_size}
use co2018_assignment.Queue.Content.{offer}
use co2018_assignment.Memphy.{Memphy}
use co2018_assignment.Cpu.{Pcb, Uninit}
use co2018_assignment.Sched.{Sched, add_proc}
use co2018_assignment.Sched.Init.{IsStatic}
use co2018_assignment.Sched.Levels.{Levels, Queued, add_proc_lem}
use co2018_assignment.Sched.Unique.{Levels-unique}
use co2018_assignment.Os.{Turn, shared_machine, pcb_Schedulable}
use co2018_assignment.Os.Drained.{any}
use co2018_assignment.Os.Conserve.{one, count, total}
use co2018_assignment.Os.Config.{LdProcess}
use co2018_assignment.Os.Loading.{LdArgs, Ld, admit}
use co2018_assignment.Os.Loading.Round.{Found, Round, is_over, waits, queues}
use co2018_assignment.Os.Threads.Put.{level_of}
use co2018_assignment.Os.Threads.Unique.{Placed, Reach-Placed, on_cpus}
use co2018_assignment.Os.Simulation.{Program, Reach, queued}
use co2018_assignment.Os.Simulation.Brings.{queued-same, queued-next}
use co2018_assignment.Os.Simulation.Brought.{Brought, Found-unrun, Reach-Brought}
use co2018_assignment.Os.Simulation.Parts.{Reach-Parts}
use co2018_assignment.Os.Simulation.Pids.{has_pid, Reach-Pids}
use co2018_assignment.Os.Simulation.Stand.{Stand}
use co2018_assignment.Os.Simulation.Progress.{
  level_room, sized_otherwise, instructions, Progress, Stand-queued,
}

module _ (u : Uninit) (a : LdArgs) (time_slot : ℤ) (n : ℕ) (current : Sched Pcb)
    (w : Memphy × Memphy) (static : IsStatic current)
    (few : pos_part a.num_processes ≤ max_queue_size) (q size : ℕ) (some_code : 0 < size) where
  abbrev keep : Pcb → Bool
  keep = has_pid q

  abbrev Reached : Program → Type 0
  Reached = Reach u a time_slot n current w

  -- No more than ten processes are anywhere.
  pub crowd :
      (x : Program) {lists : List (List Pcb)}
      → Reached x
      → Levels x.threads.sched lists
      → (total any lists + on_cpus any x.threads.cpus ≤ count any x.threads.loaded)
        × (count any x.threads.loaded ≤ max_queue_size)
  crowd x {lists} r l =
      let p : Placed (shared_machine u) time_slot any x.threads =
        Reach-Placed (shared_machine u) time_slot any n current w static (λ _ _ _ _ _. refl)
          (Reach-Parts u a time_slot n current w r).threads in
      let b : Brought a x.ld x.threads.loaded = Reach-Brought a u time_slot n current w r in
      (
        omega (arith, p.once, ap (total any) (Levels-unique l p.levels)),
        omega (arith, b.few, b.within, few),
      )

  pub once : (x : Program) → Reached x → count keep x.threads.loaded ≤ 1
  once x r = omega (arith, (Reach-Pids a q (omega (arith, few)) u time_slot n current w r).once)

  pub record Next (x : Program) (s : Sched Pcb) (loaded : List Pcb) : Type 0 where
    pub lists : List (List Pcb)
    pub levels : Levels s lists
    pub stand : Stand q size lists x.threads.cpus (count keep loaded) (instructions q size x.log)

  same : (x : Program) → Progress q size x → Next x x.threads.sched x.threads.loaded
  same x h = record { lists = h.lists; levels = h.levels; stand = h.stand }

  -- The loader queues a process.
  queued_next :
      (x : Program) {e : LdProcess} (p : Pcb) (pid : ℕ) {s' : Sched Pcb}
      → Reached x
      → Progress q size x
      → Found a x.ld e p pid
      → add_proc x.threads.sched (admit a x.ld.i p) ≡ some s'
      → one (sized_otherwise q size) (admit a x.ld.i p) ≡ 0
      → one keep (admit a x.ld.i p) + count keep x.threads.loaded ≤ 1
      → Next x s' (admit a x.ld.i p ∷ x.threads.loaded)
  queued_next x {e} p pid {s'} r h f put right once =
      let (ps, at) = level_of any (admit a x.ld.i p) h.levels (inr put) in
      let room : length ps < max_queue_size =
        level_room h.lists _ at (omega (arith, full.0, full.1, f.more, few, b.few)) in
      let added : Queued x.threads.sched h.lists (admit a x.ld.i p) ps
          (add_proc x.threads.sched (admit a x.ld.i p)) =
        add_proc_lem (admit a x.ld.i p) ps h.levels at in
      record {
        lists = set h.lists (admit a x.ld.i p).prio (offer ps (admit a x.ld.i p));
        levels =
            subst
              (λ s. Levels s (set h.lists (admit a x.ld.i p).prio (offer ps (admit a x.ld.i p))))
              (some-injective _ _ (sym added.returns ∙ put)) added.levels;
        stand =
            Stand-queued q size h.lists x.threads.cpus (count keep x.threads.loaded)
              (instructions q size x.log) h.stand (admit a x.ld.i p) at room unrun some_code right
              once;
      }
    where
      b : Brought a x.ld x.threads.loaded
      b = Reach-Brought a u time_slot n current w r

      full :
          (total any h.lists + on_cpus any x.threads.cpus ≤ count any x.threads.loaded)
          × (count any x.threads.loaded ≤ max_queue_size)
      full = crowd x r h.levels

      unrun : (admit a x.ld.i p).pc ≡ 0
      unrun = unfold admit in Found-unrun a x.ld p pid b.unrun f

  pub loader_round :
      (x : Program) {turn : Turn} {ld' : Ld} {s' : Sched Pcb}
      → Reached x
      → Progress q size x
      → Round a x.ld x.threads.sched turn ld' s'
      → (loaded : List Pcb)
      → queued a x.ld ld' (get_elem? a.ld_processes x.ld.i) ++ x.threads.loaded ≡ loaded
      → count (sized_otherwise q size) loaded ≡ 0
      → count keep loaded ≤ 1
      → Next x s' loaded
  loader_round x r h (is_over _) loaded eq right once =
      subst (Next x x.threads.sched)
        (ap (λ l. l ++ x.threads.loaded)
            (sym (queued-same a x.ld x.ld (get_elem? a.ld_processes x.ld.i) refl))
          ∙ eq)
        (same x h)
  loader_round x r h (waits p pid f) loaded eq right once =
      subst (Next x x.threads.sched)
        (ap (λ l. l ++ x.threads.loaded)
            (sym (
              queued-same a x.ld (record { i = x.ld.i; proc = some p; avail_pid = pid })
                (get_elem? a.ld_processes x.ld.i) refl))
          ∙ eq)
        (same x h)
  loader_round x r h (queues p pid {s'} f put) loaded eq right once = subst (Next x s') eq' (
      queued_next x p pid r h f put (omega (arith, ap (count (sized_otherwise q size)) eq', right))
        (omega (arith, ap (count keep) eq', once)))
    where
      eq' : admit a x.ld.i p ∷ x.threads.loaded ≡ loaded
      eq' =
          ap (λ l. l ++ x.threads.loaded)
            (sym (
              queued-next a x.ld (record { i = x.ld.i + 1; proc = none; avail_pid = pid })
                (λ e. omega (arith, e)) f.entry f.found))
          ∙ eq
