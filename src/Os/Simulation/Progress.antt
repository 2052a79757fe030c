-- ===== src/Os/Simulation/Progress.antt =====
-- How far one process has come in a state of ossim_source_code/src/os.c, with at most ten processes.
use co2018_assignment.Base.{
  ℕ, ◌+◌, ◌≤◌, ◌<◌, ◌≡◌, inl, inr, refl, sym, ap, ◌∙◌, Bool, true, false, not, ◌&&◌, Option, none,
  some, Option-cases, List, [], ◌∷◌, length, get_elem?, set, ◌==◌, arith, if◌then◌else◌, ◌>>=◌,
}
use native.Mathlib.Decide.{dec_lt}
use mathlib.Core.Option.{none-ne-some}
use co2018_assignment.Base.Int.{ℤ}
use co2018_assignment.Scan.Decimal.{if_true, if_false}
use co2018_assignment.Queue.{max_queue_size}
use co2018_assignment.Queue.Content.{offer}
use co2018_assignment.Memphy.{Memphy}
use co2018_assignment.Cpu.{Pcb, Uninit}
use co2018_assignment.Sched.{Sched, get_proc, put_proc}
use co2018_assignment.Sched.Levels.{Levels}
use co2018_assignment.Os.{
  Core, Turn, cpu_round, choose, proceed, goes_on, shared_machine, pcb_Schedulable,
}
use co2018_assignment.Os.Drained.{any}
use co2018_assignment.Os.Conserve.{one, held, count, total, total-set, put_proc-total}
use co2018_assignment.Os.Conserve.Round.{RoomFor}
use co2018_assignment.Os.Threads.{CpuThread}
use co2018_assignment.Os.Threads.Put.{level_of}
use co2018_assignment.Os.Threads.Unique.{on_cpus, on_cpus-get}
use co2018_assignment.Os.Simulation.{Program}
use co2018_assignment.Os.Simulation.Pids.{has_pid}
use co2018_assignment.Os.Simulation.Stand.{astray, astray-le, not_astray, Stand}

count-any : (ps : List Pcb) → count any ps ≡ length ps
count-any [] = refl
count-any (p ∷ ps) = omega (arith, count-any ps)

-- With fewer than ten processes queued, each level has room.
pub level_room :
    (lists : List (List Pcb)) (k : ℕ) {ps : List Pcb}
    → get_elem? lists k ≡ some ps
    → total any lists < max_queue_size
    → length ps < max_queue_size
level_room lists k {ps} at l = omega (arith, l, total-set any lists k [] at, count-any ps)

-- The round of a CPU that did not fault has found the level of the process that it puts back.
pub room_for :
    (u : Uninit) (time_slot : ℤ) (is_done : Bool) (c : Core Pcb) (s : Sched Pcb)
    (w : Memphy × Memphy) (lists : List (List Pcb)) (cpus : List (CpuThread Pcb)) (i known : ℕ)
    {b : Bool} {r : Turn × Core Pcb × Sched Pcb × (Memphy × Memphy)}
    → Levels s lists
    → get_elem? cpus i ≡ some (record { core = c; running = b })
    → total any lists + on_cpus any cpus ≤ known
    → known ≤ max_queue_size
    → cpu_round (shared_machine u) time_slot is_done c s w ≡ some r
    → RoomFor (shared_machine u) any lists c.time_left c.proc
unfolding cpu_round choose
room_for u time_slot is_done c s w lists cpus i known {r = r} l at placed few e =
    go c.proc (on_cpus-get any cpus i at) e
  where
    go :
        (o : Option Pcb)
        → held any o ≤ on_cpus any cpus
        → cpu_round (shared_machine u) time_slot is_done (record c { proc = o }) s w ≡ some r
        → RoomFor (shared_machine u) any lists c.time_left o
    go none here e = tt
    go (some p) here e = λ unfinished zero_left. elim (Option-cases (put_proc s p)) [
      | inl fault ↦ absurd (
          none-ne-some _ (
            sym (
              ap
                (λ o.
                  o >>= proceed (shared_machine u) time_slot is_done w (record c { proc = some p }))
                (if_false _ _ unfinished
                  ∙ (if_true _ _ zero_left
                      ∙ ap
                          (λ o.
                            o
                            >>= (λ s₁. get_proc s₁ >>= (λ q. some (goes_on q.0 c.time_left, q.1))))
                          fault)))
            ∙ e))
      | inr (s', put) ↦
          let (ps, at_level) = level_of any p l (inl put) in
          (ps, at_level, level_room lists p.prio at_level (omega (arith, here, placed, few)))
    ]

module _ (q size : ℕ) where
  -- A process of this pid whose code has another size.
  abbrev pub sized_otherwise : Pcb → Bool
  sized_otherwise p = has_pid q p && not (length p.text == size)

  abbrev pub instructions : List (ℕ × Pcb) → ℕ
  instructions log = count (λ e. has_pid q e.1) log

  pub record Progress (x : Program) : Type 0 where
    pub lists : List (List Pcb)
    pub levels : Levels x.threads.sched lists
    pub stand :
        Stand q size lists x.threads.cpus (count (has_pid q) x.threads.loaded) (instructions x.log)

  sized : (p : Pcb) → 0 < one (has_pid q) p → one sized_otherwise p ≡ 0 → length p.text ≡ size
  sized p l e = go (has_pid q p) (length p.text == size) refl l e
    where
      bit : Bool → ℕ
      bit b = if b then 1 else 0

      go :
          (a b : Bool)
          → (length p.text == size) ≡ b
          → 0 < bit a
          → bit (a && not b) ≡ 0
          → length p.text ≡ size
      go true true eb l e = ground arith
      go true false eb l e = absurd (omega (arith, e))
      go false b eb l e = absurd (omega (arith, l))

  -- A process that is queued for the first time.
  module _ (lists : List (List Pcb)) (cpus : List (CpuThread Pcb)) (known k : ℕ)
      (h : Stand q size lists cpus known k) (p : Pcb) {ps : List Pcb}
      (at : get_elem? lists p.prio ≡ some ps) (room : length ps < max_queue_size) (unrun : p.pc ≡ 0)
      (some_code : 0 < size) (right : one sized_otherwise p ≡ 0)
      (once : one (has_pid q) p + known ≤ 1) where
    abbrev after : List (List Pcb)
    after = set lists p.prio (offer ps p)

    grows : (keep : Pcb → Bool) → total keep after ≡ total keep lists + one keep p
    grows keep = put_proc-total keep lists p ps at room

    mine : 0 < one (has_pid q) p → Stand q size after cpus (one (has_pid q) p + known) k
    mine l = record {
      gone = h.gone;
      placed = omega (arith, grows (has_pid q), h.placed);
      ended = λ g. absurd (omega (arith, g, h.placed, once, l));
      sound = omega (arith, grows (astray q size k), h.sound, here);
      within = omega (arith, start);
      queued = λ _. omega (arith, start, some_code);
      unstarted = λ e. absurd (omega (arith, e, l));
    }
      where
        start : k ≡ 0
        start = h.unstarted (omega (arith, once, l))

        here : one (astray q size k) p ≡ 0
        here = not_astray q size k p (unrun ∙ sym start) (sized p l right)

    others : one (has_pid q) p ≡ 0 → Stand q size after cpus (one (has_pid q) p + known) k
    others e = record {
      gone = h.gone;
      placed = omega (arith, grows (has_pid q), h.placed);
      ended = h.ended;
      sound = omega (arith, grows (astray q size k), h.sound, astray-le q size k p, e);
      within = h.within;
      queued = λ l. h.queued (omega (arith, l, e, grows (has_pid q)));
      unstarted = λ g. h.unstarted (omega (arith, g));
    }

    pub Stand-queued : Stand q size after cpus (one (has_pid q) p + known) k
    Stand-queued = elim (dec_lt 0 (one (has_pid q) p)) [
      | yes l ↦ mine l
      | no n ↦ others (omega (arith, n))
    ]
