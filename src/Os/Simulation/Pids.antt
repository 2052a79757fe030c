-- ===== src/Os/Simulation/Pids.antt =====
-- The processes that the loader of ossim_source_code/src/os.c brings in have different pids.
use co2018_assignment.Base.{
  ℕ, ◌+◌, ◌≤◌, ◌<◌, ◌^◌, ◌≡◌, ◌≢◌, refl, sym, ap, if◌then◌else◌, subst, Bool, Option, none, some,
  ◌++◌, get_elem?, ◌==◌, arith,
}
use native.Mathlib.Decide.{ℕ_discrete}
use co2018_assignment.Base.Int.{ℤ, pos_part}
use co2018_assignment.Memphy.{Memphy}
use co2018_assignment.Cpu.{Pcb, Uninit}
use co2018_assignment.Sched.{Sched}
use co2018_assignment.Os.{Turn}
use co2018_assignment.Os.Conserve.{one, held, count}
use co2018_assignment.Os.Config.{LdProcess}
use co2018_assignment.Os.Loading.{LdArgs, Ld, admit}
use co2018_assignment.Os.Loading.Numbers.{IsNumbered, loaded_proc-IsNumbered}
use co2018_assignment.Os.Loading.Round.{Found, Round, is_over, waits, queues, ld_round-Round}
use co2018_assignment.Os.Simulation.{
  Program, Step, turns, loads_next, ticks, wakes, joins, joins_loader, stops, returns, Reach,
  starts, later, queued,
}
use co2018_assignment.Os.Simulation.Brings.{queued-same, queued-next}

abbrev pub has_pid : ℕ → Pcb → Bool
has_pid q p = p.pid == q

abbrev waiting : Option Pcb → ℕ
waiting none = 0
waiting (some p) = 1

module _ (q : ℕ) where
  pub miss : (p : Pcb) → p.pid ≢ q → one (has_pid q) p ≡ 0
  miss p ne = ground arith

  pub at_most : (p : Pcb) → one (has_pid q) p ≤ 1
  at_most p = ground arith

  same : (p p' : Pcb) → p.pid ≡ p'.pid → one (has_pid q) p ≡ one (has_pid q) p'
  same p p' e = ap (λ n. if n == q then 1 else 0) e

  -- One process at most has this pid, and none before it is given.
  pub record Pids (ld : Ld) (loaded : ℕ) : Type 0 where
    pub next : ld.avail_pid ≡ 1 + ld.i + waiting ld.proc
    pub once : loaded + held (has_pid q) ld.proc ≤ 1
    pub below : ld.avail_pid ≤ q → loaded + held (has_pid q) ld.proc ≡ 0

module _ (a : LdArgs) (q : ℕ) (few : pos_part a.num_processes < 2 ^ 31) where
  -- What the loop holds after the call of `load`, if there was one.
  Found-Pids :
      (ld : Ld) (loaded : ℕ) {e : LdProcess} (p : Pcb) (pid : ℕ)
      → Pids q ld loaded
      → Found a ld e p pid
      → Pids q (record { i = ld.i; proc = some p; avail_pid = pid }) loaded
  Found-Pids ld loaded {e} p pid h f = go ld.proc (loaded_proc-IsNumbered a ld e ld.proc f.found) h
    where
      go :
          (proc : Option Pcb)
          → IsNumbered ld.avail_pid proc p pid
          → Pids q (record { i = ld.i; proc = proc; avail_pid = ld.avail_pid }) loaded
          → Pids q (record { i = ld.i; proc = some p; avail_pid = pid }) loaded
      go none k h =
          let next : pid ≡ ld.avail_pid + 1 = omega (arith, k.1, h.next, f.more, few) in
          elim (ℕ_discrete p.pid q) [
            | yes eq ↦ record {
              next = omega (arith, next, h.next);
              once = omega (arith, h.below (omega (arith, k.0, eq)), at_most q p);
              below = λ le. absurd (omega (arith, le, k.0, next, eq));
            }
            | no ne ↦ record {
              next = omega (arith, next, h.next);
              once = omega (arith, h.once, miss q p ne);
              below = λ le. omega (arith, h.below (omega (arith, le, next)), miss q p ne);
            }
          ]
      go (some p₀) k h = record {
        next = omega (arith, k.1, h.next);
        once = omega (arith, h.once, same q p p₀ k.0);
        below = λ le. omega (arith, h.below (omega (arith, le, k.1)), same q p p₀ k.0);
      }

  abbrev pub At : Program → Type 0
  At x = Pids q x.ld (count (has_pid q) x.threads.loaded)

  Round-Pids :
      (x : Program) {turn : Turn} {ld' : Ld} {s s' : Sched Pcb}
      → At x
      → Round a x.ld s turn ld' s'
      → Pids q ld' (
          count
            (has_pid q)
            (queued a x.ld ld' (get_elem? a.ld_processes x.ld.i) ++ x.threads.loaded))
  Round-Pids x h (is_over _) =
      subst (λ l. Pids q x.ld (count (has_pid q) (l ++ x.threads.loaded)))
        (sym (queued-same a x.ld x.ld (get_elem? a.ld_processes x.ld.i) refl)) h
  Round-Pids x h (waits p pid f) =
      subst (λ l. Pids q (waits_ld x.ld p pid) (count (has_pid q) (l ++ x.threads.loaded)))
        (sym (queued-same a x.ld (waits_ld x.ld p pid) (get_elem? a.ld_processes x.ld.i) refl))
        (Found-Pids x.ld _ p pid h f)
    where
      waits_ld : Ld → Pcb → ℕ → Ld
      waits_ld ld p pid = record { i = ld.i; proc = some p; avail_pid = pid }
  Round-Pids x h (queues p pid f _) =
      subst (λ l. Pids q (queues_ld x.ld pid) (count (has_pid q) (l ++ x.threads.loaded)))
        (sym (queued-next a x.ld (queues_ld x.ld pid) (λ e. omega (arith, e)) f.entry f.found))
        (record {
          next = omega (arith, k.next);
          once = omega (arith, k.once, admitted);
          below = λ le. omega (arith, k.below le, admitted);
        })
    where
      queues_ld : Ld → ℕ → Ld
      queues_ld ld pid = record { i = ld.i + 1; proc = none; avail_pid = pid }

      k :
          Pids q
            (record { i = x.ld.i; proc = some p; avail_pid = pid })
            (count (has_pid q) x.threads.loaded)
      k = Found-Pids x.ld (count (has_pid q) x.threads.loaded) p pid h f

      admitted : one (has_pid q) (admit a x.ld.i p) ≡ one (has_pid q) p
      admitted = unfold admit in refl

  module _ (u : Uninit) (time_slot : ℤ) (n : ℕ) where
    Pids-Step : {x y : Program} → At x → Step u a time_slot n x y → At y
    Pids-Step h (turns i at e dev acted) = h
    Pids-Step {x} h (loads_next e dev acted) =
        Round-Pids x h (ld_round-Round a x.ld _ x.threads.sched e)
    Pids-Step h (ticks e) = h
    Pids-Step h (wakes j dev acted) = h
    Pids-Step h (joins i m at r) = h
    Pids-Step h (joins_loader m d) = h
    Pids-Step h (stops m) = h
    Pids-Step h (returns m e) = h

    -- Among the processes that the loader has queued or holds, one at most has the pid `q`, and none
    -- while `q` is not given yet.
    pub Reach-Pids :
        (current : Sched Pcb) (w : Memphy × Memphy) {x : Program}
        → Reach u a time_slot n current w x
        → At x
    Reach-Pids current w starts = record { next = refl; once = omega arith; below = λ _. refl }
    Reach-Pids current w (later r step) = Pids-Step (Reach-Pids current w r) step
