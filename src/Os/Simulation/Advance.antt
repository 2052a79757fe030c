-- ===== src/Os/Simulation/Advance.antt =====
-- The round of a CPU of ossim_source_code/src/os.c, for how far one process has come.
use co2018_assignment.Base.{
  ℕ, suc, ◌+◌, ◌≤◌, ◌<◌, ◌≡◌, ◌≢◌, ◌⊎◌, inl, inr, refl, sym, ap, subst, ◌∙◌, Bool, Option, none,
  some, List, length, get_elem?, get_elem?-set_self, lt_of_get_elem?, set, ◌==◌, Bool-cases, arith,
  if◌then◌else◌,
}
use native.Mathlib.Decide.{dec_lt}
use co2018_assignment.Memphy.{Memphy}
use co2018_assignment.Cpu.{Pcb, Uninit}
use co2018_assignment.Sched.{Sched}
use co2018_assignment.Scan.Decimal.{if_true, if_false}
use co2018_assignment.Os.{Core, shared_machine, pcb_Schedulable}
use co2018_assignment.Os.Pid.{run_shared-pid, run_shared-pc}
use co2018_assignment.Os.Conserve.{one, held, total}
use co2018_assignment.Os.Conserve.Round.{departs}
use co2018_assignment.Os.Conserve.Together.{Runs, Turned}
use co2018_assignment.Os.Threads.{CpuThread}
use co2018_assignment.Os.Threads.Unique.{on_cpus-get, on_cpus-set}
use co2018_assignment.Os.Simulation.Pids.{has_pid, at_most}
use co2018_assignment.Os.Simulation.Stand.{
  astray, not_astray, found_there, total-astray, held-astray, others-astray, Stand,
}

module _ (q size : ℕ) (u : Uninit) (lists : List (List Pcb)) (cpus : List (CpuThread Pcb))
    (known k : ℕ) (h : Stand q size lists cpus known k) (once : known ≤ 1) (i : ℕ) {c : Core Pcb}
    (c' : Core Pcb) {s' : Sched Pcb} (w : Memphy × Memphy) (b b' : Bool)
    (at : get_elem? cpus i ≡ some (record { core = c; running = b }))
    (r : Turned (shared_machine u) c w c' s' lists) where
  abbrev keep : Pcb → Bool
  keep = has_pid q

  abbrev off : Pcb → Bool
  off = astray q size k

  abbrev this : CpuThread Pcb
  this = record { core = c'; running = b' }

  abbrev gone_now : ℕ
  gone_now = departs (shared_machine u) keep c.proc

  at_most_one : (o : Option Pcb) → held keep o ≤ 1
  at_most_one none = omega arith
  at_most_one (some p) = at_most q p

  none_astray : (total off r.lists ≡ 0) × (held off r.proc ≡ 0) × (held off c.proc ≡ 0)
  none_astray = (
    omega (arith, r.balance off, h.sound, on_cpus-get off cpus i at),
    omega (arith, r.balance off, h.sound, on_cpus-get off cpus i at),
    omega (arith, h.sound, on_cpus-get off cpus i at),
  )

  -- The process of this CPU has ended, or has not.
  ends_or_not :
      0 < held keep c.proc
      → ((gone_now ≡ held keep c.proc) × (k ≡ size)) ⊎ ((gone_now ≡ 0) × (k < size))
  ends_or_not l = go c.proc l none_astray.2
    where
      go :
          (o : Option Pcb)
          → 0 < held keep o
          → held off o ≡ 0
          → ((departs (shared_machine u) keep o ≡ held keep o) × (k ≡ size))
            ⊎ ((departs (shared_machine u) keep o ≡ 0) × (k < size))
      go none l e = absurd (omega (arith, l))
      go (some p) l e =
          let there : (p.pc ≡ k) × (length p.text ≡ size) = found_there q size k p l e in
          elim (Bool-cases (p.pc == length p.text)) [
            | inl y ↦
                let same : p.pc ≡ length p.text = ground arith in
                inl (if_true (one keep p) 0 y, omega (arith, same, there.0, there.1))
            | inr n ↦
                let differs : p.pc ≢ length p.text = ground arith in
                let less : k ≢ size = λ e. differs (there.0 ∙ (e ∙ sym there.1)) in
                inr (if_false (one keep p) 0 n, omega (arith, h.within, less))
          ]

  departs_le : gone_now ≤ held keep c.proc
  departs_le = go c.proc
    where
      go : (o : Option Pcb) → departs (shared_machine u) keep o ≤ held keep o
      go none = omega arith
      go (some p) = elim (Bool-cases (p.pc == length p.text)) [
        | inl y ↦ omega (arith, if_true (one keep p) 0 y)
        | inr n ↦ omega (arith, if_false (one keep p) 0 n)
      ]

  -- The round has run no instruction of this process.
  stays :
      held keep r.proc ≡ 0 → held keep c'.proc ≡ 0 → Stand q size r.lists (set cpus i this) known k
  stays e e' = record {
    gone = h.gone + gone_now;
    placed = omega (arith, r.balance keep, h.placed, e, e', on_cpus-set keep cpus i this at);
    ended = λ l. elim (dec_lt 0 h.gone) [
      | yes before ↦ h.ended before
      | no now ↦ elim (ends_or_not (omega (arith, l, now, departs_le))) [
        | inl y ↦ y.1
        | inr n ↦ absurd (omega (arith, l, now, n.0))
      ]
    ];
    sound = omega (
      arith,
      none_astray.0,
      h.sound,
      e',
      held-astray q size k c'.proc,
      on_cpus-set off cpus i this at,
    );
    within = h.within;
    queued = λ l. elim (dec_lt 0 (total keep lists)) [
      | yes before ↦ h.queued before
      | no now ↦ elim (ends_or_not (omega (arith, l, now, r.balance keep))) [
        | inl y ↦ absurd (omega (arith, l, now, y.0, r.balance keep))
        | inr n ↦ n.1
      ]
    ];
    unstarted = h.unstarted;
  }

  -- The process that the round goes on with has an instruction left.
  may_run :
      0 < held keep r.proc
      → (k < size) × (total keep r.lists ≡ 0) × (total keep lists + held keep c.proc ≡ 1)
  may_run l = (
    elim (dec_lt 0 (total keep lists)) [
      | yes before ↦ h.queued before
      | no now ↦ elim (ends_or_not (omega (arith, l, now, r.balance keep))) [
        | inl y ↦ absurd (omega (arith, l, now, y.0, r.balance keep))
        | inr n ↦ n.1
      ]
    ],
    omega (arith, l, r.balance keep, h.placed, once, on_cpus-get keep cpus i at),
    omega (arith, l, r.balance keep, h.placed, once, on_cpus-get keep cpus i at),
  )

  -- The round has run an instruction of this process.
  advances :
      (p p' : Pcb)
      → r.proc ≡ some p
      → c'.proc ≡ some p'
      → 0 < one keep p
      → (p'.pc ≡ p.pc + 1) × (p'.text ≡ p.text)
      → one keep p' ≡ one keep p
      → Stand q size r.lists (set cpus i this) known (suc k)
  advances p p' e e' l (pc, text) same = record {
    gone = h.gone;
    placed = omega (arith, m.1, m.2, mine, h.placed, on_cpus-set keep cpus i this at);
    ended = λ g. absurd (omega (arith, g, h.placed, once, m.2, on_cpus-get keep cpus i at));
    sound = omega (
      arith,
      m.1,
      m.2,
      mine,
      here,
      h.placed,
      once,
      total-astray q size (suc k) r.lists,
      others-astray q size (suc k) (set cpus i this) i written,
      on_cpus-set keep cpus i this at,
    );
    within = omega (arith, m.0);
    queued = λ l. absurd (omega (arith, l, m.1));
    unstarted = λ g. absurd (omega (arith, g, h.placed, m.2, on_cpus-get keep cpus i at));
  }
    where
      m : (k < size) × (total keep r.lists ≡ 0) × (total keep lists + held keep c.proc ≡ 1)
      m = may_run (omega (arith, l, ap (held keep) e))

      mine : held keep c'.proc ≡ 1
      mine = omega (arith, ap (held keep) e', same, l, at_most q p)

      there : (p.pc ≡ k) × (length p.text ≡ size)
      there = found_there q size k p l (omega (arith, none_astray.1, ap (held off) e))

      here : held (astray q size (suc k)) c'.proc ≡ 0
      here =
          ap (held (astray q size (suc k))) e'
          ∙ not_astray q size (suc k) p' (omega (arith, pc, there.0)) (ap length text ∙ there.1)

      written : get_elem? (set cpus i this) i ≡ some this
      written = get_elem?-set_self cpus i this (lt_of_get_elem? cpus i at)

  -- The round counts the instructions of this process.
  pub Stand-turn : Stand q size r.lists (set cpus i this) known (held keep c'.proc + k)
  Stand-turn = go r.proc refl r.runs
    where
      go :
          (o : Option Pcb)
          → r.proc ≡ o
          → Runs (shared_machine u) o w c'.proc
          → Stand q size r.lists (set cpus i this) known (held keep c'.proc + k)
      go none e e' =
          subst (Stand q size r.lists (set cpus i this) known) (omega (arith, ap (held keep) e'))
            (stays (ap (held keep) e) (ap (held keep) e'))
      go (some p) e (p', w', ex, e') =
          let same : one keep p' ≡ one keep p =
            ap (λ n. if n == q then 1 else 0) (run_shared-pid u p p' w w' ex) in
          elim (dec_lt 0 (one keep p)) [
            | yes mine ↦
                let there : (p.pc ≡ k) × (length p.text ≡ size) =
                  found_there q size k p mine (omega (arith, none_astray.1, ap (held off) e)) in
                subst (Stand q size r.lists (set cpus i this) known)
                  (omega (arith, ap (held keep) e', same, mine, at_most q p))
                  (advances p p' e e' mine
                    (run_shared-pc u p p' w w'
                      (omega (
                        arith,
                        there.0,
                        there.1,
                        (may_run (omega (arith, mine, ap (held keep) e))).0,
                      ))
                      ex)
                    same)
            | no other ↦
                subst (Stand q size r.lists (set cpus i this) known)
                  (omega (arith, ap (held keep) e', same, other))
                  (stays (omega (arith, ap (held keep) e, other))
                    (omega (arith, ap (held keep) e', same, other)))
          ]
