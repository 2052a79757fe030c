-- ===== src/Os/Simulation/Stand.antt =====
-- How far the process of one pid has come on the CPUs of ossim_source_code/src/os.c, and where it is.
use co2018_assignment.Base.{
  ℕ, zero, suc, ◌+◌, ◌≤◌, ◌<◌, ◌≡◌, refl, subst, Bool, true, false, not, ◌&&◌, Option, none, some,
  List, [], ◌∷◌, length, get_elem?, ◌==◌, arith, if◌then◌else◌,
}
use mathlib.Core.Option.{none-ne-some, some-injective}
use co2018_assignment.Cpu.{Pcb}
use co2018_assignment.Os.{pcb_Schedulable}
use co2018_assignment.Os.Conserve.{one, held, count, total}
use co2018_assignment.Os.Threads.{CpuThread}
use co2018_assignment.Os.Threads.Unique.{on_cpus}
use co2018_assignment.Os.Simulation.Pids.{has_pid}

abbrev bit : Bool → ℕ
bit b = if b then 1 else 0

module _ (q size : ℕ) where
  -- The process with the pid `q`, if it is not where it is after `k` of `size` instructions.
  abbrev pub astray : ℕ → Pcb → Bool
  astray k p = has_pid q p && not (p.pc == k && length p.text == size)

  pub astray-le : (k : ℕ) (p : Pcb) → one (astray k) p ≤ one (has_pid q) p
  astray-le k p = go (has_pid q p) (not (p.pc == k && length p.text == size))
    where
      go : (a b : Bool) → bit (a && b) ≤ bit a
      go true true = omega arith
      go true false = omega arith
      go false b = omega arith

  pub not_astray : (k : ℕ) (p : Pcb) → p.pc ≡ k → length p.text ≡ size → one (astray k) p ≡ 0
  not_astray k p e e' =
      go (has_pid q p) (p.pc == k) (length p.text == size) (ground arith) (ground arith)
    where
      go : (a b c : Bool) → b ≡ true → c ≡ true → bit (a && not (b && c)) ≡ 0
      go true true true e e' = refl
      go false b c e e' = refl
      go true false c e e' = cc
      go true true false e e' = cc

  pub found_there :
      (k : ℕ) (p : Pcb)
      → 0 < one (has_pid q) p
      → one (astray k) p ≡ 0
      → (p.pc ≡ k) × (length p.text ≡ size)
  found_there k p l e = go (has_pid q p) (p.pc == k) (length p.text == size) refl refl l e
    where
      go :
          (a b c : Bool)
          → (p.pc == k) ≡ b
          → (length p.text == size) ≡ c
          → 0 < bit a
          → bit (a && not (b && c)) ≡ 0
          → (p.pc ≡ k) × (length p.text ≡ size)
      go true true true eb ec l e = (ground arith, ground arith)
      go false b c eb ec l e = absurd (omega (arith, l))
      go true false c eb ec l e = absurd (omega (arith, e))
      go true true false eb ec l e = absurd (omega (arith, e))

  count-astray : (k : ℕ) (ps : List Pcb) → count (astray k) ps ≤ count (has_pid q) ps
  count-astray k [] = omega arith
  count-astray k (p ∷ ps) = omega (arith, astray-le k p, count-astray k ps)

  pub total-astray : (k : ℕ) (pss : List (List Pcb)) → total (astray k) pss ≤ total (has_pid q) pss
  total-astray k [] = omega arith
  total-astray k (ps ∷ pss) = omega (arith, count-astray k ps, total-astray k pss)

  pub held-astray : (k : ℕ) (p : Option Pcb) → held (astray k) p ≤ held (has_pid q) p
  held-astray k none = omega arith
  held-astray k (some p) = astray-le k p

  on_cpus-astray :
      (k : ℕ) (cs : List (CpuThread Pcb)) → on_cpus (astray k) cs ≤ on_cpus (has_pid q) cs
  on_cpus-astray k [] = omega arith
  on_cpus-astray k (c ∷ cs) = omega (arith, held-astray k c.core.proc, on_cpus-astray k cs)

  -- All other CPUs.
  pub others-astray :
      (k : ℕ) (cs : List (CpuThread Pcb)) (i : ℕ) {c : CpuThread Pcb}
      → get_elem? cs i ≡ some c
      → on_cpus (astray k) cs + held (has_pid q) c.core.proc
        ≤ on_cpus (has_pid q) cs + held (astray k) c.core.proc
  others-astray k [] i e = absurd (none-ne-some _ e)
  others-astray k (c₀ ∷ cs) zero {c} e =
      subst
        (λ c.
          on_cpus (astray k) (c₀ ∷ cs) + held (has_pid q) c.core.proc
          ≤ on_cpus (has_pid q) (c₀ ∷ cs) + held (astray k) c.core.proc)
        (some-injective _ _ e) (omega (arith, on_cpus-astray k cs))
  others-astray k (c₀ ∷ cs) (suc i) e =
      omega (arith, others-astray k cs i e, held-astray k c₀.core.proc)

  -- After `k` instructions the process is where it should be: `known` counts the processes of this pid
  -- that were loaded, and `gone` those whose code has ended.
  pub record Stand (lists : List (List Pcb)) (cpus : List (CpuThread Pcb)) (known k : ℕ)
      : Type 0 where
    pub gone : ℕ
    pub placed : total (has_pid q) lists + on_cpus (has_pid q) cpus + gone ≡ known
    pub ended : 0 < gone → k ≡ size
    pub sound : total (astray k) lists + on_cpus (astray k) cpus ≡ 0
    pub within : k ≤ size
    pub queued : 0 < total (has_pid q) lists → k < size
    pub unstarted : known ≡ 0 → k ≡ 0
