-- ===== src/Os/Pid.antt =====
-- A process keeps its pid while it runs on a CPU of ossim_source_code/src/os.c.
use co2018_assignment.Base.{
  subst, ◌+◌, ◌<◌, length, refl, arith, ◌≡◌, inl, inr, sym, ap, ◌∙◌, ◌>>=◌, Option, some,
  Option-cases,
}
use mathlib.Core.Option.{none-ne-some, some-injective}
use co2018_assignment.Memphy.{Memphy}
use co2018_assignment.Vm.{Caller}
use co2018_assignment.Cpu.{Pcb, Uninit, Stat, run}
use co2018_assignment.Cpu.Step.{Ran, over, faulted, stepped, run_lem}
use co2018_assignment.Os.{run_shared}

keeps_pid :
    {u : Uninit} {p : Pcb} {o : Option (Stat × Pcb)} {st : Stat} {p' : Pcb}
    → Ran u p o
    → o ≡ some (st, p')
    → p'.pid ≡ p.pid
keeps_pid (over _) e = sym (ap (λ q. q.1.pid) (some-injective _ _ e))
keeps_pid (faulted _ _ _) e = absurd (none-ne-some _ e)
keeps_pid (stepped _ _ _ _ _) e = sym (ap (λ q. q.1.pid) (some-injective _ _ e))

pub run_shared-pid :
    (u : Uninit) (p p' : Pcb) (w w' : Memphy × Memphy)
    → run_shared u p w ≡ some (p', w')
    → p'.pid ≡ p.pid
unfolding run_shared
run_shared-pid u p p' w w' e = elim (Option-cases (run u (shared p))) [
  | inl f ↦ absurd (none-ne-some _ (sym (ap after f) ∙ e))
  | inr r ↦
      sym (ap (λ q. q.0.pid) (some-injective _ _ (sym (ap after r.1) ∙ e)))
      ∙ keeps_pid (run_lem u (shared p)) r.1
]
  where
    shared : Pcb → Pcb
    shared p =
        let vm : Caller = p.vm in record p { vm = record vm { mram = w.0; active_mswp = w.1 } }

    after : Option (Stat × Pcb) → Option (Pcb × (Memphy × Memphy))
    after o = o >>= λ q. some (q.1, (q.1.vm.mram, q.1.vm.active_mswp))

-- An instruction moves `pc` on by one.
pub run_shared-pc :
    (u : Uninit) (p p' : Pcb) (w w' : Memphy × Memphy)
    → p.pc < length p.text
    → run_shared u p w ≡ some (p', w')
    → (p'.pc ≡ p.pc + 1) × (p'.text ≡ p.text)
unfolding run_shared
run_shared-pc u p p' w w' more e = elim (Option-cases (run u (shared p))) [
  | inl f ↦ absurd (none-ne-some _ (sym (ap after f) ∙ e))
  | inr r ↦
      let eq : r.0.1 ≡ p' = ap (λ q. q.0) (some-injective _ _ (sym (ap after r.1) ∙ e)) in
      subst (λ p'. (p'.pc ≡ p.pc + 1) × (p'.text ≡ p.text)) eq
        (moved (run_lem u (shared p)) r.1 more)
]
  where
    shared : Pcb → Pcb
    shared p =
        let vm : Caller = p.vm in record p { vm = record vm { mram = w.0; active_mswp = w.1 } }

    after : Option (Stat × Pcb) → Option (Pcb × (Memphy × Memphy))
    after o = o >>= λ q. some (q.1, (q.1.vm.mram, q.1.vm.active_mswp))

    moved :
        {o : Option (Stat × Pcb)} {st : Stat} {q : Pcb}
        → Ran u (shared p) o
        → o ≡ some (st, q)
        → p.pc < length p.text
        → (q.pc ≡ p.pc + 1) × (q.text ≡ p.text)
    moved (over le) e more = absurd (omega (arith, le, more))
    moved (faulted _ _ _) e more = absurd (none-ne-some _ e)
    moved (stepped _ _ _ _ _) e more =
        subst (λ q. (q.pc ≡ p.pc + 1) × (q.text ≡ p.text)) (ap (λ r. r.1) (some-injective _ _ e))
          (refl, refl)
