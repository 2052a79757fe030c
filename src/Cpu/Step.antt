-- ===== src/Cpu/Step.antt =====
-- The execution of a program by `run`.
use co2018_assignment.Base.{
  ◌+◌, ◌≤◌, ◌≡◌, refl, false, none, some, Option, length, get_elem?, get_elem?_of_lt, leb, le→leb,
  lt→leb, arith, Status, ◌>>=◌, if◌then◌else◌,
}
use native.Mathlib.Decide.{dec_le}
use co2018_assignment.Vm.{Caller}
use co2018_assignment.Cpu.{Inst, Pcb, Uninit, Stat, returned, one, execute, run}

-- What one call of `run` does to a process.
pub data Ran (u : Uninit) (proc : Pcb) : Option (Stat × Pcb) → Type 0 where
  over : length proc.text ≤ proc.pc → Ran u proc (some (one, proc))
  faulted :
      (ins : Inst)
      → get_elem? proc.text proc.pc ≡ some ins
      → execute u ins ins.opcode proc.vm ≡ none
      → Ran u proc none
  stepped :
      (ins : Inst) (status : Status) (vm : Caller)
      → get_elem? proc.text proc.pc ≡ some ins
      → execute u ins ins.opcode proc.vm ≡ some (status, vm)
      → Ran u proc (some (returned status, record proc { pc = proc.pc + 1; vm = vm }))

-- `run` never reads outside the text. At its end it returns 1 and changes nothing. Before, it executes
-- the instruction at `pc`, and unless that faults, it returns what the instruction returned and moves
-- `pc` on by one; no other field of the process changes but the virtual memory.
pub run_lem : (u : Uninit) (proc : Pcb) → Ran u proc (run u proc)
unfolding run
run_lem u proc = elim (dec_le (length proc.text) proc.pc) [
  | yes end ↦ rw (le→leb (length proc.text) proc.pc end) (over end)
  | no more ↦
      fetch (get_elem?_of_lt proc.text proc.pc (omega arith))
        (lt→leb (length proc.text) proc.pc (omega arith))
]
  where
    after : Inst → Option (Status × Caller) → Option (Stat × Pcb)
    after ins o =
        o >>= λ (status, vm). some (returned status, record proc { pc = proc.pc + 1; vm = vm })

    step :
        (ins : Inst) (o : Option (Status × Caller))
        → get_elem? proc.text proc.pc ≡ some ins
        → execute u ins ins.opcode proc.vm ≡ o
        → Ran u proc (after ins o)
    step ins none e x = faulted ins e x
    step ins (some (status, vm)) e x = stepped ins status vm e x

    fetch :
        (ins : Inst) × (get_elem? proc.text proc.pc ≡ some ins)
        → leb (length proc.text) proc.pc ≡ false
        → Ran u proc (
            if leb (length proc.text) proc.pc then some (one, proc) else (do
              ins ← get_elem? proc.text proc.pc
              (status, vm) ← execute u ins ins.opcode proc.vm
              some (returned status, record proc { pc = proc.pc + 1; vm = vm })))
    fetch (ins, e) more = rw more (rw e (step ins _ e refl))
