-- ===== src/Cpu.antt =====
-- `run` and the instructions of ossim_source_code/src/cpu.c with MM_PAGING. The functions `alloc`,
-- `free_data`, `read` and `write` of that file, and ossim_source_code/src/mem.c below them, belong
-- to the build without paging, and are in the module `Legacy`.
pub mod Step
pub mod Legacy
use co2018_assignment.Base.{
  ℕ, suc, ◌+◌, Option, none, some, List, length, get_elem?, leb, if◌then◌else◌, ◌>>=◌, Status, done,
  failed,
}
use co2018_assignment.Base.Int.{ℤ, pos}
use co2018_assignment.Vm.{Region, Caller}
use co2018_assignment.Vm.Regions.{pgalloc, pgmalloc, pgfree_data}
use co2018_assignment.Vm.Page.{Locals, pgread, pgwrite}

-- `enum ins_opcode_t`
pub data Opcode : Type 0 where
  calc alloc malloc free read write : Opcode

pub record Inst : Type 0 where
  pub opcode : Opcode
  pub arg_0 : ℕ
  pub arg_1 : ℕ
  pub arg_2 : ℕ

-- `struct pcb_t`: the length of `text` is `code->size`, and `vm` holds the fields of virtual memory.
-- `page_table` is used by no code that is reached.
pub record Pcb : Type 0 where
  pub pid : ℕ
  pub priority : ℕ
  pub text : List Inst
  pub regs : List ℕ
  pub pc : ℕ
  pub prio : ℕ
  pub vm : Caller
  pub bp : ℕ

-- What local variables hold before they are set, for one instruction.
pub record Uninit : Type 0 where
  pub locals : Locals
  pub region : Region
  pub addr : ℤ
  pub data_byte : ℕ
  pub fpn : ℕ

-- `run` returns 0, 1, or what the instruction returned; of that `failed` is -1.
pub data Stat : Type 0 where
  returned : Status → Stat
  one : Stat

unfoldable pub execute : Uninit → Inst → Opcode → Caller → Option (Status × Caller)
execute u ins calc caller = some (done, caller)
execute u ins alloc caller = pgalloc u.region u.addr caller ins.arg_0 ins.arg_1
execute u ins malloc caller = pgmalloc u.region u.addr caller ins.arg_0 ins.arg_1
execute u ins free caller = pgfree_data caller ins.arg_0
execute u ins read caller = pgread u.locals caller ins.arg_0 ins.arg_1 u.data_byte u.fpn
execute u ins write caller = pgwrite u.locals caller ins.arg_0 ins.arg_1 ins.arg_2 u.fpn

unfoldable pub run : Uninit → Pcb → Option (Stat × Pcb)
unfolding execute
run u proc = if leb (length proc.text) proc.pc then some (one, proc) else (do
  ins ← get_elem? proc.text proc.pc
  (status, vm) ← execute u ins ins.opcode proc.vm
  some (returned status, record proc { pc = proc.pc + 1; vm = vm }))
