-- ===== src/Cpu/Legacy/Run.antt =====
-- `run` of ossim_source_code/src/cpu.c without MM_PAGING, and the loop of `main` of
-- ossim_source_code/src/paging.c.
use co2018_assignment.Base.{
  ℕ, zero, suc, ◌+◌, ◌%◌, ◌^◌, Option, some, length, get_elem?, leb, if◌then◌else◌, ◌>>=◌,
}
use co2018_assignment.Cpu.Legacy.Load.{
  OpcodeUnpaged, calc, alloc, free, read, write, InstUnpaged, PcbUnpaged,
}
use co2018_assignment.Cpu.Legacy
use co2018_assignment.Cpu.Legacy.{Mem, Segment, Process, free_data, address_size, offset_len}

-- What local variables hold before they are set, for one instruction.
pub record Stale : Type 0 where
  pub physical_addr : ℕ
  pub data_byte : ℕ

unfoldable pub execute_unpaged :
    Stale → Mem → Process → InstUnpaged → OpcodeUnpaged → Option (ℕ × Mem × Process)
execute_unpaged l m proc ins calc = some (0, m, proc)
execute_unpaged l m proc ins alloc = do
  (stat, proc') ← Legacy.alloc proc ins.arg_0 ins.arg_1
  some (stat, m, proc')
execute_unpaged l m proc ins free = do stat ← free_data proc ins.arg_0; some (stat, m, proc)
execute_unpaged l m proc ins read = do
  (stat, proc') ← Legacy.read m l.physical_addr l.data_byte proc ins.arg_0 ins.arg_1 ins.arg_2
  some (stat, m, proc')
execute_unpaged l m proc ins write = do
  (stat, m') ← Legacy.write m l.physical_addr proc (ins.arg_0 % 2 ^ 8) ins.arg_1 ins.arg_2
  some (stat, m', proc)

unfoldable pub run_unpaged : Stale → Mem → PcbUnpaged → Option (ℕ × Mem × PcbUnpaged)
unfolding execute_unpaged
run_unpaged l m job = if leb (length job.text) job.pc then some (1, m, job) else (do
  ins ← get_elem? job.text job.pc
  (stat, m', proc) ← execute_unpaged l m job.proc ins ins.opcode
  some (stat, m', record job { pc = job.pc + 1; proc = proc }))

-- The loop of `main`, `left` times.
unfoldable pub run_both : (stale stale' : ℕ → Stale) → ℕ → Mem → (proc ld : PcbUnpaged) → Option Mem
unfolding run_unpaged
run_both stale stale' zero m proc ld = some m
run_both stale stale' (suc left) m proc ld = do
  (_, m₁, proc') ← run_unpaged (stale left) m proc
  (_, m₂, ld') ← run_unpaged (stale' left) m₁ ld
  run_both stale stale' left m₂ proc' ld'
