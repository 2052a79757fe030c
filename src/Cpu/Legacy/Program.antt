-- ===== src/Cpu/Legacy/Program.antt =====
-- `main` of ossim_source_code/src/paging.c, in the build without MM_PAGING.
use co2018_assignment.Base.{ℕ, ◌-◌, ◌^◌, Option, List, length, replicate}
use co2018_assignment.Scan.{Bytes, codes}
use co2018_assignment.Cpu.Legacy.Load.{WildUnpaged, load_unpaged}
use co2018_assignment.Cpu.Legacy.{Mem, address_size, offset_len}
use co2018_assignment.Cpu.Legacy.Dump.{DumpLine, dump}
use co2018_assignment.Cpu.Legacy.Run.{Stale, run_both}
use co2018_assignment.Loader.{Load, ◌>>=◌, defined}

-- `_ram` and `_mem_stat` as the program starts.
unfoldable pub static_mem : Mem
static_mem = record {
  ram = replicate (2 ^ address_size) 0;
  mem_stat = replicate (2 ^ (address_size - offset_len)) (record { proc = 0; index = 0; next = 0 });
}

unfoldable pub paging_main :
    (Bytes → Option Bytes)
    → (ld_wild proc_wild : WildUnpaged) → (stale stale' : ℕ → Stale) → Load (List DumpLine)
unfolding run_both
paging_main file ld_wild proc_wild stale stale' = do
  (ld, avail_pid) ← load_unpaged file ld_wild 1 (codes "input/p0")
  (proc, _) ← load_unpaged file proc_wild avail_pid (codes "input/p0")
  m ← defined (run_both stale stale' (length proc.text) static_mem proc ld)
  defined (dump m)
