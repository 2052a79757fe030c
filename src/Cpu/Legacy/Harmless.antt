-- ===== src/Cpu/Legacy/Harmless.antt =====
-- What the programs that `main` of ossim_source_code/src/paging.c runs leave of the memory.
use co2018_assignment.Base.{
  ℕ, zero, suc, ◌+◌, ◌%◌, ◌^◌, ◌≡◌, ◌<◌, ◌≤◌, inl, inr, refl, sym, subst, Option, some, List, [],
  length, get_elem?, get_elem?_of_lt, leb, ◌>>=◌, replicate, length-set, set, arith, Bool-cases,
}
use co2018_assignment.Scan.{Bytes, codes}
use co2018_assignment.Cpu.Legacy.Load.{
  OpcodeUnpaged, calc, alloc, free, read, write, InstUnpaged, PcbUnpaged, WildUnpaged, load_unpaged,
}
use co2018_assignment.Cpu.Legacy
use co2018_assignment.Cpu.Legacy.{
  Mem, MemStat, Segment, Process, free_data, legacy_memory_unavailable, page_size, address_size,
  offset_len,
}
use co2018_assignment.Cpu.Legacy.Dump.{dump, dump_entry, dump_page, dump_pages}
use co2018_assignment.Cpu.Legacy.Run.{Stale, execute_unpaged, run_unpaged, run_both}
use co2018_assignment.Cpu.Legacy.Program.{static_mem, paging_main}
use co2018_assignment.Loader.{loads}

-- The registers that the instruction uses exist, where there are `n`.
unfoldable pub InRange : ℕ → InstUnpaged → OpcodeUnpaged → Type 0
InRange n ins calc = Unit
InRange n ins alloc = Unit
InRange n ins free = ins.arg_0 < n
InRange n ins read = (ins.arg_0 < n) × (ins.arg_2 < n)
InRange n ins write = ins.arg_1 < n

unfoldable pub Fits : List InstUnpaged → ℕ → Type 0
Fits text n = (i : ℕ) (ins : InstUnpaged) → get_elem? text i ≡ some ins → InRange n ins ins.opcode

execute_unpaged_lem :
    (l : Stale) (m : Mem) (proc : Process) (ins : InstUnpaged) (op : OpcodeUnpaged)
    → InRange (length proc.regs) ins op
    → (stat : ℕ) × (proc' : Process) × (execute_unpaged l m proc ins op ≡ some (stat, m, proc'))
      × (length proc'.regs ≡ length proc.regs)
unfolding execute_unpaged InRange Legacy.alloc Legacy.alloc_mem Legacy.free_data Legacy.free_mem
execute_unpaged_lem l m proc ins calc r = (0, proc, refl, refl)
execute_unpaged_lem l m proc ins alloc r = (1, proc, refl, refl)
execute_unpaged_lem l m proc ins free r =
    let (a, e) = get_elem?_of_lt proc.regs ins.arg_0 r in (0, proc, rw e refl, refl)
execute_unpaged_lem l m proc ins read (s, d) = (
  0,
  record proc { regs = set proc.regs ins.arg_2 l.data_byte },
  rw
      ((legacy_memory_unavailable m proc l.physical_addr l.data_byte 0 0 ins.arg_0 ins.arg_1
        ins.arg_2 0 s d).1)
      refl,
  length-set proc.regs ins.arg_2 l.data_byte,
)
execute_unpaged_lem l m proc ins write r = (
  1,
  proc,
  rw
      ((legacy_memory_unavailable m proc l.physical_addr l.data_byte 0 0 ins.arg_1 ins.arg_2
        ins.arg_1 (ins.arg_0 % 2 ^ 8) r r).2)
      refl,
  refl,
)

run_unpaged_lem :
    (l : Stale) (m : Mem) (j : PcbUnpaged)
    → Fits j.text (length j.proc.regs)
    → (stat : ℕ) × (j' : PcbUnpaged) × (run_unpaged l m j ≡ some (stat, m, j'))
      × Fits j'.text (length j'.proc.regs)
unfolding run_unpaged Fits
run_unpaged_lem l m j fits = elim (Bool-cases (leb (length j.text) j.pc)) [
  | inl y ↦ (1, j, rw y refl, fits)
  | inr n ↦
      let (ins, at) = get_elem?_of_lt j.text j.pc (ground arith) in
      let (stat, proc', e, same) =
        execute_unpaged_lem l m j.proc ins ins.opcode (fits j.pc ins at) in
      (
        stat,
        record j { pc = j.pc + 1; proc = proc' },
        rw (n, at, e) refl,
        subst (Fits j.text) (sym same) fits,
      )
]

run_both_lem :
    (stale stale' : ℕ → Stale) (n : ℕ) (m : Mem) (proc ld : PcbUnpaged)
    → Fits proc.text (length proc.proc.regs)
    → Fits ld.text (length ld.proc.regs)
    → run_both stale stale' n m proc ld ≡ some m
unfolding run_both
run_both_lem stale stale' zero m proc ld f f' = refl
run_both_lem stale stale' (suc n) m proc ld f f' =
    let (_, proc', e, g) = run_unpaged_lem (stale n) m proc f in
    let (_, ld', e', g') = run_unpaged_lem (stale' n) m ld f' in
    rw (e, e') (run_both_lem stale stale' n m proc' ld' g g')

abbrev blank : MemStat
blank = record { proc = 0; index = 0; next = 0 }

dump_entry_lem : (m : Mem) (i : ℕ) → dump_entry m i blank ≡ some []
unfolding dump_entry
dump_entry_lem m i = refl

dump_page_lem : (m : Mem) (i : ℕ) → get_elem? m.mem_stat i ≡ some blank → dump_page m i ≡ some []
unfolding dump_page
dump_page_lem m i e = subst (λ o. (o >>= dump_entry m i) ≡ some []) (sym e) (dump_entry_lem m i)

dump_pages_lem :
    (m : Mem) (k : ℕ) (unused : (i : ℕ) → i < k → get_elem? m.mem_stat i ≡ some blank) (i left : ℕ)
    → i + left ≤ k
    → dump_pages m i left ≡ some []
unfolding dump_pages
dump_pages_lem m k unused i zero le = refl
dump_pages_lem m k unused i (suc left) le =
    rw
      (
        dump_page_lem m i (unused i (omega (arith, le))),
        dump_pages_lem m k unused (i + 1) left (omega (arith, le)),
      )
      refl

all_blank : (k i : ℕ) → i < k → get_elem? (replicate k blank) i ≡ some blank
all_blank zero i lt = absurd (omega (arith, lt))
all_blank (suc k) zero lt = refl
all_blank (suc k) (suc i) lt = all_blank k i (omega (arith, lt))

dump_lem : dump static_mem ≡ some []
unfolding dump static_mem
dump_lem = dump_pages_lem static_mem 1024 (all_blank 1024) 0 1024 (omega arith)

-- Where `load` succeeds on `input/p0` both times, and the instructions of both processes use only
-- registers that exist, `main` runs to its end, whatever uninitialised variables hold, and prints
-- nothing.
pub paging_main_lem :
    (file : Bytes → Option Bytes) (w w' : WildUnpaged) (stale stale' : ℕ → Stale)
    (ld proc : PcbUnpaged) (next last : ℕ)
    → load_unpaged file w 1 (codes "input/p0") ≡ loads (ld, next)
    → load_unpaged file w' next (codes "input/p0") ≡ loads (proc, last)
    → Fits ld.text (length ld.proc.regs)
    → Fits proc.text (length proc.proc.regs)
    → paging_main file w w' stale stale' ≡ loads []
unfolding paging_main
paging_main_lem file w w' stale stale' ld proc next last e e' f f' =
    rw (e, e', run_both_lem stale stale' (length proc.text) static_mem proc ld f' f, dump_lem) refl
