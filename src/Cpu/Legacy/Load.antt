-- ===== src/Cpu/Legacy/Load.antt =====
-- `get_opcode` and `load` of ossim_source_code/src/loader.c without MM_PAGING, which have no opcode
-- MALLOC. What reads the words and numbers is as in the module `Loader`.
use co2018_assignment.Base.{
  ℕ, zero, suc, ◌+◌, ◌%◌, ◌^◌, Option, none, some, List, [], ◌∷◌, if◌then◌else◌,
}
use co2018_assignment.Scan.{Bytes, codes, scan_all, scan_line, scan_s, store_u}
use co2018_assignment.Cpu.Legacy.{page_size, Segment, Process}
use co2018_assignment.Loader.{Load, loads, exits, ◌>>=◌, defined, equal, buffer}

-- `enum ins_opcode_t` and `struct inst_t` of this build
pub data OpcodeUnpaged : Type 0 where
  calc alloc free read write : OpcodeUnpaged

pub record InstUnpaged : Type 0 where
  pub opcode : OpcodeUnpaged
  pub arg_0 : ℕ
  pub arg_1 : ℕ
  pub arg_2 : ℕ

-- `struct pcb_t` of this build: `proc` has the registers, the page table and `bp`. `prio` is never
-- used.
pub record PcbUnpaged : Type 0 where
  pub pid : ℕ
  pub priority : ℕ
  pub text : List InstUnpaged
  pub pc : ℕ
  pub proc : Process

unfoldable pub get_opcode_unpaged : Bytes → Load OpcodeUnpaged
get_opcode_unpaged opt =
    if equal opt (codes "calc")
    then loads calc
    else if equal opt (codes "alloc")
    then loads alloc
    else if equal opt (codes "free")
    then loads free
    else if equal opt (codes "read")
    then loads read
    else if equal opt (codes "write")
    then loads write
    else exits

abbrev assign_unpaged : List ℕ → InstUnpaged → InstUnpaged
assign_unpaged [] ins = ins
assign_unpaged (a ∷ []) ins = record ins { arg_0 = a }
assign_unpaged (a ∷ b ∷ []) ins = record ins { arg_0 = a; arg_1 = b }
assign_unpaged (a ∷ b ∷ c ∷ _) ins = record ins { arg_0 = a; arg_1 = b; arg_2 = c }

unfoldable pub fetch_unpaged : ℕ → InstUnpaged → Bytes → Load (InstUnpaged × Bytes)
fetch_unpaged k ins s = do
  (ns, rest) ← defined (scan_line store_u k s)
  loads (assign_unpaged ns ins, rest)

-- The `switch`
unfoldable pub load_args_unpaged : InstUnpaged → Bytes → OpcodeUnpaged → Load (InstUnpaged × Bytes)
unfolding fetch_unpaged
load_args_unpaged ins s calc = loads (ins, s)
load_args_unpaged ins s alloc = fetch_unpaged 2 ins s
load_args_unpaged ins s free = fetch_unpaged 1 ins s
load_args_unpaged ins s read = fetch_unpaged 3 ins s
load_args_unpaged ins s write = fetch_unpaged 3 ins s

-- One turn of the loop, with what the next one finds in the variable `opcode`.
unfoldable pub load_inst_unpaged :
    InstUnpaged → Option Bytes → Option Bytes × Bytes → Load (InstUnpaged × Bytes × Bytes)
unfolding get_opcode_unpaged load_args_unpaged
load_inst_unpaged wild old (word, rest) = do
  opcode ← buffer word old
  op ← get_opcode_unpaged opcode
  (ins, rest') ← load_args_unpaged (record wild { opcode = op }) rest op
  loads (ins, opcode, rest')

-- The loop from the instruction `i` on, `n` times.
unfoldable pub load_text_unpaged :
    ℕ → (ℕ → InstUnpaged) → ℕ → Option Bytes → Bytes → Load (List InstUnpaged)
unfolding load_inst_unpaged
load_text_unpaged zero wild i old s = loads []
load_text_unpaged (suc n) wild i old s = do
  (ins, opcode, rest) ← load_inst_unpaged (wild i) old (scan_s s)
  text ← load_text_unpaged n wild (i + 1) (some opcode) rest
  loads (ins ∷ text)

-- What memory from `malloc` holds before it is set: the fields of the process, the size of its code,
-- and the cells of its code.
pub record WildUnpaged : Type 0 where
  pub priority : ℕ
  pub size : ℕ
  pub text : ℕ → InstUnpaged
  pub regs : List ℕ
  pub page_table : List Segment

-- `proc->priority` and `proc->code->size` after the first fscanf.
abbrev header_unpaged : List ℕ → WildUnpaged → ℕ × ℕ
header_unpaged [] w = (w.priority, w.size)
header_unpaged (p ∷ []) w = (p, w.size)
header_unpaged (p ∷ n ∷ _) w = (p, n)

loaded_unpaged : WildUnpaged → (avail_pid priority : ℕ) → List InstUnpaged → PcbUnpaged × ℕ
loaded_unpaged w avail_pid priority text = (
  record {
    pid = avail_pid;
    priority = priority;
    text = text;
    pc = 0;
    proc = record { regs = w.regs; page_table = w.page_table; bp = page_size };
  },
  (avail_pid + 1) % 2 ^ 32,
)

load_file_unpaged : WildUnpaged → ℕ → Option Bytes → Load (PcbUnpaged × ℕ)
unfolding load_text_unpaged loaded_unpaged
load_file_unpaged w avail_pid none = exits
load_file_unpaged w avail_pid (some s) = do
  (ns, rest) ← defined (scan_all store_u 2 s)
  text ← load_text_unpaged (header_unpaged ns w).1 w.text 0 none rest
  loads (loaded_unpaged w avail_pid (header_unpaged ns w).0 text)

-- The second result is `avail_pid` after the call.
unfoldable pub load_unpaged :
    (Bytes → Option Bytes) → WildUnpaged → ℕ → Bytes → Load (PcbUnpaged × ℕ)
unfolding load_file_unpaged
load_unpaged file w avail_pid path = load_file_unpaged w avail_pid (file path)
