-- ===== src/Loader.antt =====
-- The loader of ossim_source_code/src/loader.c: a process is read from a text, whose instructions
-- stand one to a line. `wild` is what memory from `malloc` holds before it is set.
pub mod Print
pub mod Lines
pub mod RoundTrip
pub mod Short
pub mod Pid
use Prim.Native.String.{String}
use co2018_assignment.Base.{
  ℕ, zero, suc, ◌+◌, ◌%◌, ◌^◌, Bool, true, false, ◌&&◌, Option, none, some, List, [], ◌∷◌, length,
  leb, ◌==◌, if◌then◌else◌,
}
use co2018_assignment.Scan.{Bytes, codes, scan_all, scan_line, scan_s, store_u}
use co2018_assignment.Cpu.{Opcode, calc, alloc, malloc, free, read, write, Inst, Pcb}
use co2018_assignment.Cpu.Legacy.{page_size}

-- `exits` is `exit(1)`; `faults` is what C leaves undefined.
pub data Load (A : Type 0) : Type 0 where
  loads : A → Load A
  exits : Load A
  faults : Load A

infixl 1 ◌>>=◌
abbrev pub ◌>>=◌ : {A B : Type 0} → Load A → (A → Load B) → Load B
loads a >>= f = f a
exits >>= f = exits
faults >>= f = faults

abbrev pub defined : {A : Type 0} → Option A → Load A
defined none = faults
defined (some a) = loads a

-- strcmp(xs, ys) == 0
abbrev pub equal : Bytes → Bytes → Bool
equal [] [] = true
equal (x ∷ xs) (y ∷ ys) = let rest = equal xs ys in x == y && rest
equal _ _ = false

unfoldable pub get_opcode : Bytes → Load Opcode
get_opcode opt =
    if equal opt (codes "calc")
    then loads calc
    else if equal opt (codes "alloc")
    then loads alloc
    else if equal opt (codes "malloc")
    then loads malloc
    else if equal opt (codes "free")
    then loads free
    else if equal opt (codes "read")
    then loads read
    else if equal opt (codes "write")
    then loads write
    else exits

-- The first arguments are stored, as many as were read.
abbrev pub assign : List ℕ → Inst → Inst
assign [] ins = ins
assign (a ∷ []) ins = record ins { arg_0 = a }
assign (a ∷ b ∷ []) ins = record ins { arg_0 = a; arg_1 = b }
assign (a ∷ b ∷ c ∷ _) ins = record ins { arg_0 = a; arg_1 = b; arg_2 = c }

-- fscanf of `k` numbers and the end of the line into the instruction
unfoldable pub fetch : ℕ → Inst → Bytes → Load (Inst × Bytes)
fetch k ins s = do (ns, rest) ← defined (scan_line store_u k s); loads (assign ns ins, rest)

-- The `switch`; the case of MALLOC goes on into that of FREE.
unfoldable pub load_args : Inst → Bytes → Opcode → Load (Inst × Bytes)
unfolding fetch
load_args ins s calc = loads (ins, s)
load_args ins s alloc = fetch 2 ins s
load_args ins s malloc = do (ins', rest) ← fetch 2 ins s; fetch 1 ins' rest
load_args ins s free = fetch 1 ins s
load_args ins s read = fetch 3 ins s
load_args ins s write = fetch 3 ins s

-- The variable `opcode`, 10 bytes with the last one 0: a word that is read replaces what was there,
-- which is `none` before the first word.
abbrev pub buffer : Option Bytes → Option Bytes → Load Bytes
buffer (some word) old = if leb 10 (length word) then faults else loads word
buffer none (some old) = loads old
buffer none none = faults

-- One turn of the loop, with what the next one finds in `opcode`.
load_word : Inst → Option Bytes → Option Bytes × Bytes → Load (Inst × Bytes × Bytes)
unfolding get_opcode load_args
load_word wild old (word, rest) = do
  opcode ← buffer word old
  op ← get_opcode opcode
  (ins, rest') ← load_args (record wild { opcode = op }) rest op
  loads (ins, opcode, rest')

unfoldable pub load_inst : Inst → Option Bytes → Bytes → Load (Inst × Bytes × Bytes)
unfolding load_word
load_inst wild old s = load_word wild old (scan_s s)

-- The loop from the instruction `i` on, `n` times.
unfoldable pub load_text : ℕ → (ℕ → Inst) → ℕ → Option Bytes → Bytes → Load (List Inst)
unfolding load_inst
load_text zero wild i old s = loads []
load_text (suc n) wild i old s = do
  (ins, opcode, rest) ← load_inst (wild i) old s
  text ← load_text n wild (i + 1) (some opcode) rest
  loads (ins ∷ text)

-- Before the file is read: the fields of the new process, the size of its code, and the cells of its
-- code.
pub record Wild : Type 0 where
  pub proc : Pcb
  pub size : ℕ
  pub text : ℕ → Inst

-- `proc->priority` and `proc->code->size` after the first fscanf.
abbrev pub header : List ℕ → Wild → ℕ × ℕ
header [] w = (w.proc.priority, w.size)
header (p ∷ []) w = (p, w.size)
header (p ∷ n ∷ _) w = (p, n)

loaded : Wild → ℕ → ℕ → List Inst → Pcb × ℕ
loaded w avail_pid priority text = (
  record w.proc { pid = avail_pid; priority = priority; text = text; pc = 0; bp = page_size },
  (avail_pid + 1) % 2 ^ 32,
)

load_body : Wild → ℕ → Bytes → ℕ × ℕ → Load (Pcb × ℕ)
unfolding load_text loaded
load_body w avail_pid s (priority, size) = do
  text ← load_text size w.text 0 none s
  loads (loaded w avail_pid priority text)

load_file : Wild → ℕ → Option Bytes → Load (Pcb × ℕ)
unfolding load_body
load_file w avail_pid none = exits
load_file w avail_pid (some s) = do
  (ns, rest) ← defined (scan_all store_u 2 s)
  load_body w avail_pid rest (header ns w)

-- The file system is the parameter `file`; the second result is `avail_pid` after the call.
unfoldable pub load : (Bytes → Option Bytes) → Wild → ℕ → Bytes → Load (Pcb × ℕ)
unfolding load_file
load file w avail_pid path = load_file w avail_pid (file path)
