-- ===== src/Loader/Print.antt =====
-- A process as a text that ossim_source_code/src/loader.c reads, as the files of
-- ossim_source_code/input/proc are.
use co2018_assignment.Base.{ℕ, List, [], ◌∷◌, ◌++◌, length}
use co2018_assignment.Scan.{Bytes, codes}
use co2018_assignment.Scan.Decimal.{decimal}
use co2018_assignment.Cpu.{Opcode, calc, alloc, malloc, free, read, write, Inst}

abbrev pub spelling : Opcode → Bytes
spelling calc = codes "calc"
spelling alloc = codes "alloc"
spelling malloc = codes "malloc"
spelling free = codes "free"
spelling read = codes "read"
spelling write = codes "write"

-- The arguments of an instruction.
abbrev pub args : Inst → Opcode → List ℕ
args ins calc = []
args ins alloc = ins.arg_0 ∷ ins.arg_1 ∷ []
args ins malloc = ins.arg_0 ∷ ins.arg_1 ∷ []
args ins free = ins.arg_0 ∷ []
args ins read = ins.arg_0 ∷ ins.arg_1 ∷ ins.arg_2 ∷ []
args ins write = ins.arg_0 ∷ ins.arg_1 ∷ ins.arg_2 ∷ []

-- Numbers with a blank before each, and the end of the line.
abbrev pub numbers : List ℕ → Bytes → Bytes
numbers [] ys = b'\n' ∷ ys
numbers (n ∷ ns) ys = b' ' ∷ decimal n (numbers ns ys)

abbrev pub line : Inst → Bytes → Bytes
line ins ys = spelling ins.opcode ++ numbers (args ins ins.opcode) ys

abbrev pub lines : List Inst → Bytes
lines [] = []
lines (ins ∷ text) = line ins (lines text)

abbrev pub print : ℕ → List Inst → Bytes
print priority text = decimal priority (numbers (length text ∷ []) (lines text))
