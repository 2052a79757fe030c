-- ===== src/Tests/Programs.antt =====
-- The test program of the build without paging, on one file.
use mathlib.Core.Option.{some-injective, none-ne-some}
use co2018_assignment.Base.{◌≡◌, ℕ, zero, suc, Option, refl, some, List, [], ◌∷◌, subst, arith}
use co2018_assignment.Scan.{
  Bytes, codes, skip_space, read_digits, scan_one, scan_all, scan_line, read_word, word_of, scan_s,
}
use co2018_assignment.Loader.{loads, exits}
use co2018_assignment.Cpu.Legacy.{page_size}
use co2018_assignment.Cpu.Legacy.Load.{
  calc, read, write, InstUnpaged, PcbUnpaged, WildUnpaged, load_unpaged,
}
use co2018_assignment.Cpu.Legacy.Run.{Stale}
use co2018_assignment.Cpu.Legacy.Program.{paging_main}
use co2018_assignment.Cpu.Legacy.Harmless.{Fits, InRange, paging_main_lem}

-- A process of one write and one read, in memory of any content.
abbrev text : List InstUnpaged
text =
    record { opcode = write; arg_0 = 100; arg_1 = 1; arg_2 = 20 }
    ∷ record { opcode = read; arg_0 = 1; arg_1 = 20; arg_2 = 0 }
    ∷ []

abbrev wild : WildUnpaged
wild = record {
  priority = 0;
  size = 0;
  text = λ i. record { opcode = calc; arg_0 = i; arg_1 = 92; arg_2 = 93 };
  regs = 4 ∷ 5 ∷ [];
  page_table = [];
}

abbrev file : Bytes → Option Bytes
file _ = some (codes "1 2\nwrite 100 1 20\nread 1 20 0\n")

abbrev loaded_as : ℕ → PcbUnpaged
loaded_as pid = record {
  pid = pid;
  priority = 1;
  text = text;
  pc = 0;
  proc = record { regs = 4 ∷ 5 ∷ []; page_table = []; bp = page_size };
}

loads_first : load_unpaged file wild 1 (codes "input/p0") ≡ loads (loaded_as 1, 2)
unfolding load_unpaged scan_all scan_one scan_line scan_s word_of read_word skip_space read_digits
loads_first = refl

loads_second : load_unpaged file wild 2 (codes "input/p0") ≡ loads (loaded_as 2, 3)
unfolding load_unpaged scan_all scan_one scan_line scan_s word_of read_word skip_space read_digits
loads_second = refl

-- There is no opcode malloc.
malloc_unknown : load_unpaged (λ _. some (codes "1 1\nmalloc 300 4\n")) wild 1 (codes "p") ≡ exits
unfolding load_unpaged scan_all scan_one scan_line scan_s word_of read_word skip_space read_digits
malloc_unknown = refl

text-Fits : Fits text 2
unfolding Fits InRange
text-Fits zero ins e = subst (λ i. InRange 2 i i.opcode) (some-injective _ _ e) (omega arith)
text-Fits (suc zero) ins e =
    subst (λ i. InRange 2 i i.opcode) (some-injective _ _ e) (omega arith, omega arith)
text-Fits (suc (suc i)) ins e = absurd (none-ne-some _ e)

abbrev stale : ℕ → Stale
stale i = record { physical_addr = i; data_byte = 7 }

paging_main_lem_example : paging_main file wild wild stale stale ≡ loads []
paging_main_lem_example =
    paging_main_lem file wild wild stale stale (loaded_as 1) (loaded_as 2) 2 3 loads_first
      loads_second text-Fits text-Fits
