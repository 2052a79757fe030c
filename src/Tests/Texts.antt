-- ===== src/Tests/Texts.antt =====
-- Texts as the files of ossim_source_code/input hold them.
use co2018_assignment.Base.{◌+◌, ◌%◌, ◌^◌, ◌≡◌, refl, some, List, [], ◌∷◌, map, arith}
use co2018_assignment.Base.Int.{pos}
use co2018_assignment.Scan.{
  Bytes, codes, skip_space, read_digits, scan_one, scan_all, scan_line, read_word, word_of, scan_s,
}
use co2018_assignment.Scan.Decimal.{decimal, digits_onto}
use co2018_assignment.Cpu.{Inst, Pcb, calc, malloc, free}
use co2018_assignment.Cpu.Legacy.{page_size}
use co2018_assignment.Loader.{Load, loads, exits, faults, ◌>>=◌, Wild, load}
use co2018_assignment.Loader.Print.{numbers, lines, print}
use co2018_assignment.Loader.RoundTrip.{load-print}
use co2018_assignment.Loader.Short.{load-short}
use co2018_assignment.Os.Config.{Config, LdProcess, read_config}
use co2018_assignment.Os.Config.Print.{Entry, IsEntry, print_config}
use co2018_assignment.Os.Config.RoundTrip.{as_process, read_config-print_config}
use co2018_assignment.Tests.{process}

abbrev pub left_over : Inst
left_over = record { opcode = calc; arg_0 = 91; arg_1 = 92; arg_2 = 93 }

abbrev pub wild_pcb : Pcb
wild_pcb = record {
  pid = 0;
  priority = 0;
  text = [];
  regs = [];
  pc = 77;
  prio = 0;
  vm = process;
  bp = 0;
}

abbrev pub wild : Wild
wild = record { proc = wild_pcb; size = 0; text = λ _. left_over }

abbrev pub program : List Inst
program =
    record { opcode = malloc; arg_0 = 300; arg_1 = 4; arg_2 = 0 }
    ∷ record { opcode = free; arg_0 = 0; arg_1 = 0; arg_2 = 0 }
    ∷ record { opcode = calc; arg_0 = 0; arg_1 = 0; arg_2 = 0 }
    ∷ []

prints : print 1 program ≡ codes "1 3\nmalloc 300 4\nfree 0\ncalc\n"
unfolding decimal digits_onto
prints = refl

abbrev pub loaded_text : List Inst
loaded_text =
    record left_over { opcode = malloc; arg_0 = 300; arg_1 = 4 }
    ∷ record left_over { opcode = free; arg_0 = 0 }
    ∷ left_over
    ∷ []

-- The file ends after the first instruction: the loop goes on with the opcode that it has.
ends_early :
    load (λ _. some (codes "1 3\nfree 5\n")) wild 1 (codes "p")
    ≡ loads (
      record wild_pcb {
        pid = 1;
        priority = 1;
        text =
            record left_over { opcode = free; arg_0 = 5 }
            ∷ record left_over { opcode = free }
            ∷ record left_over { opcode = free }
            ∷ [];
        pc = 0;
        bp = page_size;
      },
      2,
    )
unfolding load scan_all scan_one scan_line scan_s word_of read_word skip_space read_digits
ends_early = refl

unknown_opcode : load (λ _. some (codes "1 1\njump 5\n")) wild 1 (codes "p") ≡ exits
unfolding load scan_all scan_one scan_line scan_s word_of read_word skip_space read_digits
unknown_opcode = refl

long_opcode : load (λ _. some (codes "1 1\ncalculation\n")) wild 1 (codes "p") ≡ faults
unfolding load scan_all scan_one scan_line scan_s word_of read_word skip_space read_digits
long_opcode = refl

abbrev paths : Load Config → Load (List Bytes)
paths c = c >>= λ c. loads (map LdProcess.path c.ld_processes)

-- The file os_0_mlq_paging: its line of memory sizes is read as two processes.
memory_line :
    paths (
      read_config
        (λ _. some (codes "6 2 4\n1048576 16777216 0 0 0 3145728\n0 p0s 0\n2 p1s 15\n"))
        (λ _. 0)
        (codes "input/os_0_mlq_paging"))
    ≡ loads (
        codes "input/proc/16777216"
        ∷ codes "input/proc/0"
        ∷ codes "input/proc/p0s"
        ∷ codes "input/proc/p1s"
        ∷ [])
unfolding read_config scan_all scan_one scan_line scan_s word_of read_word skip_space read_digits
memory_line = refl

abbrev pub entries : List Entry
entries = record { start_time = 2; name = codes "p1s"; prio = 3 } ∷ []

pub entries-IsEntry : IsEntry (record { start_time = 2; name = codes "p1s"; prio = 3 })
entries-IsEntry = record {
  start_time = omega arith;
  prio = omega arith;
  word = (refl, (refl, (refl, tt)));
  some_byte = λ e. cc;
  short = omega arith;
}

abbrev only_free : Inst
only_free = record { opcode = free; arg_0 = 5; arg_1 = 0; arg_2 = 0 }

load-print_example :
    load (λ _. some (print 1 program)) wild 1 (codes "p")
    ≡ loads (
      record wild_pcb { pid = 1; priority = 1; text = loaded_text; pc = 0; bp = page_size },
      (1 + 1) % 2 ^ 32,
    )
load-print_example =
    load-print (λ _. some (print 1 program)) wild 1 1 (codes "p") program (omega arith)
      (omega arith) ((omega arith, (omega arith, tt)), ((omega arith, tt), (tt, tt))) refl

read_config-print_config_example :
    read_config (λ _. some (print_config 6 2 entries)) (λ _. 0) (codes "c")
    ≡ loads (record {
      time_slot = pos 6;
      num_cpus = pos 2;
      num_processes = pos 1;
      memramsz = 0x100000;
      memswpsz = 0x1000000 ∷ 0 ∷ 0 ∷ 0 ∷ 0 ∷ [];
      vmemsz = 0x300000;
      ld_processes = map as_process entries;
    })
read_config-print_config_example =
    read_config-print_config (λ _. some (print_config 6 2 entries)) (λ _. 0) (codes "c") 6 2 entries
      (omega arith) (omega arith) (omega arith) (entries-IsEntry, tt) refl

load-short_example :
    load (λ _. some (decimal 1 (numbers (3 ∷ []) (lines (only_free ∷ []))))) wild 1 (codes "p")
    ≡ loads (
      record wild_pcb {
        pid = 1;
        priority = 1;
        text =
            record left_over { opcode = free; arg_0 = 5 }
            ∷ record left_over { opcode = free }
            ∷ record left_over { opcode = free }
            ∷ [];
        pc = 0;
        bp = page_size;
      },
      (1 + 1) % 2 ^ 32,
    )
load-short_example =
    load-short (λ _. some (decimal 1 (numbers (3 ∷ []) (lines (only_free ∷ []))))) wild 1 1 2
      (codes "p") only_free [] (omega arith) (omega arith) ((omega arith, tt), tt) refl
