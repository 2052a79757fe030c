-- ===== src/Os/Config/Print.antt =====
-- A configuration as ossim_source_code/src/os.c reads it with MM_FIXED_MEMSZ: the line of the
-- scheduler, and one line to a process.
use co2018_assignment.Base.{ℕ, ◌<◌, ◌≡◌, ◌≢◌, ◌^◌, false, List, [], ◌∷◌, ◌++◌, length, All}
use co2018_assignment.Scan.{Bytes, is_space}
use co2018_assignment.Scan.Decimal.{decimal}

pub record Entry : Type 0 where
  pub start_time : ℕ
  pub name : Bytes
  pub prio : ℕ

-- The name is a word of 1 to 88 bytes, and the numbers fit in 64 bits.
pub record IsEntry (e : Entry) : Type 0 where
  pub start_time : e.start_time < 2 ^ 64
  pub prio : e.prio < 2 ^ 64
  pub word : All (λ c. is_space c ≡ false) e.name
  pub some_byte : e.name ≢ []
  pub short : length e.name < 89

abbrev pub entry_line : Entry → Bytes → Bytes
entry_line e ys = decimal e.start_time (b' ' ∷ (e.name ++ (b' ' ∷ decimal e.prio (b'\n' ∷ ys))))

abbrev pub entry_lines : List Entry → Bytes
entry_lines [] = []
entry_lines (e ∷ es) = entry_line e (entry_lines es)

abbrev pub print_config : (time_slot num_cpus : ℕ) → List Entry → Bytes
print_config time_slot num_cpus es =
    decimal time_slot
      (b' ' ∷ decimal num_cpus (b' ' ∷ decimal (length es) (b'\n' ∷ entry_lines es)))
