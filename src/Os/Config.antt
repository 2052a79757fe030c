-- ===== src/Os/Config.antt =====
-- `read_config` of ossim_source_code/src/os.c with MLQ_SCHED, MM_PAGING, MM_FIXED_MEMSZ and
-- MM_PAGING_HEAP_GODOWN, as the configuration header defines them. A text holds no byte 0.
pub mod Print
pub mod RoundTrip
use co2018_assignment.Base.{
  ℕ, zero, suc, ◌+◌, ◌-◌, ◌*◌, Bool, true, false, Option, none, some, List, [], ◌∷◌, ◌++◌, length,
  leb, if◌then◌else◌, replicate,
}
use co2018_assignment.Base.Int.{ℤ, pos, pos_part}
use co2018_assignment.Scan.{
  Bytes, codes, skip_space, scan_one, scan_line, scan_s, store_d, store_lu,
}
use co2018_assignment.Loader.{Load, loads, exits, faults, ◌>>=◌, defined}

-- PAGING_MAX_MMSWP
abbrev pub paging_max_mmswp : ℕ
paging_max_mmswp = 5

-- One entry of `ld_processes`, whose fields are three arrays in the source.
pub record LdProcess : Type 0 where
  pub path : Bytes
  pub start_time : ℕ
  pub prio : ℕ

-- The globals that are set.
pub record Config : Type 0 where
  pub time_slot : ℤ
  pub num_cpus : ℤ
  pub num_processes : ℤ
  pub memramsz : ℕ
  pub memswpsz : List ℕ
  pub vmemsz : ℕ
  pub ld_processes : List LdProcess

-- `strcat` behind "input/proc/" in 100 bytes
append_path : Bytes → Load Bytes
append_path proc = if leb 89 (length proc) then faults else loads (codes "input/proc/" ++ proc)

-- The last field: without a number it keeps what `malloc` left, and the format ends there.
abbrev last_field : ℕ → Option ℕ × Bytes → ℕ × Bytes
last_field wild (none, s) = (wild, s)
last_field wild (some prio, s) = (prio, skip_space s)

-- The rest of a line, from its last field and from its name on.
take_prio : ℕ → ℕ → Bytes → Option ℕ × Bytes → LdProcess × Bytes
take_prio wild start_time path last =
    let (prio, s) = last_field wild last in
    (record { path = path; start_time = start_time; prio = prio }, s)

take_name : ℕ → ℕ → Option Bytes × Bytes → Load (LdProcess × Bytes)
unfolding append_path take_prio
take_name wild start_time (word, s) = do
  proc ← defined word
  path ← append_path proc
  last ← defined (scan_one store_lu s)
  loads (take_prio wild start_time path last)

take_start : ℕ → Option ℕ × Bytes → Load (LdProcess × Bytes)
unfolding take_name
take_start wild (start, s) = do start_time ← defined start; take_name wild start_time (scan_s s)

-- One turn of the loop: where a field before the last one is missing, `proc` is used uninitialised.
unfoldable pub read_process : ℕ → Bytes → Load (LdProcess × Bytes)
unfolding take_start
read_process wild s = defined (scan_one store_lu s) >>= take_start wild

unfoldable pub read_processes : ℕ → (ℕ → ℕ) → ℕ → Bytes → Load (List LdProcess)
unfolding read_process
read_processes zero wild i s = loads []
read_processes (suc n) wild i s = do
  (p, rest) ← read_process (wild i) s
  ps ← read_processes n wild (i + 1) rest
  loads (p ∷ ps)

-- A field that was not read is 0, as globals are.
abbrev field : List ℤ → ℕ → ℤ
field [] i = pos 0
field (n ∷ ns) zero = n
field (n ∷ ns) (suc i) = field ns i

read_body : (ℕ → ℕ) → List ℤ × Bytes → Load Config
unfolding read_processes
read_body wild (ns, s) = do
  ps ← read_processes (pos_part (field ns 2)) wild 0 s
  loads (record {
    time_slot = field ns 0;
    num_cpus = field ns 1;
    num_processes = field ns 2;
    memramsz = 0x100000;
    memswpsz = 0x1000000 ∷ replicate (paging_max_mmswp - 1) 0;
    vmemsz = 0x300000;
    ld_processes = ps;
  })

read_text : (ℕ → ℕ) → Option Bytes → Load Config
unfolding read_body
read_text wild none = exits
read_text wild (some s) = defined (scan_line store_d 3 s) >>= read_body wild

-- `wild` is what the array `prio` holds before it is set.
unfoldable pub read_config : (Bytes → Option Bytes) → (ℕ → ℕ) → Bytes → Load Config
unfolding read_text
read_config file wild path = read_text wild (file path)
