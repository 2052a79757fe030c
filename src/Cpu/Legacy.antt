-- ===== src/Cpu/Legacy.antt =====
-- The build without paging: `alloc`, `free_data`, `read` and `write` of
-- ossim_source_code/src/cpu.c, and ossim_source_code/src/mem.c, whose state they leave as it is.
-- `init_mem` clears that state, and `dump`, in the module `Dump`, prints it.
pub mod Dump
pub mod Load
pub mod Run
pub mod Program
pub mod Harmless
use co2018_assignment.Base.{
  ℕ, ◌+◌, ◌-◌, ◌*◌, ◌/◌, ◌%◌, ◌^◌, ◌≡◌, ◌<◌, refl, Bool, true, false, Option, none, some, List, [],
  ◌∷◌, ◌==◌, if◌then◌else◌, get_elem?, get_elem?_of_lt, length, set, replicate, store_at,
  store_at-in_range, ◌>>=◌,
}

-- ADDRESS_SIZE, OFFSET_LEN and PAGE_LEN
abbrev pub address_size : ℕ
address_size = 20

abbrev pub offset_len : ℕ
offset_len = 10

abbrev pub page_len : ℕ
page_len = 5

abbrev pub page_size : ℕ
page_size = 2 ^ offset_len

-- An entry of `_mem_stat`; `index` and `next` are bit patterns.
pub record MemStat : Type 0 where
  pub proc : ℕ
  pub index : ℕ
  pub next : ℕ

pub record Mem : Type 0 where
  pub ram : List ℕ
  pub mem_stat : List MemStat

unfoldable pub init_mem : Mem → Mem
init_mem m = record {
  ram = replicate (2 ^ address_size) 0;
  mem_stat = replicate (2 ^ (address_size - offset_len)) (record { proc = 0; index = 0; next = 0 });
}

-- `struct trans_table_t` and `struct page_table_t`, by their rows in use.
pub record Row : Type 0 where
  pub v_index : ℕ
  pub p_index : ℕ

pub record Segment : Type 0 where
  pub v_index : ℕ
  pub next_lv : List Row

-- What the functions use of `struct pcb_t`.
pub record Process : Type 0 where
  pub regs : List ℕ
  pub page_table : List Segment
  pub bp : ℕ

unfoldable pub get_offset : ℕ → ℕ
get_offset addr = addr % 2 ^ offset_len

unfoldable pub get_first_lv : ℕ → ℕ
get_first_lv addr = addr / 2 ^ (offset_len + page_len)

unfoldable pub get_second_lv : ℕ → ℕ
unfolding get_first_lv
get_second_lv addr = addr / 2 ^ offset_len - get_first_lv addr * 2 ^ page_len

-- The loop does nothing, and the result is the null pointer, `none`.
unfoldable pub get_trans_table : ℕ → List Segment → Option (List Row)
get_trans_table index [] = none
get_trans_table index (s ∷ ss) = get_trans_table index ss

-- The loop over the rows.
unfoldable pub find_row : ℕ → List Row → Bool
find_row second_lv [] = false
find_row second_lv (r ∷ rs) = if r.v_index == second_lv then true else find_row second_lv rs

look_up : ℕ → Option (List Row) → Bool
unfolding find_row
look_up second_lv none = false
look_up second_lv (some rows) = find_row second_lv rows

-- Whether 1 is returned. `*physical_addr` is not written.
unfoldable pub translate : ℕ → Process → Bool
unfolding get_trans_table look_up get_first_lv get_second_lv
translate virtual_addr proc =
    look_up (get_second_lv virtual_addr)
      (get_trans_table (get_first_lv virtual_addr) proc.page_table)

-- `mem_avail` is a local that stays 0.
unfoldable pub alloc_mem : ℕ → Process → ℕ × Process
alloc_mem size proc =
    let num_pages = if size % page_size == 0 then size / page_size + 1 else size / page_size in
    let mem_avail : ℕ = 0 in
    if mem_avail == 0
    then (0, proc)
    else (proc.bp, record proc { bp = (proc.bp + num_pages * page_size) % 2 ^ 32 })

unfoldable pub free_mem : ℕ → Process → ℕ
free_mem address proc = 0

-- `physical_addr` is what the local variable holds. The result, and `*data`.
unfoldable pub read_mem : Mem → (physical_addr address : ℕ) → Process → ℕ → Option (ℕ × ℕ)
unfolding translate
read_mem m physical_addr address proc value =
    if translate address proc
    then (do v ← get_elem? m.ram physical_addr; some (0, v))
    else some (1, value)

unfoldable pub write_mem : Mem → (physical_addr address : ℕ) → Process → ℕ → Option (ℕ × Mem)
unfolding translate
write_mem m physical_addr address proc value =
    if translate address proc
    then (do ram ← store_at m.ram physical_addr value; some (0, record m { ram = ram }))
    else some (1, m)

unfoldable pub alloc : Process → (size reg_index : ℕ) → Option (ℕ × Process)
unfolding alloc_mem
alloc proc size reg_index =
    let (addr, proc') = alloc_mem size proc in
    if addr == 0
    then some (1, proc')
    else (do regs ← store_at proc'.regs reg_index addr; some (0, record proc' { regs = regs }))

unfoldable pub free_data : Process → ℕ → Option ℕ
unfolding free_mem
free_data proc reg_index = do address ← get_elem? proc.regs reg_index; some (free_mem address proc)

-- `uninit` is what the local `data` holds. The register is written where `read_mem` does not return 0.
unfoldable pub read :
    Mem
    → (physical_addr uninit : ℕ) → Process
    → (source offset destination : ℕ) → Option (ℕ × Process)
unfolding read_mem
read m physical_addr uninit proc source offset destination = do
  base ← get_elem? proc.regs source
  (status, data_byte) ← read_mem m physical_addr ((base + offset) % 2 ^ 32) proc uninit
  if status == 0 then some (1, proc) else (do
    regs ← store_at proc.regs destination data_byte
    some (0, record proc { regs = regs }))

unfoldable pub write :
    Mem → (physical_addr : ℕ) → Process → (byte destination offset : ℕ) → Option (ℕ × Mem)
unfolding write_mem
write m physical_addr proc byte destination offset = do
  base ← get_elem? proc.regs destination
  write_mem m physical_addr ((base + offset) % 2 ^ 32) proc byte

get_trans_table-none : (index : ℕ) (ss : List Segment) → get_trans_table index ss ≡ none
unfolding get_trans_table
get_trans_table-none index [] = refl
get_trans_table-none index (s ∷ ss) = get_trans_table-none index ss

translate_fails : (address : ℕ) (proc : Process) → translate address proc ≡ false
unfolding translate look_up
translate_fails address proc = rw (get_trans_table-none (get_first_lv address) proc.page_table) refl

-- Without paging, for registers that exist, no memory can be had. Every allocation returns 1 and changes nothing. Every write
-- through a register returns 1 and changes nothing. Every read through a register into a register
-- returns 0, as if it had succeeded, and the register then holds what the uninitialised local held.
pub legacy_memory_unavailable :
    (m : Mem) (proc : Process) (phys uninit size reg source offset destination byte : ℕ)
    → source < length proc.regs
    → destination < length proc.regs
    → (alloc proc size reg ≡ some (1, proc))
      × (read m phys uninit proc source offset destination
          ≡ some (0, record proc { regs = set proc.regs destination uninit }))
      × (write m phys proc byte destination offset ≡ some (1, m))
unfolding alloc alloc_mem read read_mem write write_mem
legacy_memory_unavailable m proc phys uninit size reg source offset destination byte s d =
    let (a, es) = get_elem?_of_lt proc.regs source s in
    let (b, ed) = get_elem?_of_lt proc.regs destination d in
    (
      refl,
      rw es (
          rw (translate_fails ((a + offset) % 2 ^ 32) proc)
            (rw (store_at-in_range proc.regs destination uninit d) refl)),
      rw ed (rw (translate_fails ((b + offset) % 2 ^ 32) proc) refl),
    )
