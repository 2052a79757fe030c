-- ===== src/Cpu/Legacy/Dump.antt =====
-- `dump` of ossim_source_code/src/mem.c, by the lines that it prints.
use co2018_assignment.Base.{
  ℕ, zero, suc, ◌+◌, ◌-◌, ◌*◌, ◌^◌, Option, some, List, [], ◌∷◌, ◌++◌, get_elem?, ◌==◌,
  if◌then◌else◌, ◌>>=◌,
}
use co2018_assignment.Cpu.Legacy.{address_size, offset_len, page_size, MemStat, Mem}

-- A page with its addresses and its entry, or an address with its byte.
pub data DumpLine : Type 0 where
  page : (i from to : ℕ) → MemStat → DumpLine
  byte : (j value : ℕ) → DumpLine

-- The inner loop from `j` on, `left` times.
dump_bytes : List ℕ → (j left : ℕ) → Option (List DumpLine)
dump_bytes ram j zero = some []
dump_bytes ram j (suc left) = do
  value ← get_elem? ram j
  lines ← dump_bytes ram (j + 1) left
  some (if value == 0 then lines else byte j value ∷ lines)

-- A page with its entry: the last byte of the page is left out.
unfoldable pub dump_entry : Mem → ℕ → MemStat → Option (List DumpLine)
unfolding dump_bytes
dump_entry m i stat = if stat.proc == 0 then some [] else (do
  lines ← dump_bytes m.ram (i * page_size) (page_size - 1)
  some (page i (i * page_size) ((i + 1) * page_size - 1) stat ∷ lines))

-- One turn of the outer loop.
unfoldable pub dump_page : Mem → ℕ → Option (List DumpLine)
unfolding dump_entry
dump_page m i = do stat ← get_elem? m.mem_stat i; dump_entry m i stat

unfoldable pub dump_pages : Mem → (i left : ℕ) → Option (List DumpLine)
unfolding dump_page
dump_pages m i zero = some []
dump_pages m i (suc left) = do
  first ← dump_page m i
  rest ← dump_pages m (i + 1) left
  some (first ++ rest)

-- NUM_PAGES turns
unfoldable pub dump : Mem → Option (List DumpLine)
unfolding dump_pages
dump m = dump_pages m 0 (2 ^ (address_size - offset_len))
