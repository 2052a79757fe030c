-- ===== src/Memphy/Dump.antt =====
-- `MEMPHY_dump` of ossim_source_code/src/mm-memphy.c, by the lines that it prints.
use co2018_assignment.Base.{
  ℕ, zero, suc, ◌+◌, Option, none, some, List, [], ◌∷◌, get_elem?, ◌==◌, if◌then◌else◌, ◌>>=◌,
  Status, done, failed,
}
use co2018_assignment.Memphy.{Memphy}

-- The loop from `address` on, `left` times: an address and the byte there.
dump_loop : List ℕ → (address left : ℕ) → Option (List (ℕ × ℕ))
dump_loop storage address zero = some []
dump_loop storage address (suc left) = do
  byte ← get_elem? storage address
  lines ← dump_loop storage (address + 1) left
  some (if byte == 0 then lines else (address, byte) ∷ lines)

dump_device : Memphy → List ℕ → Option (Status × List (ℕ × ℕ))
unfolding dump_loop
dump_device mp [] = some (failed, [])
dump_device mp (byte ∷ storage) = do
  lines ← dump_loop (byte ∷ storage) 0 mp.maxsz
  some (done, lines)

-- Null pointers to the device and, as the empty list, to its bytes are refused.
unfoldable pub dump : Option Memphy → Option (Status × List (ℕ × ℕ))
unfolding dump_device
dump none = some (failed, [])
dump (some mp) = dump_device mp mp.storage
