-- ===== src/Vm/Page.antt =====
-- Access to pages: `find_victim_page`, `pg_getpage`, `pg_getval`, `pg_setval`, `__read`, `__write`,
-- `pgread`, `pgwrite` and `free_pcb_memph` of mm-vm.c, and `enlist_pgn_node` of mm.c. Of what the
-- code prints, only `io_dump` has a counterpart, for what it follows.
pub mod Victim
pub mod Resident
pub mod Fault
pub mod Symbols
pub mod Release
use co2018_assignment.Base.{
  ℕ, zero, suc, ◌+◌, ◌-◌, ◌*◌, ◌%◌, ◌^◌, Bool, true, false, not, ◌||◌, Option, none, some, List, [],
  ◌∷◌, ltb, ◌==◌, if◌then◌else◌, ◌>>=◌, store_at, get_elem?, Status, done, failed,
}
use co2018_assignment.Base.Int.{ℤ, to_int, add_ulong, to_ulong}
use co2018_assignment.Memphy.{Memphy, read, write, get_freefp, put_freefp}
use co2018_assignment.Memphy.Copy.{swap_cp_page}
use co2018_assignment.Memphy.Dump.{dump}
use co2018_assignment.Vm.Print.{print_pgtbl}
use co2018_assignment.Pte.{
  setbit, present_mask, swapped_mask, page_present, pte_fpn, pte_swp, paging_pgn, paging_offst,
  pte_set_swap, pte_set_fpn, shl, paging_max_pgn,
}
use co2018_assignment.Vm.{Region, Vma, Mm, Caller}
use co2018_assignment.Vm.Area.{get_vma_by_num}
use co2018_assignment.Vm.Regions.{get_symrg_byid}

unfoldable pub enlist_pgn_node : List ℕ → ℕ → List ℕ
enlist_pgn_node plist pgn = pgn ∷ plist

-- The walk to the end of the list: what stays of it, and the last page number.
unfoldable pub drop_last : ℕ → List ℕ → List ℕ × ℕ
drop_last pg [] = ([], pg)
drop_last pg (next ∷ rest) = let (kept, last) = drop_last next rest in (pg ∷ kept, last)

victim_of : Mm → ℕ → List ℕ → Status × ℕ × Mm
unfolding drop_last
victim_of mm retpgn [] = (failed, retpgn, mm)
victim_of mm retpgn (pg ∷ rest) =
    let (kept, last) = drop_last pg rest in (done, last, record mm { fifo_pgn = kept })

-- `*retpgn` is `retpgn` before the call.
unfoldable pub find_victim_page : Mm → ℕ → Status × ℕ × Mm
unfolding victim_of
find_victim_page mm retpgn = victim_of mm retpgn mm.fifo_pgn

-- What fresh local variables hold: `vicpgn`, `swpfpn`, and `data` of `__swap_cp_page` by rounds.
pub record Locals : Type 0 where
  pub vicpgn : ℕ
  pub swpfpn : ℕ
  pub bytes : ℕ → ℕ

-- The changes of the page directory in `pg_getpage`: the victim's entry, then the page's own entry
-- twice.
unfoldable pub remap : List ℕ → (vicpgn swpfpn pgn : ℕ) → Option (List ℕ)
remap pgd vicpgn swpfpn pgn = do
  victim ← get_elem? pgd vicpgn
  pgd₁ ← store_at pgd vicpgn (pte_set_swap victim swapped_mask swpfpn)
  mine ← get_elem? pgd₁ pgn
  pgd₂ ← store_at pgd₁ pgn (pte_set_fpn mine vicpgn)
  again ← get_elem? pgd₂ pgn
  store_at pgd₂ pgn (setbit again present_mask)

-- The swap once there is a victim, whose page number stands for its frame, and a free frame in the
-- swap device. The result of `__swap_cp_page` is not used.
unfoldable pub swap_out : Locals → Caller → (vicpgn swpfpn pgn : ℕ) → Option (Status × Caller)
unfolding remap
swap_out u caller vicpgn swpfpn pgn = do
  (_, mram, mswp) ← swap_cp_page u.bytes caller.mram vicpgn caller.active_mswp swpfpn
  let mm : Mm = caller.mm
  pgd ← remap mm.pgd vicpgn swpfpn pgn
  some (
    done,
    record caller {
      mm = record mm { pgd = pgd; fifo_pgn = enlist_pgn_node mm.fifo_pgn pgn };
      mram = mram;
      active_mswp = mswp;
    },
  )

with_frame : Locals → Caller → (vicpgn pgn : ℕ) → Status × ℕ × Memphy → Option (Status × Caller)
unfolding swap_out
with_frame u caller vicpgn pgn (failed, _, mswp) =
    some (failed, record caller { active_mswp = mswp })
with_frame u caller vicpgn pgn (done, swpfpn, mswp) =
    swap_out u (record caller { active_mswp = mswp }) vicpgn swpfpn pgn

with_victim : Locals → Caller → (pgn : ℕ) → Status × ℕ × Mm → Option (Status × Caller)
unfolding with_frame
with_victim u caller pgn (failed, _, mm) = some (failed, record caller { mm = mm })
with_victim u caller pgn (done, vicpgn, mm) =
    with_frame u (record caller { mm = mm }) vicpgn pgn (get_freefp caller.active_mswp u.swpfpn)

-- The block of `pg_getpage` for a page that is not present.
unfoldable pub bring_in : Locals → Caller → ℕ → Option (Status × Caller)
unfolding with_victim
bring_in u caller pgn = with_victim u caller pgn (find_victim_page caller.mm u.vicpgn)

frame_of : ℕ → ℕ → Status × Caller → Option (Status × ℕ × Caller)
frame_of pgn fpn (failed, caller) = some (failed, fpn, caller)
frame_of pgn fpn (done, caller) = do
  pte ← get_elem? caller.mm.pgd pgn
  some (done, pte_fpn pte, caller)

-- `mm` is always `caller->mm`. `*fpn` is `fpn` before the call.
unfoldable pub pg_getpage : Locals → Caller → (pgn fpn : ℕ) → Option (Status × ℕ × Caller)
unfolding bring_in frame_of
pg_getpage u caller pgn fpn = do
  pte ← get_elem? caller.mm.pgd pgn
  brought ← if page_present pte then some (done, caller) else bring_in u caller pgn
  frame_of pgn fpn brought

-- `(fpn << PAGING_ADDR_FPN_LOBIT) + off`
abbrev pub phyaddr : (fpn off : ℕ) → ℕ
phyaddr fpn off = fpn * 2 ^ 8 + off

read_frame : ℕ → ℕ → Status × ℕ × Caller → Option (Status × ℕ × Caller)
read_frame off value (failed, fpn, caller) = some (failed, value, caller)
read_frame off value (done, fpn, caller) = do
  (status, v, mram) ← read caller.mram (phyaddr fpn off) value
  some (status, v, record caller { mram = mram })

-- `addr` is the `int` as a bit pattern. `*data` is `value` before the call, `fpn` the local.
unfoldable pub pg_getval : Locals → Caller → (addr value fpn : ℕ) → Option (Status × ℕ × Caller)
unfolding read_frame
pg_getval u caller addr value fpn = do
  got ← pg_getpage u caller (paging_pgn addr) fpn
  read_frame (paging_offst addr) value got

write_frame : ℕ → ℕ → Status × ℕ × Caller → Option (Status × Caller)
write_frame off value (failed, fpn, caller) = some (failed, caller)
write_frame off value (done, fpn, caller) = do
  (status, mram) ← write caller.mram (phyaddr fpn off) value
  some (status, record caller { mram = mram })

unfoldable pub pg_setval : Locals → Caller → (addr value fpn : ℕ) → Option (Status × Caller)
unfolding write_frame
pg_setval u caller addr value fpn = do
  got ← pg_getpage u caller (paging_pgn addr) fpn
  write_frame (paging_offst addr) value got

-- `currg->rg_start + offset` as it is passed on: cut to 32 bits.
abbrev pub access_addr : Region → ℕ → ℕ
access_addr r offset = add_ulong r.rg_start (to_ulong (to_int offset)) % 2 ^ 32

-- The region of a symbol, and whether its area exists. `currg->vmaid` is read before the null
-- pointer is tested for.
unfoldable pub region_of : Caller → ℤ → Option (Region × Option Vma)
unfolding get_symrg_byid get_vma_by_num
region_of caller rgid = do
  i ← get_symrg_byid rgid
  r ← get_elem? caller.mm.symrgtbl i
  some (r, get_vma_by_num caller.mm r.vmaid)

read_region :
    Locals → Caller → (offset value fpn : ℕ) → Region × Option Vma → Option (Status × ℕ × Caller)
read_region u caller offset value fpn (r, none) = some (failed, value, caller)
read_region u caller offset value fpn (r, some _) = do
  (_, v, caller') ← pg_getval u caller (access_addr r offset) value fpn
  some (done, v, caller')

-- `__read`; the result of `pg_getval` is not used.
unfoldable pub read_symbol :
    Locals → Caller → ℤ → (offset value fpn : ℕ) → Option (Status × ℕ × Caller)
unfolding region_of read_region pg_getval
read_symbol u caller rgid offset value fpn = do
  found ← region_of caller rgid
  read_region u caller offset value fpn found

write_region :
    Locals → Caller → (offset value fpn : ℕ) → Region × Option Vma → Option (Status × Caller)
write_region u caller offset value fpn (r, none) = some (failed, caller)
write_region u caller offset value fpn (r, some _) = do
  (_, caller') ← pg_setval u caller (access_addr r offset) value fpn
  some (done, caller')

-- `__write`; the result of `pg_setval` is not used.
unfoldable pub write_symbol :
    Locals → Caller → ℤ → (offset value fpn : ℕ) → Option (Status × Caller)
unfolding region_of write_region pg_setval
write_symbol u caller rgid offset value fpn = do
  found ← region_of caller rgid
  write_region u caller offset value fpn found

-- `print_pgtbl` and `MEMPHY_dump`, which IODUMP and PAGETBL_DUMP turn on, by what they follow: the
-- area 0, the entries below its end, and the bytes of the device.
unfoldable pub io_dump : Caller → Option {0} Unit
unfolding print_pgtbl dump
io_dump caller = do
  _ ← print_pgtbl (some caller) 0 (2 ^ 32 - 1)
  _ ← dump (some caller.mram)
  some tt

-- The byte that is read is stored in a parameter, and lost on return: what comes back is the result
-- of `__read`. `value` is the local `data` before the call.
unfoldable pub pgread : Locals → Caller → (source offset value fpn : ℕ) → Option (Status × Caller)
unfolding read_symbol io_dump
pgread u caller source offset value fpn = do
  (status, _, caller') ← read_symbol u caller (to_int source) offset value fpn
  _ ← io_dump caller'
  some (status, caller')

-- `data` is cut to a byte where it is passed.
unfoldable pub pgwrite :
    Locals → Caller → (byte destination offset fpn : ℕ) → Option (Status × Caller)
unfolding write_symbol io_dump
pgwrite u caller byte destination offset fpn = do
  _ ← io_dump caller
  write_symbol u caller (to_int destination) offset (byte % 256) fpn

-- The loop of `free_pcb_memph` over the entries from the page that is reached.
unfoldable pub free_pages : List ℕ → Caller → Caller
free_pages [] caller = caller
free_pages (pte ∷ ptes) caller = free_pages ptes (
    if not (page_present pte)
    then record caller { mram = put_freefp caller.mram (pte_fpn pte) }
    else record caller { active_mswp = put_freefp caller.active_mswp (pte_swp pte) })

-- The page directory has PAGING_MAX_PGN entries.
unfoldable pub free_pcb_memph : Caller → Caller
unfolding free_pages
free_pcb_memph caller = free_pages caller.mm.pgd caller
