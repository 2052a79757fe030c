-- ===== src/Vm/Page/Symbols.antt =====
-- `__read` and `__write` of ossim_source_code/src/mm-vm.c, where the pages are present.
use co2018_assignment.Base.{ℕ, ◌≡◌, refl, ap, ◌∙◌, true, some, ◌==◌, if◌then◌else◌, done, ◌>>=◌}
use co2018_assignment.Base.Int.{ℤ}
use co2018_assignment.Memphy.{Memphy}
use co2018_assignment.Vm.{Region, Vma, Caller}
use co2018_assignment.Vm.Page.{
  Locals, access_addr, region_of, read_region, write_region, read_symbol, write_symbol, pg_getval,
  pg_setval,
}
use co2018_assignment.Vm.Page.Resident.{IsResident, phys, resident_write}

-- The symbol names a region of an area that exists, and the byte at `offset` is in a page that is
-- present.
pub record IsReached (caller : Caller) (rgid : ℤ) (offset : ℕ) : Type 0 where
  pub region : Region
  pub area : Vma
  pub found : region_of caller rgid ≡ some (region, some area)
  pub resident : IsResident caller (access_addr region offset)

-- The cell of the memory.
abbrev pub cell : {caller : Caller} {rgid : ℤ} {offset : ℕ} → IsReached caller rgid offset → ℕ
cell {offset = offset} r = phys (access_addr r.region offset) r.resident

module _ (u : Locals) (caller : Caller) (rgid : ℤ) (offset : ℕ) {r : Region} {area : Vma}
    (found : region_of caller rgid ≡ some (r, some area)) where
  write_symbol-pg_setval :
      (value fpn : ℕ) {caller' : Caller}
      → pg_setval u caller (access_addr r offset) value fpn ≡ some (done, caller')
      → write_symbol u caller rgid offset value fpn ≡ some (done, caller')
  unfolding write_symbol write_region
  write_symbol-pg_setval value fpn e =
      ap (λ o. o >>= write_region u caller offset value fpn) found
      ∙ ap (λ o. o >>= λ q. some (done, q.1)) e

  read_symbol-pg_getval :
      (value fpn w : ℕ) {caller' : Caller}
      → pg_getval u caller (access_addr r offset) value fpn ≡ some (done, w, caller')
      → read_symbol u caller rgid offset value fpn ≡ some (done, w, caller')
  unfolding read_symbol read_region
  read_symbol-pg_getval value fpn w e =
      ap (λ o. o >>= read_region u caller offset value fpn) found
      ∙ ap (λ o. o >>= λ q. some (done, q.1, q.2)) e

region_of-mram :
    (caller : Caller) (mram : Memphy) (rgid : ℤ)
    → region_of (record caller { mram = mram }) rgid ≡ region_of caller rgid
unfolding region_of
region_of-mram caller mram rgid = refl

-- On a random access memory, where the pages of two symbols' bytes are present, a write to the one
-- succeeds, and a read of the other afterwards gives the byte that was written where both are one
-- cell of the memory, and what it gave before the write everywhere else.
pub read_symbol-write_symbol :
    (u : Locals) (caller : Caller) (destination source : ℤ) (offset offset' v value fpn : ℕ)
    → caller.mram.rdmflg ≡ true
    → (d : IsReached caller destination offset) → (s : IsReached caller source offset')
    → (caller' : Caller) × (write_symbol u caller destination offset v fpn ≡ some (done, caller'))
      × (w : ℕ) × (read_symbol u caller source offset' value fpn ≡ some (done, w, caller))
      × (read_symbol u caller' source offset' value fpn
          ≡ some (done, if cell d == cell s then v else w, caller'))
read_symbol-write_symbol u caller destination source offset offset' v value fpn random d s =
    let (mram, wrote, w, old, new) =
      resident_write u caller (access_addr d.region offset) (access_addr s.region offset') v value
        fpn random d.resident s.resident in
    (
      record caller { mram = mram },
      write_symbol-pg_setval u caller destination offset d.found v fpn wrote,
      w,
      read_symbol-pg_getval u caller source offset' s.found value fpn w old,
      read_symbol-pg_getval u (record caller { mram = mram }) source offset'
          (region_of-mram caller mram source ∙ s.found) value fpn
          (if cell d == cell s then v else w) new,
    )
