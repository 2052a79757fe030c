-- ===== src/Vm/Page/Resident.antt =====
-- Reading and writing through the page table where the page is present.
use co2018_assignment.Base.{ℕ, ◌<◌, ◌≡◌, true, some, length, get_elem?, ◌==◌, if◌then◌else◌, done}
use co2018_assignment.Memphy.{Memphy, read, write}
use co2018_assignment.Memphy.Access.{read-write}
use co2018_assignment.Pte.{page_present, pte_fpn, paging_pgn, paging_offst}
use co2018_assignment.Vm.{Caller}
use co2018_assignment.Vm.Page.{Locals, phyaddr, pg_getpage, pg_getval, pg_setval}

-- The page of `addr` is present, and the byte lies inside the memory.
pub record IsResident (caller : Caller) (addr : ℕ) : Type 0 where
  pub pte : ℕ
  pub entry : get_elem? caller.mm.pgd (paging_pgn addr) ≡ some pte
  pub present : page_present pte ≡ true
  pub inside : phyaddr (pte_fpn pte) (paging_offst addr) < length caller.mram.storage

abbrev pub phys : {caller : Caller} (addr : ℕ) → IsResident caller addr → ℕ
phys addr r = phyaddr (pte_fpn r.pte) (paging_offst addr)

-- A page that is present is found with its frame number, and nothing changes.
pub pg_getpage-present :
    (u : Locals) (caller : Caller) (pgn fpn pte : ℕ)
    → get_elem? caller.mm.pgd pgn ≡ some pte
    → page_present pte ≡ true
    → pg_getpage u caller pgn fpn ≡ some (done, pte_fpn pte, caller)
unfolding pg_getpage
pg_getpage-present u caller pgn fpn pte entry present = simp (entry, present)

getval_step :
    (u : Locals) (caller : Caller) (addr value fpn w pte : ℕ)
    → get_elem? caller.mm.pgd (paging_pgn addr) ≡ some pte
    → page_present pte ≡ true
    → read caller.mram (phyaddr (pte_fpn pte) (paging_offst addr)) value
      ≡ some (done, w, caller.mram)
    → pg_getval u caller addr value fpn ≡ some (done, w, caller)
unfolding pg_getval
getval_step u caller addr value fpn w pte entry present e =
    rw (pg_getpage-present u caller (paging_pgn addr) fpn pte entry present) (rw e)

setval_step :
    (u : Locals) (caller : Caller) (addr value fpn : ℕ) (mram : Memphy)
    → (r : IsResident caller addr) → write caller.mram (phys addr r) value ≡ some (done, mram)
    → pg_setval u caller addr value fpn ≡ some (done, record caller { mram = mram })
unfolding pg_setval
setval_step u caller addr value fpn mram r e =
    rw (pg_getpage-present u caller (paging_pgn addr) fpn r.pte r.entry r.present) (rw e)

-- A write to a resident address, and any read after it.
pub resident_write :
    (u : Locals) (caller : Caller) (a b v value fpn : ℕ)
    → caller.mram.rdmflg ≡ true
    → (ra : IsResident caller a) → (rb : IsResident caller b)
    → (mram : Memphy) × (pg_setval u caller a v fpn ≡ some (done, record caller { mram = mram }))
      × (w : ℕ) × (pg_getval u caller b value fpn ≡ some (done, w, caller))
      × (pg_getval u (record caller { mram = mram }) b value fpn
          ≡ some (done, if phys a ra == phys b rb then v else w, record caller { mram = mram }))
resident_write u caller a b v value fpn random ra rb =
    let (mram, wrote, reads) = read-write caller.mram (phys a ra) v random ra.inside in
    let (w, old, new) = reads (phys b rb) value rb.inside in
    (
      mram,
      setval_step u caller a v fpn mram ra wrote,
      w,
      getval_step u caller b value fpn w rb.pte rb.entry rb.present old,
      getval_step u (record caller { mram = mram }) b value fpn
          (if phys a ra == phys b rb then v else w) rb.pte rb.entry rb.present new,
    )

-- On a random access memory, a write to a resident address succeeds. A read of a resident address afterwards gives the byte
-- where the two addresses name one byte of the memory, and what it gave before everywhere else.
pub pg_getval-pg_setval :
    (u : Locals) (caller : Caller) (a b v value fpn : ℕ)
    → caller.mram.rdmflg ≡ true
    → (ra : IsResident caller a) → (rb : IsResident caller b)
    → (caller' : Caller) × (pg_setval u caller a v fpn ≡ some (done, caller'))
      × (w : ℕ) × (pg_getval u caller b value fpn ≡ some (done, w, caller))
      × (pg_getval u caller' b value fpn
          ≡ some (done, if phys a ra == phys b rb then v else w, caller'))
pg_getval-pg_setval u caller a b v value fpn random ra rb =
    let (mram, wrote, w, old, new) = resident_write u caller a b v value fpn random ra rb in
    (record caller { mram = mram }, wrote, w, old, new)
