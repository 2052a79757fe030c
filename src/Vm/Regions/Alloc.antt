-- ===== src/Vm/Regions/Alloc.antt =====
-- What `__alloc` and `__free` of mm-vm.c do.
use co2018_assignment.Base.{
  ℕ, zero, suc, ◌+◌, ◌*◌, ◌/◌, ◌^◌, ◌<◌, ◌≤◌, ◌≡◌, ◌⊎◌, refl, sym, ◌∙◌, false, none, some, Option,
  inl, inr, List, ◌∷◌, ◌==◌, ◌>>=◌, get_elem?, set, store_at-in_range, lt_of_get_elem?,
  get_elem?-set_self, lt→ltb, le→ltb, lt→leb, arith, Status, done, failed,
}
use mathlib.Core.Option.{none-ne-some}
use native.Mathlib.Decide.{dec_lt}
use native.Mathlib.Numerals.{add-one}
use co2018_assignment.Base.Int.{ℤ, pos}
use co2018_assignment.Vm.{Region, dangling, Vma, Mm, Caller, paging_max_symtbl_sz}
use co2018_assignment.Vm.Area.{get_vma_by_num, walk_vma, inc_vma_limit}
use co2018_assignment.Vm.Area.Limits.{Unmoved, halts, faults, inc_vma_limit_null}
use co2018_assignment.Vm.Regions.{
  enlist_head, enlist_vm_freerg_list, get_free_vmrg_area, search_area, search_list, after_search,
  fit_loop, fit_fuel, alloc_round, alloc_loop, alloc, record_region, expand_size, signed_size, free,
  freed, bad_vmaid,
}

-- The result of `__alloc` in terms of its calls. `rgnode` is the region that the search fills in.
pub data Allocated (caller : Caller) (vmaid rgid : ℤ) (size : ℕ) (addr : ℤ) (rgnode : Region)
    : Option (Status × ℤ × Caller) → Type 0 where
  search_faults :
      get_free_vmrg_area caller vmaid size rgnode ≡ none
      → Allocated caller vmaid rgid size addr rgnode none
  recorded :
      (r : Region) (caller' : Caller)
      → get_free_vmrg_area caller vmaid size rgnode ≡ some (done, r, caller')
      → Allocated caller vmaid rgid size addr rgnode (record_region caller' rgid r)
  refused :
      (r : Region) (caller' : Caller)
      → get_free_vmrg_area caller vmaid size rgnode ≡ some (failed, r, caller')
      → inc_vma_limit caller' vmaid (signed_size vmaid 256) none ≡ some (failed, none, caller')
      → Allocated caller vmaid rgid size addr rgnode (some (failed, addr, caller'))
  null_written :
      (r : Region) (caller' : Caller)
      → get_free_vmrg_area caller vmaid size rgnode ≡ some (failed, r, caller')
      → inc_vma_limit caller' vmaid (signed_size vmaid 256) none ≡ none
      → Allocated caller vmaid rgid size addr rgnode none

expand_size_lem : (size : ℕ) → expand_size size ((size + 255) / 256 * 256) ≡ 256
expand_size_lem size = ground arith

to_failed :
    {caller : Caller} {o : Option (Status × Option ℤ × Caller)}
    → Unmoved caller o
    → (o ≡ none) ⊎ (o ≡ some (failed, none, caller))
to_failed halts = inr refl
to_failed faults = inl refl

nonzero : (n : ℕ) → (suc n == 0) ≡ false
nonzero n = ground arith

-- The process after `__free` of the symbol `n`: the list of the first area dangles, and the entry of
-- the symbol is cleared.
abbrev pub after_free : Caller → ℕ → Vma → List Vma → Caller
after_free caller n v vs =
    let mm : Mm = caller.mm in
    record caller {
      mm = record mm {
        mmap = record v { vm_freerg_list = dangling } ∷ vs;
        symrgtbl = set mm.symrgtbl n freed;
      };
    }

module _ (caller : Caller) (vmaid rgid : ℤ) (size : ℕ) (addr : ℤ) (rgnode : Region) where
  round-Allocated :
      (again : Caller → ℕ → Region → Option (Status × ℤ × Caller))
      (o : Option (Status × Region × Caller))
      → get_free_vmrg_area caller vmaid size rgnode ≡ o
      → Allocated caller vmaid rgid size addr rgnode
          (o >>= alloc_round again vmaid rgid size ((size + 255) / 256 * 256) addr)
  unfolding alloc_round
  round-Allocated again none e = search_faults e
  round-Allocated again (some (done, r, c)) e = recorded r c e
  round-Allocated again (some (failed, r, c)) e =
      rw (expand_size_lem size)
        (elim (to_failed (inc_vma_limit_null c vmaid (signed_size vmaid 256))) [
          | inl n ↦ rw n (null_written r c e n)
          | inr h ↦ rw h (refused r c e h)
        ])

alloc_loop-Allocated :
    (fuel : ℕ) (caller : Caller) (vmaid rgid : ℤ) (n : ℕ) (addr : ℤ) (rgnode : Region)
    → Allocated caller vmaid rgid
        (suc n)
        addr
        rgnode
        (alloc_loop (suc fuel) caller vmaid rgid (suc n) ((suc n + 255) / 256 * 256) addr rgnode)
unfolding alloc_loop
alloc_loop-Allocated fuel caller vmaid rgid n addr rgnode = rw (nonzero n) (
    round-Allocated caller vmaid rgid (suc n) addr rgnode
      (λ c left r. alloc_loop fuel c vmaid rgid left ((suc n + 255) / 256 * 256) addr r) _ refl)

-- `__alloc` of a positive size below 2 ^ 31 - 255 is decided in the first round of its loop: the
-- search faults, or finds a region, which is recorded, or finds none. Then the area is asked to grow
-- by 256 bytes, which either fails, and `__alloc` with it, or writes through the null pointer.
pub alloc_lem :
    (uninit : Region) (caller : Caller) (vmaid rgid : ℤ) (size : ℕ) (addr : ℤ)
    → 0 < size
    → size + 255 < 2 ^ 31
    → Allocated caller vmaid rgid size addr
        (record uninit { vmaid = vmaid })
        (alloc uninit caller vmaid rgid (pos size) addr)
unfolding alloc
alloc_lem uninit caller vmaid rgid zero addr positive small = absurd (omega arith)
alloc_lem uninit caller vmaid rgid (suc n) addr positive small = rw (nonzero n) (
    rw (lt→ltb (suc n + 255) (2 ^ 31) small) (
      rw (add-one (suc n))
        (alloc_loop-Allocated (suc n) caller vmaid rgid n addr (record uninit { vmaid = vmaid }))))

free_step :
    (caller : Caller) (n : ℕ) (rg : Region) (v : Vma) (vs : List Vma)
    → n < paging_max_symtbl_sz
    → get_elem? caller.mm.symrgtbl n ≡ some rg
    → bad_vmaid rg.vmaid ≡ false
    → rg.rg_start < rg.rg_end
    → caller.mm.mmap ≡ v ∷ vs
    → free caller (pos n) ≡ some (done, after_free caller n v vs)
unfolding free enlist_vm_freerg_list enlist_head
free_step caller n rg v vs lt entry valid nonempty areas = simp (
  lt→leb paging_max_symtbl_sz n lt,
  entry,
  valid,
  areas,
  lt→leb rg.rg_end rg.rg_start nonempty,
  store_at-in_range caller.mm.symrgtbl n freed (lt_of_get_elem? caller.mm.symrgtbl n entry),
)

-- What the list of the first area leads to once it dangles.
dangling_search :
    (caller : Caller) (n size : ℕ) (v : Vma) (vs : List Vma) (r : Region)
    → get_free_vmrg_area (after_free caller n v vs) (pos 0) size r ≡ none
unfolding get_free_vmrg_area get_vma_by_num walk_vma search_area search_list after_search fit_fuel
    fit_loop
dangling_search caller n size v vs r = refl

not_found :
    {caller : Caller} {vmaid rgid : ℤ} {size : ℕ} {addr : ℤ} {rgnode : Region}
    {o : Option (Status × ℤ × Caller)}
    → get_free_vmrg_area caller vmaid size rgnode ≡ none
    → Allocated caller vmaid rgid size addr rgnode o
    → o ≡ none
not_found e (search_faults h) = refl
not_found e (recorded r c h) = absurd (none-ne-some _ (sym e ∙ h))
not_found e (refused r c h k) = absurd (none-ne-some _ (sym e ∙ h))
not_found e (null_written r c h k) = refl

-- A sum that does not fit an `int` is a fault.
alloc_overflow :
    (uninit : Region) (caller : Caller) (vmaid rgid : ℤ) (size : ℕ) (addr : ℤ)
    → 2 ^ 31 ≤ size + 255
    → alloc uninit caller vmaid rgid (pos size) addr ≡ none
unfolding alloc
alloc_overflow uninit caller vmaid rgid zero addr big = absurd (omega arith)
alloc_overflow uninit caller vmaid rgid (suc n) addr big =
    rw (nonzero n) (rw (le→ltb (suc n + 255) (2 ^ 31) big) refl)

-- A symbol below PAGING_MAX_SYMTBL_SZ that names a region which is not empty, of area 0 or 1, in a
-- process that has an area. To free it succeeds; to free it again fails and changes nothing. After
-- the first, whatever the symbol and the positive size, to allocate in area 0 is a fault: the list of
-- free regions is the address of a parameter that is gone.
pub free_then_alloc :
    (caller : Caller) (n : ℕ) (rg : Region) (v : Vma) (vs : List Vma)
    → n < paging_max_symtbl_sz
    → get_elem? caller.mm.symrgtbl n ≡ some rg
    → bad_vmaid rg.vmaid ≡ false
    → rg.rg_start < rg.rg_end
    → caller.mm.mmap ≡ v ∷ vs
    → (caller' : Caller) × (free caller (pos n) ≡ some (done, caller'))
      × (free caller' (pos n) ≡ some (failed, caller'))
      × ((uninit : Region) (rgid : ℤ) (size : ℕ) (addr : ℤ)
          → 0 < size
          → alloc uninit caller' (pos 0) rgid (pos size) addr ≡ none)
free_then_alloc caller n rg v vs lt entry valid nonempty areas = (
  after_free caller n v vs,
  free_step caller n rg v vs lt entry valid nonempty areas,
  again,
  allocs,
)
  where
    again : free (after_free caller n v vs) (pos n) ≡ some (failed, after_free caller n v vs)
    again =
        unfold free in
        simp (
          lt→leb paging_max_symtbl_sz n lt,
          get_elem?-set_self caller.mm.symrgtbl n freed
              (lt_of_get_elem? caller.mm.symrgtbl n entry),
        )

    allocs :
        (uninit : Region) (rgid : ℤ) (size : ℕ) (addr : ℤ)
        → 0 < size
        → alloc uninit (after_free caller n v vs) (pos 0) rgid (pos size) addr ≡ none
    allocs uninit rgid size addr positive = elim (dec_lt (size + 255) (2 ^ 31)) [
      | yes small ↦
          not_found (dangling_search caller n size v vs _)
            (alloc_lem uninit (after_free caller n v vs) (pos 0) rgid size addr positive small)
      | no big ↦
          alloc_overflow uninit (after_free caller n v vs) (pos 0) rgid size addr (omega arith)
    ]
