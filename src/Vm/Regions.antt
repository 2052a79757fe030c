-- ===== src/Vm/Regions.antt =====
-- Allocation of regions: `enlist_vm_freerg_list`, `get_symrg_byid`, `__alloc`, `__free`, `pgalloc`,
-- `pgmalloc`, `pgfree_data` and `get_free_vmrg_area` of mm-vm.c.
pub mod Fit
pub mod Fuel
pub mod Alloc
pub mod Fresh
use co2018_assignment.Base.{
  ℕ, zero, suc, ◌+◌, ◌-◌, ◌*◌, ◌/◌, ◌^◌, Bool, true, false, not, ◌||◌, Option, none, some, List, [],
  ◌∷◌, ltb, leb, ◌==◌, if◌then◌else◌, ◌>>=◌, ◌>>◌, store_at, get_elem?, Status, done, failed,
}
use co2018_assignment.Base.Int.{ℤ, pos, negsuc, is_neg, eqb_ℤ, neg_ℕ, to_int, add_ulong, pos_part}
use co2018_assignment.Vm.{
  paging_max_symtbl_sz, Region, RgList, nil, node, dangling, Vma, Mm, Caller,
}
use co2018_assignment.Vm.Area.{get_vma_by_num, update_vma, inc_vma_limit}

-- The head of the list becomes the address of the function's own parameter, which is gone when the
-- function returns. That is the list of the first area, whatever the region's `vmaid`.
unfoldable pub enlist_head : Mm → Region → List Vma → Option (Status × Mm)
enlist_head mm rg_elmt [] = none
enlist_head mm rg_elmt (v ∷ vs) =
    if leb rg_elmt.rg_end rg_elmt.rg_start
    then some (failed, mm)
    else some (done, record mm { mmap = record v { vm_freerg_list = dangling } ∷ vs })

unfoldable pub enlist_vm_freerg_list : Mm → Region → Option (Status × Mm)
unfolding enlist_head
enlist_vm_freerg_list mm rg_elmt = enlist_head mm rg_elmt mm.mmap

-- The index of the entry whose address is returned, `none` for the null pointer. The index
-- PAGING_MAX_SYMTBL_SZ is let through.
unfoldable pub get_symrg_byid : ℤ → Option ℕ
get_symrg_byid rgid =
    if is_neg rgid || ltb paging_max_symtbl_sz (pos_part rgid) then none else some (pos_part rgid)

-- How the search loop of `get_free_vmrg_area` ends.
pub data Search : Type 0 where
  ends : RgList → Region → Search
  faults : Search
  out_of_fuel : Search

abbrev pub keep : Region → Search → Search
keep r (ends l newrg) = ends (node r l) newrg
keep r faults = faults
keep r out_of_fuel = out_of_fuel

-- What is left of the list from a region on after `size` bytes are taken from its start. If that
-- uses it up, the next region is moved into its place, but for `vmaid`; `none` is a fault.
unfoldable pub take_space : Region → ℕ → RgList → Option RgList
take_space r size rest =
    if ltb (add_ulong r.rg_start size) r.rg_end
    then some (node (record r { rg_start = add_ulong r.rg_start size }) rest)
    else elim rest [
      | nil ↦ some (node (record r { rg_start = r.rg_end }) nil)
      | node next rest' ↦
          some (node (record r { rg_start = next.rg_start; rg_end = next.rg_end }) rest')
      | dangling ↦ none
    ]

-- The loop, on fuel, from the region that `rgit` points to; the regions before it do not change.
-- After a region has been taken from, the loop goes on with that same region.
unfoldable pub fit_loop : ℕ → ℤ → ℕ → RgList → Region → Search
fit_loop zero vmaid size l newrg = out_of_fuel
fit_loop (suc fuel) vmaid size nil newrg = ends nil newrg
fit_loop (suc fuel) vmaid size dangling newrg = faults
fit_loop (suc fuel) vmaid size (node r rest) newrg =
    let taken = record newrg { rg_start = r.rg_start; rg_end = add_ulong r.rg_start size } in
    let again : Search = elim (take_space r size rest) [
      | none ↦ faults
      | some l ↦ fit_loop fuel vmaid size l taken
    ] in
    let skip = keep r (fit_loop fuel vmaid size rest newrg) in
    if eqb_ℤ r.vmaid vmaid
    then (if leb (add_ulong r.rg_start size) r.rg_end then again else skip)
    else ends (node r rest) newrg

-- The fuel for a list: a round either takes bytes or goes on along the list.
unfoldable pub fit_fuel : RgList → ℕ
fit_fuel nil = 1
fit_fuel dangling = 1
fit_fuel (node r rest) = suc (r.rg_end - r.rg_start) + fit_fuel rest

-- (unsigned long) -1
abbrev pub no_start : ℕ
no_start = 2 ^ 64 - 1

abbrev pub found_status : Region → Status
found_status newrg = if newrg.rg_start == no_start then failed else done

after_search : Caller → ℤ → Vma → Search → Option (Status × Region × Caller)
unfolding update_vma
after_search caller vmaid v (ends l newrg) =
    some (found_status newrg, newrg, update_vma caller vmaid (record v { vm_freerg_list = l }))
after_search caller vmaid v faults = none
after_search caller vmaid v out_of_fuel = none

search_list : Caller → ℤ → ℕ → Region → Vma → RgList → Option (Status × Region × Caller)
unfolding after_search
search_list caller vmaid size newrg v nil = some (failed, newrg, caller)
search_list caller vmaid size newrg v l =
    after_search caller vmaid v
      (fit_loop (fit_fuel l) vmaid size l (record newrg { rg_start = no_start; rg_end = no_start }))

search_area : Caller → ℤ → ℕ → Region → Option Vma → Option (Status × Region × Caller)
unfolding search_list
search_area caller vmaid size newrg none = none
search_area caller vmaid size newrg (some v) =
    search_list caller vmaid size newrg v v.vm_freerg_list

-- `size` is positive: `__alloc` calls it only then. The result, `*newrg`, and the process; a number
-- that names no area is a fault.
unfoldable pub get_free_vmrg_area : Caller → ℤ → ℕ → Region → Option (Status × Region × Caller)
unfolding get_vma_by_num search_area
get_free_vmrg_area caller vmaid size newrg =
    search_area caller vmaid size newrg (get_vma_by_num caller.mm vmaid)

abbrev pub paging_sbrk_init_sz : ℕ
paging_sbrk_init_sz = 256

-- `symrgtbl[rgid] = r`; the index is not checked.
unfoldable pub set_symrg : Mm → ℤ → Region → Option Mm
set_symrg mm (negsuc n) r = none
set_symrg mm (pos n) r = do table ← store_at mm.symrgtbl n r; some (record mm { symrgtbl = table })

-- The two ends of a round of `__alloc`: the region is recorded, or the area is to grow.
unfoldable pub record_region : Caller → ℤ → Region → Option (Status × ℤ × Caller)
unfolding set_symrg
record_region caller rgid r = do
  mm ← set_symrg caller.mm rgid r
  some (done, to_int r.rg_start, record caller { mm = mm })

abbrev pub expand_size : (remaining aligned : ℕ) → ℕ
expand_size remaining aligned = if ltb aligned remaining then aligned else paging_sbrk_init_sz

abbrev pub signed_size : ℤ → ℕ → ℤ
signed_size vmaid n = if eqb_ℤ vmaid (pos 1) then neg_ℕ n else pos n

-- The loop of `__alloc`, on fuel; what follows the call of `get_free_vmrg_area` is `alloc_round`,
-- which is given the rest of the loop. `addr` is what `*alloc_addr` holds, and `inc_vma_limit` is
-- called with a null pointer.
unfoldable pub alloc_round :
    (Caller → ℕ → Region → Option (Status × ℤ × Caller))
    → ℤ
    → ℤ
    → (remaining aligned : ℕ) → ℤ
    → Status × Region × Caller
    → Option (Status × ℤ × Caller)
unfolding record_region
alloc_round again vmaid rgid remaining aligned addr (done, r, caller) = record_region caller rgid r
alloc_round again vmaid rgid remaining aligned addr (failed, r, caller) = do
  let grown = expand_size remaining aligned
  (status, _, caller') ← inc_vma_limit caller vmaid (signed_size vmaid grown) none
  elim status [ failed ↦ some (failed, addr, caller') | done ↦ again caller' (remaining - grown) r ]

unfoldable pub alloc_loop :
    ℕ → Caller → ℤ → ℤ → (remaining aligned : ℕ) → ℤ → Region → Option (Status × ℤ × Caller)
unfolding alloc_round
alloc_loop zero caller vmaid rgid remaining aligned addr rgnode = none
alloc_loop (suc fuel) caller vmaid rgid remaining aligned addr rgnode =
    if remaining == 0 then some (failed, addr, caller) else (do
      found ← get_free_vmrg_area caller vmaid remaining rgnode
      alloc_round
          (λ caller' remaining' r. alloc_loop fuel caller' vmaid rgid remaining' aligned addr r)
          vmaid rgid remaining aligned addr found)

-- `uninit` is the local `rgnode` before it is set. The sum that rounds the size up is an `int`: that
-- it overflows is a fault. A round takes at least one byte off, so `size + 1` rounds are enough.
unfoldable pub alloc : Region → Caller → (vmaid rgid size addr : ℤ) → Option (Status × ℤ × Caller)
unfolding alloc_loop
alloc uninit caller vmaid rgid (negsuc n) addr = some (failed, addr, caller)
alloc uninit caller vmaid rgid (pos size) addr =
    if size == 0
    then some (failed, addr, caller)
    else (if ltb (size + 255) (2 ^ 31)
        then alloc_loop (size + 1) caller vmaid rgid size ((size + 255) / 256 * 256) addr
            (record uninit { vmaid = vmaid })
        else none)

-- The caller's local `addr` is dropped on return; `wild` is what it holds before.
unfoldable pub pgalloc : Region → ℤ → Caller → (size reg_index : ℕ) → Option (Status × Caller)
unfolding alloc
pgalloc uninit wild caller size reg_index = do
  (status, _, caller') ← alloc uninit caller (pos 0) (to_int reg_index) (to_int size) wild
  some (status, caller')

unfoldable pub pgmalloc : Region → ℤ → Caller → (size reg_index : ℕ) → Option (Status × Caller)
unfolding alloc
pgmalloc uninit wild caller size reg_index = do
  (status, _, caller') ← alloc uninit caller (pos 1) (to_int reg_index) (to_int size) wild
  some (status, caller')

abbrev pub freed : Region
freed = record { vmaid = negsuc 0; rg_start = 0; rg_end = 0 }

-- `rgnode.vmaid < 0 || rgnode.vmaid > 1`
abbrev pub bad_vmaid : ℤ → Bool
bad_vmaid vmaid = is_neg vmaid || ltb 1 (pos_part vmaid)

-- `__free`; the result of `enlist_vm_freerg_list` is not used.
unfoldable pub free : Caller → ℤ → Option (Status × Caller)
unfolding enlist_vm_freerg_list
free caller rgid =
    if is_neg rgid || leb paging_max_symtbl_sz (pos_part rgid) then some (failed, caller) else (do
      rgnode ← get_elem? caller.mm.symrgtbl (pos_part rgid)
      if bad_vmaid rgnode.vmaid then some (failed, caller) else (do
        (_, mm) ← enlist_vm_freerg_list caller.mm rgnode
        table ← store_at mm.symrgtbl (pos_part rgid) freed
        some (done, record caller { mm = record mm { symrgtbl = table } })))

unfoldable pub pgfree_data : Caller → ℕ → Option (Status × Caller)
unfolding free
pgfree_data caller reg_index = free caller (to_int reg_index)
