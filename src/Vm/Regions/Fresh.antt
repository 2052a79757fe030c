-- ===== src/Vm/Regions/Fresh.antt =====
-- The first allocation of a process: `__alloc` of mm-vm.c after `init_mm` of mm.c.
use co2018_assignment.Base.{
  ℕ, ◌+◌, ◌^◌, ◌<◌, ◌≤◌, ◌≡◌, refl, ap, sym, subst, ◌∙◌, true, none, some, Option, lt→leb, le→ltb,
  arith, Status, done, failed,
}
use mathlib.Core.Option.{none-ne-some, some-injective}
use co2018_assignment.Base.Int.{ℤ, pos, add_ulong}
use co2018_assignment.Vm.{Region, nil, Caller}
use co2018_assignment.Vm.Area.{
  init_vm_rg, enlist_vm_rg_node, Mallocs, init_mm, get_vma_by_num, walk_vma, set_vma, update_vma,
  inc_vma_limit, grow_area, commit_limit, target_end, validate_overlap_vm_area, overlap_loop,
  overlaps, page_alignsz,
}
use co2018_assignment.Vm.Regions.{
  get_free_vmrg_area, search_area, search_list, after_search, fit_loop, fit_fuel, alloc, no_start,
}
use co2018_assignment.Vm.Regions.Alloc.{
  Allocated, search_faults, recorded, refused, null_written, alloc_lem,
}

abbrev pub all_succeed : Mallocs
all_succeed = record { vma0 = true; vma1 = true; pgd = true }

-- A process fresh from `init_mm`, where the memory of the first area happened to be zero.
abbrev pub fresh : Caller → Caller
unfolding init_mm
fresh caller = record caller { mm = (init_mm all_succeed nil caller.mm).1 }

search_fresh :
    (caller : Caller) (size : ℕ) (r : Region)
    → 0 < size
    → size < 2 ^ 31
    → get_free_vmrg_area (fresh caller) (pos 0) size r
      ≡ some (failed, record r { rg_start = no_start; rg_end = no_start }, fresh caller)
unfolding get_free_vmrg_area get_vma_by_num walk_vma search_area search_list after_search fit_fuel
    update_vma set_vma fit_loop init_vm_rg enlist_vm_rg_node init_mm
search_fresh caller size r positive small = rw (lt→leb (add_ulong 0 size) 0 (omega arith)) refl

grow_fresh :
    (caller : Caller)
    → 256 ≤ caller.vmemsz
    → inc_vma_limit (fresh caller) (pos 0) (pos 256) none ≡ none
unfolding inc_vma_limit get_vma_by_num walk_vma grow_area commit_limit target_end
    validate_overlap_vm_area overlap_loop overlaps page_alignsz init_mm
grow_fresh caller h = rw (le→ltb caller.vmemsz 256 h) refl

refused_faults :
    (caller c : Caller)
    → 256 ≤ caller.vmemsz
    → fresh caller ≡ c
    → inc_vma_limit c (pos 0) (pos 256) none ≡ none
refused_faults caller c h e =
    subst (λ c. inc_vma_limit c (pos 0) (pos 256) none ≡ none) e (grow_fresh caller h)

failed_ne_done : Path Status failed done → ⊥
failed_ne_done e = cc

fresh_faults :
    (caller : Caller) {rgid : ℤ} {size : ℕ} {addr : ℤ} (r₀ : Region)
    {o : Option (Status × ℤ × Caller)}
    → 0 < size
    → size < 2 ^ 31
    → 256 ≤ caller.vmemsz
    → Allocated (fresh caller) (pos 0) rgid size addr r₀ o
    → o ≡ none
fresh_faults caller r₀ p s h (search_faults e) = refl
fresh_faults caller {size = size} r₀ p s h (recorded r c e) = absurd (
    failed_ne_done (
      ap (λ (x : Status × Region × Caller). x.0)
        (some-injective _ _ (sym (search_fresh caller size r₀ p s) ∙ e))))
fresh_faults caller {size = size} r₀ p s h (refused r c e k) = absurd (
    none-ne-some _ (
      sym (
        refused_faults caller c h (
          ap (λ (x : Status × Region × Caller). x.2)
            (some-injective _ _ (sym (search_fresh caller size r₀ p s) ∙ e))))
      ∙ k))
fresh_faults caller r₀ p s h (null_written r c e k) = refl

-- Where the memory of the first area was zero before `init_mm`, which succeeds, the first allocation
-- of a process in area 0 is a fault, whatever its symbol and its size below
-- 2 ^ 31 - 255, if it has 256 bytes of virtual memory at least: the area is empty, and to make it
-- grow is to write through a null pointer.
pub first_alloc_faults :
    (uninit : Region) (caller : Caller) (rgid : ℤ) (size : ℕ) (addr : ℤ)
    → 0 < size
    → size + 255 < 2 ^ 31
    → 256 ≤ caller.vmemsz
    → alloc uninit (fresh caller) (pos 0) rgid (pos size) addr ≡ none
first_alloc_faults uninit caller rgid size addr positive small room =
    fresh_faults caller _ positive (omega arith) room
      (alloc_lem uninit (fresh caller) (pos 0) rgid size addr positive small)
