-- ===== src/Vm/Area/Limits.antt =====
-- When the limit of an area moves: `validate_overlap_vm_area` and `inc_vma_limit` of mm-vm.c.
use co2018_assignment.Base.{
  ℕ, ◌<◌, ◌≤◌, ◌≡◌, ◌⊎◌, inl, inr, refl, false, none, some, Option, ltb, List, [], ◌∷◌, All, arith,
  Status, done, failed, Bool-cases, if◌then◌else◌, Bool, ap, sym, ◌∙◌, lt→ltb, le→ltb,
}
use native.Mathlib.Decide.{dec_le}
use co2018_assignment.Base.Int.{ℤ, pos, negsuc, to_ulong}
use co2018_assignment.Vm.{Vma, Caller}
use co2018_assignment.Vm.Area.{
  get_vma_by_num, overlaps, overlap_loop, validate_overlap_vm_area, commit_limit, grow_area,
  inc_vma_limit, page_alignsz,
}

-- No end of the range from `s` to `e` lies in the area, unless it is the area `vmaid` itself.
abbrev pub Clear : (vmaid : ℤ) (s e : ℕ) → Vma → Type 0
Clear vmaid s e v =
    (v.vm_id ≡ to_ulong vmaid)
    ⊎ (((s < v.vm_start) ⊎ (v.vm_end ≤ s)) × ((e ≤ v.vm_start) ⊎ (v.vm_end < e)))

overlaps-Clear :
    (v : Vma) (vmaid s e : ℤ)
    → overlaps v vmaid s e ≡ false
    → Clear vmaid (to_ulong s) (to_ulong e) v
unfolding overlaps
overlaps-Clear v vmaid s e h = ground arith

Clear-overlaps :
    (v : Vma) (vmaid s e : ℤ)
    → Clear vmaid (to_ulong s) (to_ulong e) v
    → overlaps v vmaid s e ≡ false
unfolding overlaps
Clear-overlaps v vmaid s e h = ground arith

failed_ne_done : Path Status failed done → ⊥
failed_ne_done x = cc

overlap_loop-Clear :
    (vs : List Vma) (vmaid s e : ℤ)
    → overlap_loop vs vmaid s e ≡ done
    → All (Clear vmaid (to_ulong s) (to_ulong e)) vs
unfolding overlap_loop
overlap_loop-Clear [] vmaid s e h = tt
overlap_loop-Clear (v ∷ vs) vmaid s e h = elim (Bool-cases (overlaps v vmaid s e)) [
  | inl hit ↦ absurd (failed_ne_done (ap pick (sym hit) ∙ h))
  | inr clear ↦
      (overlaps-Clear v vmaid s e clear, overlap_loop-Clear vs vmaid s e (ap pick (sym clear) ∙ h))
]
  where
    pick : Bool → Status
    pick b = if b then failed else overlap_loop vs vmaid s e

Clear-overlap_loop :
    (vs : List Vma) (vmaid s e : ℤ)
    → All (Clear vmaid (to_ulong s) (to_ulong e)) vs
    → overlap_loop vs vmaid s e ≡ done
unfolding overlap_loop
Clear-overlap_loop [] vmaid s e h = refl
Clear-overlap_loop (v ∷ vs) vmaid s e h =
    rw (Clear-overlaps v vmaid s e h.0) (Clear-overlap_loop vs vmaid s e h.1)

-- The end of a range, where it may have one.
abbrev pub EndsWithin : (vmemsz : ℕ) → List Vma → (vmaid s e : ℤ) → Type 0
EndsWithin vmemsz vmas vmaid s (negsuc n) = ⊥
EndsWithin vmemsz vmas vmaid s (pos e) = (e ≤ vmemsz) × All (Clear vmaid (to_ulong s) e) vmas

-- `validate_overlap_vm_area` lets a range through exactly if its end is not negative and at most
-- `vmemsz`, and neither of its ends lies in another area. That another area lies between the two ends
-- is not excluded.
pub validate_overlap_lem :
    (caller : Caller) (vmaid s e : ℤ)
    → (validate_overlap_vm_area caller vmaid s e ≡ done
        → EndsWithin caller.vmemsz caller.mm.mmap vmaid s e)
      × (EndsWithin caller.vmemsz caller.mm.mmap vmaid s e
          → validate_overlap_vm_area caller vmaid s e ≡ done)
unfolding validate_overlap_vm_area
validate_overlap_lem caller vmaid s (negsuc n) = (λ h. absurd (failed_ne_done h), λ h. absurd h)
validate_overlap_lem caller vmaid s (pos e) = (to, from)
  where
    pick : Bool → Status
    pick b = if b then failed else overlap_loop caller.mm.mmap vmaid s (pos e)

    to :
        (if ltb caller.vmemsz e then failed else overlap_loop caller.mm.mmap vmaid s (pos e)) ≡ done
        → (e ≤ caller.vmemsz) × All (Clear vmaid (to_ulong s) e) caller.mm.mmap
    to h = elim (dec_le e caller.vmemsz) [
      | yes le ↦ (
        le,
        overlap_loop-Clear caller.mm.mmap vmaid s (pos e)
            (ap pick (sym (le→ltb caller.vmemsz e le)) ∙ h),
      )
      | no lt ↦ absurd (failed_ne_done (ap pick (sym (lt→ltb caller.vmemsz e (omega arith))) ∙ h))
    ]

    from :
        (e ≤ caller.vmemsz) × All (Clear vmaid (to_ulong s) e) caller.mm.mmap
        → (if ltb caller.vmemsz e then failed else overlap_loop caller.mm.mmap vmaid s (pos e))
          ≡ done
    from (le, all) =
        rw (le→ltb caller.vmemsz e le) (Clear-overlap_loop caller.mm.mmap vmaid s (pos e) all)

-- A call that was given the null pointer for its result: it fails and changes nothing, or faults.
pub data Unmoved (caller : Caller) : Option (Status × Option ℤ × Caller) → Type 0 where
  halts : Unmoved caller (some (failed, none, caller))
  faults : Unmoved caller none

-- Without a cell for its result, `inc_vma_limit` never succeeds: it fails and changes nothing, or it
-- faults.
pub inc_vma_limit_null :
    (caller : Caller) (vmaid inc_sz : ℤ) → Unmoved caller (inc_vma_limit caller vmaid inc_sz none)
unfolding inc_vma_limit grow_area commit_limit
inc_vma_limit_null caller vmaid inc_sz = area (page_alignsz inc_sz) (get_vma_by_num caller.mm vmaid)
  where
    commit :
        (amt : ℤ) (v : Vma) (status : Status)
        → Unmoved caller (commit_limit caller vmaid amt none v status)
    commit amt v failed = halts
    commit amt v done = faults

    area : (amt : ℤ) (o : Option Vma) → Unmoved caller (grow_area caller vmaid amt none o)
    area amt none = halts
    area amt (some v) = commit amt v _
