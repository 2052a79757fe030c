-- ===== src/Vm/Map/Range.antt =====
-- Which pages `alloc_pages_range` maps, and which frames it takes.
mod Defs
mod Step
mod Extend
pub use Defs.{
  AreWords, push_all, Assigned, covered, was_present, newly_mapped, with_pages, Mapped, Reached,
  with_free, Allocation, mapped, out_of_frames, out_of_memory,
}
use co2018_assignment.Base.{
  ℕ, zero, suc, ◌+◌, ◌^◌, ◌≤◌, ◌<◌, ◌≡◌, inl, inr, refl, ap, sym, subst, Bool, true, false, Option,
  some, List, [], ◌∷◌, length, get_elem?, get_elem?_of_lt, set, length-set, Bool-cases, arith,
}
use co2018_assignment.Pte.{page_present, pte_set_fpn}
use co2018_assignment.Pte.Fields.{pte_set_fpn-read}
use co2018_assignment.Vm.{Caller}
use co2018_assignment.Vm.Map.{alloc_pages_loop, alloc_pages_range}
use Defs.{after_page}
use Step.{AreWords-set, skip_page, no_frame, no_memory, map_step}
use Extend.{none_yet, here, skip-Allocation, map-Allocation}

module _ (mallocs : ℕ → Bool) where
  alloc_pages_loop-Allocation :
      (caller : Caller) (pgit left fpn : ℕ) (frames : List ℕ)
      → AreWords caller.mm.pgd
      → pgit + left ≤ length caller.mm.pgd
      → {hi : ℕ} → pgit + left ≡ hi
      → Allocation mallocs caller pgit hi frames
          (alloc_pages_loop mallocs caller pgit left fpn frames)
  alloc_pages_loop-Allocation caller pgit zero fpn frames words inside e =
      unfold alloc_pages_loop in mapped (none_yet caller frames (omega (arith, e)))
  alloc_pages_loop-Allocation caller pgit (suc left) fpn frames words inside {hi} e =
      let lt : pgit < length caller.mm.pgd = omega arith in
      let (pte, entry) = get_elem?_of_lt caller.mm.pgd pgit lt in
      elim (Bool-cases (page_present pte)) [
        | inl present ↦ rw (skip_page mallocs caller pgit left fpn pte frames entry present) (
            skip-Allocation caller pgit pte frames entry present (
              alloc_pages_loop-Allocation caller (pgit + 1) left fpn frames words (omega arith)
                (omega (arith, e))))
        | inr absent ↦ take pte entry lt absent caller.mram.free_fp_list refl (λ f fs.
            alloc_pages_loop-Allocation (after_page caller pgit pte f fs) (pgit + 1) left fpn
              (f ∷ frames)
              (AreWords-set caller.mm.pgd pgit (pte_set_fpn pte f) lt
                (pte_set_fpn-read pte f (words pgit pte entry)).4 words)
              (omega (arith, length-set caller.mm.pgd pgit (pte_set_fpn pte f))) (omega (arith, e)))
      ]
    where
      take :
          (pte : ℕ)
          → get_elem? caller.mm.pgd pgit ≡ some pte
          → pgit < length caller.mm.pgd
          → page_present pte ≡ false
          → (l : List ℕ) → caller.mram.free_fp_list ≡ l
          → ((f : ℕ) (fs : List ℕ)
              → Allocation mallocs (after_page caller pgit pte f fs) (pgit + 1) hi (f ∷ frames) (
                  alloc_pages_loop mallocs
                    (after_page caller pgit pte f fs)
                    (pgit + 1)
                    left
                    fpn
                    (f ∷ frames)))
          → Allocation mallocs caller pgit hi frames
              (alloc_pages_loop mallocs caller pgit (suc left) fpn frames)
      take pte entry lt absent [] free next =
          rw (no_frame mallocs caller pgit left fpn pte frames entry absent free)
            (out_of_frames (here caller pgit pte frames entry (omega (arith, e)) absent) free)
      take pte entry lt absent (f ∷ fs) free next = elim (Bool-cases (mallocs pgit)) [
        | inl works ↦
            rw
              (map_step mallocs caller pgit left fpn pte frames entry f fs lt (words pgit pte entry)
                absent free works)
              (map-Allocation caller pgit pte frames entry f fs lt (words pgit pte entry) absent
                free (omega (arith, e)) (next f fs))
        | inr fails ↦
            rw (no_memory mallocs caller pgit left fpn pte frames entry f fs absent free fails) (
              out_of_memory (here caller pgit pte frames entry (omega (arith, e)) absent) fails
                free)
      ]

-- While the range lies inside the directory, and its entries are words, `alloc_pages_range` never
-- faults. If it succeeds, then of the first `req_pgnum` entries each that was present is as it was, and
-- the others, in order, have got the first free frames of the memory by `pte_set_fpn`, and are present;
-- these frames have gone from the memory to the front of the list, and these pages to the front of the
-- FIFO list, one after the other, and nothing else has changed. It fails only at a page of the range
-- that is not present, with the pages before it mapped in this way: either no frame is free, or the
-- `malloc` for the page fails, and then the first free frame is gone from the memory.
pub alloc_pages_range_lem :
    (mallocs : ℕ → Bool) (caller : Caller) (req_pgnum fpn : ℕ) (frames : List ℕ)
    → AreWords caller.mm.pgd
    → req_pgnum ≤ length caller.mm.pgd
    → Allocation mallocs caller 0 req_pgnum frames
        (alloc_pages_range mallocs caller req_pgnum fpn frames)
unfolding alloc_pages_range
alloc_pages_range_lem mallocs caller req_pgnum fpn frames words inside =
    alloc_pages_loop-Allocation mallocs caller 0 req_pgnum fpn frames words (omega arith)
      (omega arith)
