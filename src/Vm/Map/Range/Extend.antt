-- ===== src/Vm/Map/Range/Extend.antt =====
-- How what holds of a range of `alloc_pages_range` extends by one page at its start.
use co2018_assignment.Base.{
  ℕ, ◌+◌, ◌^◌, ◌<◌, ◌≡◌, inl, refl, ap, sym, ◌∙◌, Bool, true, false, Option, some, List, [], ◌∷◌,
  length, get_elem?, get_elem?-set_self, get_elem?-set_ne, arith, Status,
}
use co2018_assignment.Pte.{page_present, pte_set_fpn}
use co2018_assignment.Pte.Fields.{pte_set_fpn-read}
use co2018_assignment.Vm.{Caller}
use co2018_assignment.Vm.Map.Range.Defs.{
  covered, was_present, newly_mapped, Mapped, Reached, Allocation, mapped, out_of_frames,
  out_of_memory, after_page,
}
use co2018_assignment.Vm.Map.Range.Step.{Assigned-set}

-- No page has been reached.
pub none_yet :
    (caller : Caller) (frames : List ℕ) {pgit hi : ℕ}
    → pgit ≡ hi
    → Mapped caller pgit hi frames frames caller
none_yet caller frames e = record {
  pages = [];
  taken = [];
  pgd = caller.mm.pgd;
  free = caller.mram.free_fp_list;
  assigned = covered e;
  others = λ i out. refl;
  pool = refl;
  listed = refl;
  result = refl;
}

module _ (caller : Caller) (pgit pte : ℕ) (frames : List ℕ)
    (entry : get_elem? caller.mm.pgd pgit ≡ some pte) where
  pub here :
      {hi : ℕ}
      → pgit < hi
      → page_present pte ≡ false
      → Reached caller pgit hi frames pgit frames caller
  here lt absent = record {
    lower = omega arith;
    upper = lt;
    entry = pte;
    there = entry;
    absent = absent;
    before = none_yet caller frames refl;
  }

  module _ (present : page_present pte ≡ true) where
    skip-Mapped :
        {frames' : List ℕ} {caller' : Caller} {hi : ℕ}
        → Mapped caller (pgit + 1) hi frames frames' caller'
        → Mapped caller pgit hi frames frames' caller'
    skip-Mapped m = record {
      pages = m.pages;
      taken = m.taken;
      pgd = m.pgd;
      free = m.free;
      assigned = was_present entry present (m.others pgit (inl (omega arith)) ∙ entry) m.assigned;
      others = λ i out. m.others i (omega (arith, out));
      pool = m.pool;
      listed = m.listed;
      result = m.result;
    }

    skip-Reached :
        {at : ℕ} {frames' : List ℕ} {caller' : Caller} {hi : ℕ}
        → Reached caller (pgit + 1) hi frames at frames' caller'
        → Reached caller pgit hi frames at frames' caller'
    skip-Reached r = record {
      lower = omega (arith, r.lower);
      upper = r.upper;
      entry = r.entry;
      there = r.there;
      absent = r.absent;
      before = skip-Mapped r.before;
    }

    pub skip-Allocation :
        {mallocs : ℕ → Bool} {hi : ℕ} {r : Option (Status × List ℕ × Caller)}
        → Allocation mallocs caller (pgit + 1) hi frames r
        → Allocation mallocs caller pgit hi frames r
    skip-Allocation (mapped m) = mapped (skip-Mapped m)
    skip-Allocation (out_of_frames r e) = out_of_frames (skip-Reached r) e
    skip-Allocation (out_of_memory r m e) = out_of_memory (skip-Reached r) m e

  module _ (f : ℕ) (fs : List ℕ) (lt : pgit < length caller.mm.pgd) (word : pte < 2 ^ 32)
      (absent : page_present pte ≡ false) (free : caller.mram.free_fp_list ≡ f ∷ fs) where
    map-Mapped :
        {frames' : List ℕ} {caller' : Caller} {hi : ℕ}
        → pgit < hi
        → Mapped (after_page caller pgit pte f fs) (pgit + 1) hi (f ∷ frames) frames' caller'
        → Mapped caller pgit hi frames frames' caller'
    map-Mapped below m = record {
      pages = pgit ∷ m.pages;
      taken = f ∷ m.taken;
      pgd = m.pgd;
      free = m.free;
      assigned =
          newly_mapped entry absent
            (m.others pgit (inl (omega arith))
              ∙ get_elem?-set_self caller.mm.pgd pgit (pte_set_fpn pte f) lt)
            (pte_set_fpn-read pte f word).0
            (Assigned-set pgit (pte_set_fpn pte f) (omega arith) m.assigned);
      others = λ i out.
          m.others i (omega (arith, out))
          ∙ get_elem?-set_ne caller.mm.pgd pgit i (pte_set_fpn pte f) (omega (arith, out, below));
      pool = free ∙ ap (◌∷◌ f) m.pool;
      listed = m.listed;
      result = m.result;
    }

    map-Reached :
        {at : ℕ} {frames' : List ℕ} {caller' : Caller} {hi : ℕ}
        → Reached (after_page caller pgit pte f fs) (pgit + 1) hi (f ∷ frames) at frames' caller'
        → Reached caller pgit hi frames at frames' caller'
    map-Reached {at} r = record {
      lower = omega (arith, r.lower);
      upper = r.upper;
      entry = r.entry;
      there =
          sym (get_elem?-set_ne caller.mm.pgd pgit at (pte_set_fpn pte f) (omega (arith, r.lower)))
          ∙ r.there;
      absent = r.absent;
      before = map-Mapped (omega (arith, r.lower)) r.before;
    }

    pub map-Allocation :
        {mallocs : ℕ → Bool} {hi : ℕ} {r : Option (Status × List ℕ × Caller)}
        → pgit < hi
        → Allocation mallocs (after_page caller pgit pte f fs) (pgit + 1) hi (f ∷ frames) r
        → Allocation mallocs caller pgit hi frames r
    map-Allocation below (mapped m) = mapped (map-Mapped below m)
    map-Allocation below (out_of_frames r e) = out_of_frames (map-Reached r) e
    map-Allocation below (out_of_memory r m e) = out_of_memory (map-Reached r) m e
