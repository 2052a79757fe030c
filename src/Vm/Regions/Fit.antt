-- ===== src/Vm/Regions/Fit.antt =====
-- What the search loop of `get_free_vmrg_area` does to the list of free regions.
mod Step
pub mod Chunks
mod Cut
pub use Step.{NoFit, Dangles, space, Searched, Outcome, ended, followed}
use Cut.{Taken-Cut, chunks_of-stop, spans_left-stop}
use Chunks.{chunks_of, last_chunk, spans, spans_left}
use co2018_assignment.Base.{
  [], ap, ℕ, zero, suc, ◌+◌, ◌*◌, ◌^◌, ◌≤◌, ◌<◌, ◌≡◌, refl, true, false, some, none, inl, inr,
  Option, subst, sym, ◌∙◌, Bool-cases, leb, le→leb, lt→leb, arith,
}
use native.Mathlib.Decide.{dec_le}
use co2018_assignment.Base.Int.{ℤ, eqb_ℤ, add_ulong}
use co2018_assignment.Vm.{Region, RgList, nil, node, dangling}
use co2018_assignment.Vm.Regions.{Search, ends, faults, keep, take_space, fit_loop, fit_fuel}
use co2018_assignment.Vm.Regions.Fuel.{
  IsSmall, Taken, shrunk, emptied, replaced, lost, take_space-Taken, sum_exact,
}
use Step.{
  chunk, Less, Taken-Less, Taken-Outcome, skip-Outcome, fit_take, fit_lost, fit_skip, fit_stop,
}

true_ne_false : true ≡ false → ⊥
true_ne_false e = cc

-- No chunk has been taken.
unsearched :
    {vmaid : ℤ} {size : ℕ} {l : RgList} {newrg : Region}
    → NoFit vmaid size l
    → chunks_of vmaid size false l ≡ []
    → spans_left vmaid size false l ≡ spans l
    → Searched vmaid size l newrg l newrg
unsearched {size = size} {newrg = newrg} n none_cut same = record {
  found = ap (last_chunk size newrg) (sym none_cut);
  left = sym same;
  bytes = rw none_cut (omega arith);
  no_fit = n;
  untouched = λ _. refl;
}

module _ (vmaid : ℤ) (size : ℕ) (pos_size : 0 < size) (small_size : size < 2 ^ 31) where
  -- For a size above 0 and below 2 ^ 31, and addresses below 2 ^ 63, the loop ends within the fuel
  -- that is given for the list, and it faults only on a list that ends in a dangling pointer. Where it
  -- ends, it has cut off every chunk of `size` bytes that the first regions of the list have room for,
  -- one behind the other from the start of each, up to a region that does not name the area; a region
  -- behind one that this uses up counts as one that does. The region that is returned is the last of
  -- these chunks, and is untouched if there is none, and then the list is untouched too. What is left of
  -- the regions begins behind their chunks, and none of the first that name the area has room for one.
  pub fit_loop_lem :
      (fuel : ℕ) (l : RgList) (newrg : Region)
      → fit_fuel l ≤ fuel
      → IsSmall l
      → Outcome vmaid size l newrg (fit_loop fuel vmaid size l newrg)
  fit_loop_lem zero nil newrg f s = absurd (unfold fit_fuel in omega arith)
  fit_loop_lem zero dangling newrg f s = absurd (unfold fit_fuel in omega arith)
  fit_loop_lem zero (node r rest) newrg f s = absurd (unfold fit_fuel in omega arith)
  fit_loop_lem (suc fuel) nil newrg f s =
      unfold fit_loop in
      ended (unsearched tt (unfold chunks_of in refl) (unfold spans_left in refl))
  fit_loop_lem (suc fuel) dangling newrg f s = unfold fit_loop in followed tt
  fit_loop_lem (suc fuel) (node r rest) newrg f s = elim (Bool-cases (eqb_ℤ r.vmaid vmaid)) [
    | inr other ↦ rw (fit_stop vmaid size fuel r rest newrg other) (
        ended (
          unsearched (λ same. absurd (true_ne_false (sym same ∙ other)))
            (chunks_of-stop vmaid size pos_size r rest other)
            (spans_left-stop vmaid size pos_size r rest other)))
    | inl same ↦ elim (dec_le (r.rg_start + size) r.rg_end) [
      | no short ↦ rw (fit_skip vmaid size fuel r rest newrg same exact (omega arith)) (
          skip-Outcome pos_size same (omega arith)
            (fit_loop_lem fuel rest newrg (unfold fit_fuel in omega arith) s.2))
      | yes fits ↦
          take_round same fits (take_space r size rest) refl
            (take_space-Taken r size rest s.0 small_size fits)
            (λ l less.
              fit_loop_lem fuel l (chunk newrg r size) (omega (arith, less.fuel)) less.small)
    ]
  ]
    where
      exact : add_ulong r.rg_start size ≡ r.rg_start + size
      exact = sum_exact r.rg_start size s.0 small_size

      take_round :
          eqb_ℤ r.vmaid vmaid ≡ true
          → r.rg_start + size ≤ r.rg_end
          → (o : Option RgList) → take_space r size rest ≡ o
          → Taken r size rest o
          → ((l : RgList)
              → Less size r rest l
              → Outcome vmaid size l
                  (chunk newrg r size)
                  (fit_loop fuel vmaid size l (chunk newrg r size)))
          → Outcome vmaid size
              (node r rest)
              newrg
              (fit_loop (suc fuel) vmaid size (node r rest) newrg)
      take_round same fits none e (lost d) next =
          rw (fit_lost vmaid size fuel r rest newrg same exact fits e) (followed (rw d tt))
      take_round same fits (some l) e t next =
          let less = Taken-Less pos_size s t in
          rw (fit_take vmaid size fuel r rest newrg l same exact fits e)
            (Taken-Outcome (Taken-Cut vmaid size pos_size r rest same fits t) less (next l less))
