-- ===== src/Vm/Regions/Fit/Step.antt =====
-- One round of the search, and what is claimed of the whole of it.
use co2018_assignment.Base.{
  length, [], sym, ◌∙◌, ℕ, suc, ◌+◌, ◌-◌, ◌*◌, ◌≤◌, ◌<◌, ◌≡◌, true, false, some, none, le→leb,
  lt→leb, ap, subst, arith,
}
use co2018_assignment.Base.Int.{ℤ, eqb_ℤ, add_ulong}
use co2018_assignment.Vm.{Region, RgList, nil, node, dangling}
use co2018_assignment.Vm.Regions.{Search, ends, faults, keep, take_space, fit_loop, fit_fuel}
use co2018_assignment.Vm.Regions.Fit.Chunks.{chunks_of, last_chunk, spans, spans_left, span}
use co2018_assignment.Vm.Regions.Fit.Cut.{Cut, chunks_of-skip, spans_left-skip}
use co2018_assignment.Vm.Regions.Fuel.{IsSmall, Taken, shrunk, emptied, replaced}

-- The bytes of a list.
abbrev pub space : RgList → ℕ
space nil = 0
space dangling = 0
space (node r rest) = r.rg_end - r.rg_start + space rest

-- None of the first regions that name the area has `size` bytes left.
abbrev pub NoFit : ℤ → ℕ → RgList → Type 0
NoFit vmaid size nil = Unit
NoFit vmaid size dangling = Unit
NoFit vmaid size (node r rest) =
    eqb_ℤ r.vmaid vmaid ≡ true → (r.rg_end < r.rg_start + size) × NoFit vmaid size rest

abbrev pub Dangles : RgList → Type 0
Dangles nil = ⊥
Dangles dangling = Unit
Dangles (node r rest) = Dangles rest

-- What the search has done when it ends with the list `l'`, and `g` in `*newrg`.
pub record Searched (vmaid : ℤ) (size : ℕ) (l : RgList) (newrg : Region) (l' : RgList) (g : Region)
    : Type 0 where
  pub found : g ≡ last_chunk size newrg (chunks_of vmaid size false l)
  pub left : spans l' ≡ spans_left vmaid size false l
  pub bytes : space l' + length (chunks_of vmaid size false l) * size ≡ space l
  pub no_fit : NoFit vmaid size l'
  pub untouched : chunks_of vmaid size false l ≡ [] → l' ≡ l

pub data Outcome (vmaid : ℤ) (size : ℕ) (l : RgList) (newrg : Region) : Search → Type 0 where
  ended :
      {l' : RgList} {g : Region}
      → Searched vmaid size l newrg l' g
      → Outcome vmaid size l newrg (ends l' g)
  followed : Dangles l → Outcome vmaid size l newrg faults

abbrev pub chunk : Region → Region → ℕ → Region
chunk newrg r size = record newrg { rg_start = r.rg_start; rg_end = r.rg_start + size }

module _ (vmaid : ℤ) (size fuel : ℕ) (r : Region) (rest : RgList) (newrg : Region) where
  pub fit_take :
      (l : RgList)
      → eqb_ℤ r.vmaid vmaid ≡ true
      → add_ulong r.rg_start size ≡ r.rg_start + size
      → r.rg_start + size ≤ r.rg_end
      → take_space r size rest ≡ some l
      → fit_loop (suc fuel) vmaid size (node r rest) newrg
        ≡ fit_loop fuel vmaid size l (chunk newrg r size)
  unfolding fit_loop
  fit_take l same e le taken =
      rw (same, e, le→leb _ _ le, taken)
        (ap
          (λ (t : ℕ).
            fit_loop fuel vmaid size l (record newrg { rg_start = r.rg_start; rg_end = t }))
          e)

  pub fit_lost :
      eqb_ℤ r.vmaid vmaid ≡ true
      → add_ulong r.rg_start size ≡ r.rg_start + size
      → r.rg_start + size ≤ r.rg_end
      → take_space r size rest ≡ none
      → fit_loop (suc fuel) vmaid size (node r rest) newrg ≡ faults
  unfolding fit_loop
  fit_lost same e le taken = rw (same, e, le→leb _ _ le, taken)

  pub fit_skip :
      eqb_ℤ r.vmaid vmaid ≡ true
      → add_ulong r.rg_start size ≡ r.rg_start + size
      → r.rg_end < r.rg_start + size
      → fit_loop (suc fuel) vmaid size (node r rest) newrg
        ≡ keep r (fit_loop fuel vmaid size rest newrg)
  unfolding fit_loop
  fit_skip same e lt = rw (same, e, lt→leb _ _ lt)

  pub fit_stop :
      eqb_ℤ r.vmaid vmaid ≡ false
      → fit_loop (suc fuel) vmaid size (node r rest) newrg ≡ ends (node r rest) newrg
  unfolding fit_loop
  fit_stop other = rw other

-- What a round that takes a chunk leaves, against what was there.
pub record Less (size : ℕ) (r : Region) (rest l : RgList) : Type 0 where
  pub small : IsSmall l
  pub fuel : fit_fuel l < fit_fuel (node r rest)
  pub bytes : space l + size ≡ space (node r rest)
  pub dangles : Dangles l → Dangles (node r rest)

pub Taken-Less :
    {r : Region} {size : ℕ} {rest l : RgList}
    → 0 < size
    → IsSmall (node r rest)
    → Taken r size rest (some l)
    → Less size r rest l
unfolding fit_fuel
Taken-Less {r} {size} {rest} p s (shrunk lt) = record {
  small = (omega arith, s.1, s.2);
  fuel = omega arith;
  bytes = omega arith;
  dangles = λ d. d;
}
Taken-Less {r} p s (emptied e last) = record {
  small = omega arith;
  fuel = rw last (omega arith);
  bytes = rw last (omega arith);
  dangles = λ d. absurd d;
}
Taken-Less {r} p s (replaced next rest' e there) =
    let small : IsSmall (node next rest') = subst IsSmall there s.2 in
    record {
      small = small;
      fuel = rw there (omega arith);
      bytes = rw there (omega arith);
      dangles = λ d. rw there d;
    }

-- A round that takes a chunk, and the rest of the search.
pub Taken-Outcome :
    {vmaid : ℤ} {size : ℕ} {r : Region} {rest l : RgList} {newrg : Region} {res : Search}
    → Cut vmaid size r rest l
    → Less size r rest l
    → Outcome vmaid size l (chunk newrg r size) res
    → Outcome vmaid size (node r rest) newrg res
Taken-Outcome c less (followed d) = followed (less.dangles d)
Taken-Outcome {vmaid} {size} {r} {rest} {l} {newrg} c less (ended {l'} {g} o) = ended (record {
  found = o.found ∙ ap (last_chunk size newrg) (sym c.chunks);
  left = o.left ∙ sym c.left;
  bytes = rw one_more (omega (arith, o.bytes, less.bytes));
  no_fit = o.no_fit;
  untouched = λ e. absurd (omega (arith, ap length e, one_more));
})
  where
    one_more :
        length (chunks_of vmaid size false (node r rest))
        ≡ suc (length (chunks_of vmaid size false l))
    one_more = ap length c.chunks

-- A round that goes on to the next region.
pub skip-Outcome :
    {vmaid : ℤ} {size : ℕ} {r : Region} {rest : RgList} {newrg : Region} {res : Search}
    → 0 < size
    → eqb_ℤ r.vmaid vmaid ≡ true
    → r.rg_end < r.rg_start + size
    → Outcome vmaid size rest newrg res
    → Outcome vmaid size (node r rest) newrg (keep r res)
skip-Outcome p same lt (followed d) = followed d
skip-Outcome {vmaid} {size} {r} {rest} {newrg} p same lt (ended o) =
    let chunks = chunks_of-skip vmaid size p r rest same lt in
    ended (record {
      found = o.found ∙ ap (last_chunk size newrg) (sym chunks);
      left =
          ap (span r.rg_start r.rg_end) o.left ∙ sym (spans_left-skip vmaid size p r rest same lt);
      bytes = rw chunks (omega (arith, o.bytes));
      no_fit = λ e. (lt, o.no_fit);
      untouched = λ e. ap (node r) (o.untouched (sym chunks ∙ e));
    })
