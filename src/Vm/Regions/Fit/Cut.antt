-- ===== src/Vm/Regions/Fit/Cut.antt =====
-- How the closed form of the chunks follows a round of the search loop of `get_free_vmrg_area`.
use native.Mathlib.Nat.{div-eq-sub-div, div-eq_of_lt, mod-eq-sub-mod, mod-eq_of_lt, mod_self}
use native.Mathlib.Decide.{dec_lt}
use co2018_assignment.Base.{
  ℕ, suc, ◌+◌, ◌-◌, ◌*◌, ◌/◌, ◌%◌, ◌≤◌, ◌<◌, ◌≡◌, refl, ap, ◌∙◌, true, false, [], ◌∷◌, some, lt→ltb,
  le→ltb, ◌==◌, arith,
}
use co2018_assignment.Base.Int.{ℤ, eqb_ℤ}
use co2018_assignment.Vm.Regions.Fuel.{Taken, shrunk, emptied, replaced}
use co2018_assignment.Vm.{Region, RgList, node}
use co2018_assignment.Vm.Regions.Fit.Chunks.{
  cells, cells_of, rest_of, is_used_up, chunks_of, span, spans, spans_left,
}

module _ (size a b : ℕ) (pos_size : 0 < size) where
  minus : b - a - size ≡ b - (a + size)
  minus = omega arith

  one_more : a + size ≤ b → (b - a) / size ≡ suc ((b - (a + size)) / size)
  one_more le = omega (
    arith,
    div-eq-sub-div {m = size} {n = b - a} pos_size (omega (arith, le)),
    ap (λ n. n / size) minus,
  )

  pub cells_step : a + size ≤ b → cells_of size a b ≡ a ∷ cells_of size (a + size) b
  unfolding cells_of cells
  cells_step le = ap (cells a size) (one_more le)

  pub rest_step : a + size ≤ b → rest_of size a b ≡ rest_of size (a + size) b
  unfolding rest_of
  rest_step le = ap (λ k. a + k * size) (one_more le) ∙ omega arith

  pub used_step : a + size < b → is_used_up size a b ≡ is_used_up size (a + size) b
  unfolding is_used_up
  used_step lt =
      rw (lt→ltb a b (omega (arith, lt)), lt→ltb (a + size) b lt)
        (ap (λ n. n == 0)
          (mod-eq-sub-mod {n = b - a} {m = size} (omega (arith, lt)) ∙ ap (λ n. n % size) minus))

  pub used_last : a + size ≡ b → is_used_up size a b ≡ true
  unfolding is_used_up
  used_last e =
      rw (lt→ltb a b (omega (arith, e, pos_size)))
        (ap (λ n. n == 0) (ap (λ n. n % size) exact ∙ mod_self size))
    where
      exact : b - a ≡ size
      exact = omega (arith, e)

  module _ (short : b < a + size) where
    none_fits : (b - a) / size ≡ 0
    none_fits = div-eq_of_lt (omega (arith, short, pos_size))

    pub cells_none : cells_of size a b ≡ []
    unfolding cells_of cells
    cells_none = ap (cells a size) none_fits

    pub rest_none : rest_of size a b ≡ a
    unfolding rest_of
    rest_none = rw none_fits (omega arith)

    pub used_none : is_used_up size a b ≡ false
    unfolding is_used_up
    used_none = elim (dec_lt a b) [
      | yes lt ↦
          let whole : (b - a) % size ≡ b - a = mod-eq_of_lt (omega (arith, short, lt)) in
          rw (lt→ltb a b lt) (ap (λ n. n == 0) whole ∙ ground arith)
      | no ge ↦ rw (le→ltb a b (omega (arith, ge))) refl
    ]

module _ (size a b : ℕ) (pos_size : 0 < size) (e : a + size ≡ b) where
  pub cells_exact : cells_of size a b ≡ a ∷ []
  cells_exact =
      cells_step size a b pos_size (omega (arith, e))
      ∙ ap (◌∷◌ a) (cells_none size (a + size) b pos_size (omega (arith, e, pos_size)))

  pub rest_exact : rest_of size a b ≡ b
  rest_exact =
      rest_step size a b pos_size (omega (arith, e))
      ∙ (rest_none size (a + size) b pos_size (omega (arith, e, pos_size)) ∙ e)

-- The first region, when a chunk is cut off it, and the list that is left of it.
pub record Cut (vmaid : ℤ) (size : ℕ) (r : Region) (rest l : RgList) : Type 0 where
  pub chunks : chunks_of vmaid size false (node r rest) ≡ r.rg_start ∷ chunks_of vmaid size false l
  pub left : spans_left vmaid size false (node r rest) ≡ spans_left vmaid size false l

module _ (vmaid : ℤ) (size : ℕ) (pos_size : 0 < size) (r : Region) (rest : RgList) where
  pub Taken-Cut :
      eqb_ℤ r.vmaid vmaid ≡ true
      → r.rg_start + size ≤ r.rg_end
      → {l : RgList} → Taken r size rest (some l)
      → Cut vmaid size r rest l
  unfolding chunks_of spans_left
  Taken-Cut same le (shrunk lt) = record {
    chunks =
        rw
          (
            same,
            cells_step size r.rg_start r.rg_end pos_size le,
            used_step size r.rg_start r.rg_end pos_size lt,
          )
          refl;
    left =
        rw
          (
            same,
            rest_step size r.rg_start r.rg_end pos_size le,
            used_step size r.rg_start r.rg_end pos_size lt,
          )
          refl;
  }
  Taken-Cut same le (emptied e last) = record {
    chunks =
        rw
          (
            same,
            last,
            cells_exact size r.rg_start r.rg_end pos_size e,
            cells_none size r.rg_end r.rg_end pos_size (omega (arith, pos_size)),
          )
          refl;
    left =
        rw
          (
            same,
            last,
            rest_exact size r.rg_start r.rg_end pos_size e,
            rest_none size r.rg_end r.rg_end pos_size (omega (arith, pos_size)),
          )
          refl;
  }
  Taken-Cut same le (replaced next rest' e there) = record {
    chunks =
        rw
          (
            same,
            there,
            cells_exact size r.rg_start r.rg_end pos_size e,
            used_last size r.rg_start r.rg_end pos_size e,
          )
          refl;
    left =
        rw
          (
            same,
            there,
            rest_exact size r.rg_start r.rg_end pos_size e,
            used_last size r.rg_start r.rg_end pos_size e,
            le→ltb r.rg_end r.rg_end (omega arith),
          )
          refl;
  }

  pub chunks_of-skip :
      eqb_ℤ r.vmaid vmaid ≡ true
      → r.rg_end < r.rg_start + size
      → chunks_of vmaid size false (node r rest) ≡ chunks_of vmaid size false rest
  unfolding chunks_of
  chunks_of-skip same lt =
      rw
        (
          same,
          cells_none size r.rg_start r.rg_end pos_size lt,
          used_none size r.rg_start r.rg_end pos_size lt,
        )
        refl

  pub spans_left-skip :
      eqb_ℤ r.vmaid vmaid ≡ true
      → r.rg_end < r.rg_start + size
      → spans_left vmaid size false (node r rest)
        ≡ span r.rg_start r.rg_end (spans_left vmaid size false rest)
  unfolding spans_left
  spans_left-skip same lt =
      rw
        (
          same,
          rest_none size r.rg_start r.rg_end pos_size lt,
          used_none size r.rg_start r.rg_end pos_size lt,
        )
        refl

  pub chunks_of-stop : eqb_ℤ r.vmaid vmaid ≡ false → chunks_of vmaid size false (node r rest) ≡ []
  unfolding chunks_of
  chunks_of-stop other = rw other refl

  pub spans_left-stop :
      eqb_ℤ r.vmaid vmaid ≡ false → spans_left vmaid size false (node r rest) ≡ spans (node r rest)
  unfolding spans_left
  spans_left-stop other = rw other refl
