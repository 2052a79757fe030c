-- ===== src/Vm/Regions/Fuel.antt =====
-- The search loop of `get_free_vmrg_area` ends.
use co2018_assignment.Base.{
  ℕ, ◌+◌, ◌^◌, ◌≤◌, ◌<◌, ◌≡◌, refl, Option, some, none, lt→ltb, le→ltb, arith,
}
use native.Mathlib.Decide.{dec_lt}
use co2018_assignment.Base.Int.{add_ulong}
use co2018_assignment.Vm.{Region, RgList, nil, node, dangling}
use co2018_assignment.Vm.Regions.{take_space}

-- Addresses far enough from 2 ^ 64 that no sum wraps.
abbrev pub IsSmall : RgList → Type 0
IsSmall nil = Unit
IsSmall dangling = Unit
IsSmall (node r rest) = (r.rg_start < 2 ^ 63) × (r.rg_end < 2 ^ 63) × IsSmall rest

-- The list after a chunk is taken, by what stood behind the region.
pub data Taken (r : Region) (size : ℕ) (rest : RgList) : Option RgList → Type 0 where
  shrunk :
      r.rg_start + size < r.rg_end
      → Taken r size rest (some (node (record r { rg_start = r.rg_start + size }) rest))
  emptied :
      r.rg_start + size ≡ r.rg_end
      → rest ≡ nil
      → Taken r size rest (some (node (record r { rg_start = r.rg_end }) nil))
  replaced :
      (next : Region) (rest' : RgList)
      → r.rg_start + size ≡ r.rg_end
      → rest ≡ node next rest'
      → Taken r size rest
          (some (node (record r { rg_start = next.rg_start; rg_end = next.rg_end }) rest'))
  lost : rest ≡ dangling → Taken r size rest none

pub sum_exact : (a size : ℕ) → a < 2 ^ 63 → size < 2 ^ 31 → add_ulong a size ≡ a + size
sum_exact a size h b = omega arith

take_space-shrunk :
    (r : Region) (size : ℕ) (rest : RgList)
    → add_ulong r.rg_start size ≡ r.rg_start + size
    → r.rg_start + size < r.rg_end
    → take_space r size rest ≡ some (node (record r { rg_start = r.rg_start + size }) rest)
unfolding take_space
take_space-shrunk r size rest e h = rw e (rw (lt→ltb (r.rg_start + size) r.rg_end h))

take_space-used_up :
    (r : Region) (size : ℕ)
    → add_ulong r.rg_start size ≡ r.rg_start + size
    → r.rg_start + size ≡ r.rg_end
    → (rest : RgList) → Taken r size rest (take_space r size rest)
unfolding take_space
take_space-used_up r size e eq nil =
    rw (e, le→ltb (r.rg_start + size) r.rg_end (omega arith)) (emptied eq refl)
take_space-used_up r size e eq (node next rest') =
    rw (e, le→ltb (r.rg_start + size) r.rg_end (omega arith)) (replaced next rest' eq refl)
take_space-used_up r size e eq dangling =
    rw (e, le→ltb (r.rg_start + size) r.rg_end (omega arith)) (lost refl)

pub take_space-Taken :
    (r : Region) (size : ℕ) (rest : RgList)
    → r.rg_start < 2 ^ 63
    → size < 2 ^ 31
    → r.rg_start + size ≤ r.rg_end
    → Taken r size rest (take_space r size rest)
take_space-Taken r size rest small b le =
    let e = sum_exact r.rg_start size small b in
    elim (dec_lt (r.rg_start + size) r.rg_end) [
      | yes more ↦ rw (take_space-shrunk r size rest e more) (shrunk more)
      | no all ↦ take_space-used_up r size e (omega arith) rest
    ]
