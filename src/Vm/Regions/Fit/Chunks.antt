-- ===== src/Vm/Regions/Fit/Chunks.antt =====
-- The chunks that the search loop of `get_free_vmrg_area` cuts off, in closed form.
use co2018_assignment.Base.{
  ℕ, zero, suc, ◌+◌, ◌-◌, ◌*◌, ◌/◌, ◌%◌, Bool, ◌&&◌, ◌||◌, List, [], ◌∷◌, ◌++◌, ltb, ◌==◌,
  if◌then◌else◌,
}
use co2018_assignment.Base.Int.{ℤ, eqb_ℤ}
use co2018_assignment.Vm.{Region, RgList, nil, node, dangling}

-- The starts of the chunks of `size` bytes that one behind the other fit between `a` and `b`.
unfoldable pub cells : (a size n : ℕ) → List ℕ
cells a size zero = []
cells a size (suc n) = a ∷ cells (a + size) size n

unfoldable pub cells_of : (size a b : ℕ) → List ℕ
unfolding cells
cells_of size a b = cells a size ((b - a) / size)

-- Where the bytes begin that are left behind these chunks.
unfoldable pub rest_of : (size a b : ℕ) → ℕ
rest_of size a b = a + (b - a) / size * size

-- There are such chunks, and no byte is left behind them.
unfoldable pub is_used_up : (size a b : ℕ) → Bool
is_used_up size a b = ltb a b && ((b - a) % size == 0)

-- The starts of the chunks of the first regions, up to one that does not name the area. A region
-- behind one that is used up takes its place and its `vmaid`, so that it counts as one that names the
-- area, as `moved` says of the first.
unfoldable pub chunks_of : ℤ → ℕ → (moved : Bool) → RgList → List ℕ
unfolding cells_of is_used_up
chunks_of vmaid size moved nil = []
chunks_of vmaid size moved dangling = []
chunks_of vmaid size moved (node r rest) =
    let others = chunks_of vmaid size (is_used_up size r.rg_start r.rg_end) rest in
    if moved || eqb_ℤ r.vmaid vmaid then cells_of size r.rg_start r.rg_end ++ others else []

abbrev pub span : (a b : ℕ) → List (ℕ × ℕ) → List (ℕ × ℕ)
span a b ps = if ltb a b then (a, b) ∷ ps else ps

-- The addresses from and to which the regions reach that are not empty.
abbrev pub spans : RgList → List (ℕ × ℕ)
spans nil = []
spans dangling = []
spans (node r rest) = span r.rg_start r.rg_end (spans rest)

-- What the chunks leave of them.
unfoldable pub spans_left : ℤ → ℕ → (moved : Bool) → RgList → List (ℕ × ℕ)
unfolding rest_of is_used_up
spans_left vmaid size moved nil = []
spans_left vmaid size moved dangling = []
spans_left vmaid size moved (node r rest) =
    let others = spans_left vmaid size (is_used_up size r.rg_start r.rg_end) rest in
    if moved || eqb_ℤ r.vmaid vmaid
    then span (rest_of size r.rg_start r.rg_end) r.rg_end others
    else span r.rg_start r.rg_end (spans rest)

-- `*newrg` after the chunks have been stored there one after the other.
abbrev pub last_chunk : ℕ → Region → List ℕ → Region
last_chunk size newrg [] = newrg
last_chunk size newrg (a ∷ rest) =
    last_chunk size (record newrg { rg_start = a; rg_end = a + size }) rest
