-- ===== src/Vm/Map.antt =====
-- Mapping pages in advance: `alloc_pages_range`, `vmap_page_range` and `vm_map_ram` of mm.c. No
-- other function calls the last of them.
pub mod Range
use co2018_assignment.Base.{
  ℕ, zero, suc, ◌+◌, Bool, true, false, not, Option, some, List, [], ◌∷◌, if◌then◌else◌, ◌>>=◌,
  store_at, get_elem?, Status, done, failed,
}
use co2018_assignment.Memphy.{Memphy, get_freefp}
use co2018_assignment.Pte.{page_present, paging_pgn, pte_set_fpn}
use co2018_assignment.Vm.{Mm, Caller}
use co2018_assignment.Vm.Page.{enlist_pgn_node}

-- `pte_set_fpn` on the entry of a page, and the page at the front of the FIFO list
unfoldable pub map_page : Caller → (pgn fpn : ℕ) → Option Caller
unfolding enlist_pgn_node
map_page caller pgn fpn = do
  let mm : Mm = caller.mm
  pte ← get_elem? mm.pgd pgn
  pgd ← store_at mm.pgd pgn (pte_set_fpn pte fpn)
  some (record caller { mm = record mm { pgd = pgd; fifo_pgn = enlist_pgn_node mm.fifo_pgn pgn } })

-- The loop of `vmap_page_range` at `pgn`, with `left` rounds to go. A page that is mapped is skipped
-- and leaves its frame for the next.
unfoldable pub vmap_loop : Caller → (pgn left : ℕ) → List ℕ → Option (Status × Caller)
unfolding map_page
vmap_loop caller pgn zero frames = some (done, caller)
vmap_loop caller pgn (suc left) [] = some (failed, caller)
vmap_loop caller pgn (suc left) (fpn ∷ frames) = do
  pte ← get_elem? caller.mm.pgd pgn
  elim (page_present pte) [
    | true ↦ vmap_loop caller (pgn + 1) left (fpn ∷ frames)
    | false ↦ map_page caller pgn fpn >>= λ caller'. vmap_loop caller' (pgn + 1) left frames
  ]

-- `ret_rg` is not used.
unfoldable pub vmap_page_range : Caller → (addr pgnum : ℕ) → List ℕ → Option (Status × Caller)
unfolding vmap_loop
vmap_page_range caller addr pgnum frames = vmap_loop caller (paging_pgn addr) pgnum frames

-- The end of a round of `alloc_pages_range`: the entry is set, tested, and the page enlisted.
unfoldable pub map_tested : Caller → (pgn fpn : ℕ) → Option (Status × Caller)
unfolding enlist_pgn_node
map_tested caller pgn fpn = do
  let mm : Mm = caller.mm
  pte ← get_elem? mm.pgd pgn
  pgd ← store_at mm.pgd pgn (pte_set_fpn pte fpn)
  if not (page_present (pte_set_fpn pte fpn))
      then some (failed, record caller { mm = record mm { pgd = pgd } })
      else some (
        done,
        record caller { mm = record mm { pgd = pgd; fifo_pgn = enlist_pgn_node mm.fifo_pgn pgn } },
      )

-- The end of a round of `alloc_pages_range` once a frame is taken: the entry of the frame in the list
-- is allocated, which fails where `got` is false, and the frame is then in neither list.
unfoldable pub list_frame :
    Bool → Caller → (pgit fpn : ℕ) → List ℕ → Option (Status × List ℕ × Caller)
unfolding map_tested
list_frame false caller pgit fpn frames = some (failed, frames, caller)
list_frame true caller pgit fpn frames = do
  (status, caller') ← map_tested caller pgit fpn
  some (status, fpn ∷ frames, caller')

unfoldable pub take_frame :
    Bool → Caller → (pgit : ℕ) → List ℕ → Status × ℕ × Memphy → Option (Status × List ℕ × Caller)
unfolding list_frame
take_frame got caller pgit frames (failed, fpn, mram) =
    some (failed, frames, record caller { mram = mram })
take_frame got caller pgit frames (done, fpn, mram) =
    list_frame got (record caller { mram = mram }) pgit fpn frames

-- A round of `alloc_pages_range` for a page that is not present. `fpn` is what the local holds, which
-- is set before it is used.
unfoldable pub alloc_page :
    Bool → Caller → (pgit fpn : ℕ) → List ℕ → Option (Status × List ℕ × Caller)
unfolding take_frame
alloc_page got caller pgit fpn frames =
    take_frame got caller pgit frames (get_freefp caller.mram fpn)

-- The loop of `alloc_pages_range` at page `pgit`: the pages are counted from 0, whatever the address
-- of the area. The frame list that is returned has the newest frame first. `mallocs i` is whether the
-- `malloc` for page `i` succeeds.
unfoldable pub alloc_pages_loop :
    (mallocs : ℕ → Bool) → Caller → (pgit left fpn : ℕ) → List ℕ → Option (Status × List ℕ × Caller)
unfolding alloc_page
alloc_pages_loop mallocs caller pgit zero fpn frames = some (done, frames, caller)
alloc_pages_loop mallocs caller pgit (suc left) fpn frames = do
  pte ← get_elem? caller.mm.pgd pgit
  elim (page_present pte) [
    | true ↦ alloc_pages_loop mallocs caller (pgit + 1) left fpn frames
    | false ↦ alloc_page (mallocs pgit) caller pgit fpn frames >>= λ (st, frames', caller').
        elim st [
          | failed ↦ some (failed, frames', caller')
          | done ↦ alloc_pages_loop mallocs caller' (pgit + 1) left fpn frames'
        ]
  ]

-- `frames` is what `*frm_lst` holds before.
unfoldable pub alloc_pages_range :
    (mallocs : ℕ → Bool) → Caller → (req_pgnum fpn : ℕ) → List ℕ → Option (Status × List ℕ × Caller)
unfolding alloc_pages_loop
alloc_pages_range mallocs caller req_pgnum fpn frames =
    alloc_pages_loop mallocs caller 0 req_pgnum fpn frames

map_allocated : (mapstart incpgnum : ℕ) → Status × List ℕ × Caller → Option (Status × Caller)
map_allocated mapstart incpgnum (failed, frames, caller) = some (failed, caller)
map_allocated mapstart incpgnum (done, frames, caller) = do
  (_, caller') ← vmap_page_range caller mapstart incpgnum frames
  some (done, caller')

-- The result of `vmap_page_range` is not used, and no code is -3000.
unfoldable pub vm_map_ram :
    (mallocs : ℕ → Bool) → Caller → (mapstart incpgnum fpn : ℕ) → Option (Status × Caller)
unfolding map_allocated alloc_pages_range vmap_page_range
vm_map_ram mallocs caller mapstart incpgnum fpn = do
  allocated ← alloc_pages_range mallocs caller incpgnum fpn []
  map_allocated mapstart incpgnum allocated
