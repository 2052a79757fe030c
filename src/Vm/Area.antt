-- ===== src/Vm/Area.antt =====
-- Areas and their limits: `init_mm`, `init_vm_rg` and `enlist_vm_rg_node` of mm.c;
-- `get_vma_by_num`, `get_vm_area_node_at_brk`, `validate_overlap_vm_area` and `inc_vma_limit` of
-- mm-vm.c.
pub mod Limits
use co2018_assignment.Base.{
  ℕ, zero, suc, ◌+◌, ◌-◌, ◌*◌, ◌/◌, ◌^◌, Bool, true, false, not, ◌&&◌, ◌||◌, Option, none, some,
  List, [], ◌∷◌, ltb, leb, ◌==◌, if◌then◌else◌, replicate, ◌>>=◌, store_at, get_elem?, Status, done,
  failed,
}
use co2018_assignment.Base.Int.{
  ℤ, pos, negsuc, is_neg, eqb_ℤ, neg, to_int, to_ulong, add_ulong, sub_ulong, pos_part,
}
use co2018_assignment.Pte.{paging_max_pgn}
use co2018_assignment.Vm.{Region, RgList, nil, node, Vma, Mm, Caller}

unfoldable pub init_vm_rg : (rg_start rg_end : ℕ) → ℤ → Region
init_vm_rg rg_start rg_end vmaid = record { vmaid = vmaid; rg_start = rg_start; rg_end = rg_end }

unfoldable pub enlist_vm_rg_node : RgList → Region → RgList
enlist_vm_rg_node rglist rgnode = node rgnode rglist

-- Which of the three calls of `malloc` in `init_mm` succeed.
pub record Mallocs : Type 0 where
  pub vma0 : Bool
  pub vma1 : Bool
  pub pgd : Bool

-- `uninit` is what `vma0->vm_freerg_list` holds in fresh memory: only the list of `vma1` is set to
-- null before the first region is put in front. A null `pgd` is an empty directory, any access to
-- which is a fault. `symrgtbl` and `fifo_pgn` stay as they are.
unfoldable pub init_mm : Mallocs → RgList → Mm → Status × Mm
unfolding init_vm_rg enlist_vm_rg_node
init_mm m uninit mm =
    if not m.vma0 || not m.vma1
    then (failed, mm)
    else (if not m.pgd then (failed, record mm { pgd = [] }) else (
      done,
      record mm {
        pgd = replicate paging_max_pgn 0;
        mmap =
            record {
              vm_id = 0;
              vm_start = 0;
              vm_end = 0;
              sbrk = 0;
              vm_freerg_list = enlist_vm_rg_node uninit (init_vm_rg 0 0 (pos 0));
            }
            ∷ record {
              vm_id = 1;
              vm_start = 0;
              vm_end = 0;
              sbrk = 0;
              vm_freerg_list = enlist_vm_rg_node nil (init_vm_rg 0 0 (pos 0));
            }
            ∷ [];
      },
    ))

-- The walk of `get_vma_by_num` along `vm_next`; `none` is the null pointer.
unfoldable pub walk_vma : List Vma → ℕ → Option Vma
walk_vma [] n = none
walk_vma (v ∷ vs) zero = some v
walk_vma (v ∷ vs) (suc n) = walk_vma vs n

-- A negative number makes no step.
unfoldable pub get_vma_by_num : Mm → ℤ → Option Vma
unfolding walk_vma
get_vma_by_num mm vmaid = walk_vma mm.mmap (pos_part vmaid)

-- Writing through the pointer that `get_vma_by_num` returned.
unfoldable pub set_vma : List Vma → ℕ → Vma → List Vma
set_vma [] n w = []
set_vma (v ∷ vs) zero w = w ∷ vs
set_vma (v ∷ vs) (suc n) w = v ∷ set_vma vs n w

unfoldable pub update_vma : Caller → ℤ → Vma → Caller
unfolding set_vma
update_vma caller vmaid w =
    let mm : Mm = caller.mm in
    record caller { mm = record mm { mmap = set_vma mm.mmap (pos_part vmaid) w } }

-- The body of `get_vm_area_node_at_brk` once the area is known. `uninit` is what the field `vmaid`
-- of the new region holds in fresh memory: it is never set. `got` is whether `malloc` succeeds.
unfoldable pub node_at_brk : Bool → ℤ → Caller → ℤ → ℕ → Option Vma → Option Region × Caller
unfolding update_vma
node_at_brk got uninit caller vmaid alignedsz none = (none, caller)
node_at_brk got uninit caller vmaid alignedsz (some v) =
    if ltb v.vm_end (add_ulong v.sbrk alignedsz) || not got then (none, caller) else (
      some (record { vmaid = uninit; rg_start = v.sbrk; rg_end = add_ulong v.sbrk alignedsz }),
      update_vma caller vmaid (record v { sbrk = add_ulong v.sbrk alignedsz }),
    )

-- The region that is returned, `none` for the null pointer, and the process. `alignedsz` is not
-- negative; the argument `size` is not used.
unfoldable pub get_vm_area_node_at_brk :
    (got : Bool) → ℤ → Caller → ℤ → (size alignedsz : ℕ) → Option Region × Caller
unfolding get_vma_by_num node_at_brk
get_vm_area_node_at_brk got uninit caller vmaid size alignedsz =
    node_at_brk got uninit caller vmaid alignedsz (get_vma_by_num caller.mm vmaid)

-- The condition in the loop of `validate_overlap_vm_area`. An `int` is converted to
-- `unsigned long` where it meets one.
unfoldable pub overlaps : Vma → (vmaid vmastart vmaend : ℤ) → Bool
overlaps cur vmaid vmastart vmaend =
    not (cur.vm_id == to_ulong vmaid)
    && ((leb cur.vm_start (to_ulong vmastart) && ltb (to_ulong vmastart) cur.vm_end)
        || (ltb cur.vm_start (to_ulong vmaend) && leb (to_ulong vmaend) cur.vm_end))

unfoldable pub overlap_loop : List Vma → (vmaid vmastart vmaend : ℤ) → Status
unfolding overlaps
overlap_loop [] vmaid vmastart vmaend = done
overlap_loop (cur ∷ vs) vmaid vmastart vmaend =
    if overlaps cur vmaid vmastart vmaend then failed else overlap_loop vs vmaid vmastart vmaend

unfoldable pub validate_overlap_vm_area : Caller → (vmaid vmastart vmaend : ℤ) → Status
unfolding overlap_loop
validate_overlap_vm_area caller vmaid vmastart vmaend =
    if is_neg vmaend
    then failed
    else (if ltb caller.vmemsz (pos_part vmaend)
        then failed
        else overlap_loop caller.mm.mmap vmaid vmastart vmaend)

-- PAGING_PAGE_ALIGNSZ of an `int`: the division rounds towards 0.
unfoldable pub page_alignsz : ℤ → ℤ
page_alignsz (pos n) = pos ((n + 255) / 256 * 256)
page_alignsz (negsuc n) =
    if ltb n 255 then pos ((254 - n) / 256 * 256) else neg (pos ((n - 254) / 256 * 256))

-- The limit that is asked for: `vm_end - inc_amt` of area 1, `vm_end + inc_amt` of any other.
unfoldable pub target_end : ℤ → ℤ → Vma → ℕ
target_end vmaid inc_amt v =
    if eqb_ℤ vmaid (pos 1)
    then add_ulong v.vm_end (to_ulong (neg inc_amt))
    else add_ulong v.vm_end (to_ulong inc_amt)

unfoldable pub move_end : ℤ → ℤ → Vma → Vma
move_end vmaid inc_amt v =
    if eqb_ℤ vmaid (pos 1)
    then record v { vm_end = sub_ulong v.vm_end (to_ulong inc_amt) }
    else (if eqb_ℤ vmaid (pos 0)
        then record v { vm_end = add_ulong v.vm_end (to_ulong inc_amt) }
        else v)

-- The part of `inc_vma_limit` after the test for overlaps, by its result. `inc_limit_ret` is the
-- cell that the pointer names, `none` for the null pointer, through which the code writes untested.
unfoldable pub commit_limit :
    Caller → ℤ → ℤ → Option ℤ → Vma → Status → Option (Status × Option ℤ × Caller)
unfolding update_vma move_end
commit_limit caller vmaid inc_amt inc_limit_ret v failed = some (failed, inc_limit_ret, caller)
commit_limit caller vmaid inc_amt inc_limit_ret v done = do
  _ ← inc_limit_ret
  some (done, some inc_amt, update_vma caller vmaid (move_end vmaid inc_amt v))

unfoldable pub grow_area :
    Caller → ℤ → ℤ → Option ℤ → Option Vma → Option (Status × Option ℤ × Caller)
unfolding commit_limit target_end validate_overlap_vm_area
grow_area caller vmaid inc_amt inc_limit_ret none = some (failed, inc_limit_ret, caller)
grow_area caller vmaid inc_amt inc_limit_ret (some v) =
    commit_limit caller vmaid inc_amt inc_limit_ret v (
      validate_overlap_vm_area caller vmaid (to_int v.vm_end) (to_int (target_end vmaid inc_amt v)))

unfoldable pub inc_vma_limit : Caller → ℤ → ℤ → Option ℤ → Option (Status × Option ℤ × Caller)
unfolding get_vma_by_num grow_area page_alignsz
inc_vma_limit caller vmaid inc_sz inc_limit_ret =
    grow_area caller vmaid (page_alignsz inc_sz) inc_limit_ret (get_vma_by_num caller.mm vmaid)
