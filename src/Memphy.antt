-- ===== src/Memphy.antt =====
-- `struct memphy_struct` of ossim_source_code/include/os-mm.h and the functions of
-- ossim_source_code/src/mm-memphy.c: a device of `maxsz` bytes with a list of free frames.
--
-- A byte is the number of its bit pattern, addresses and frame numbers are never negative here.
-- `main` and the processes always pass devices that exist, so the tests for null pointers have no
-- counterpart. What `malloc` leaves in fresh memory is an argument, and `malloc` succeeds.
-- `used_fp_list` is never read or written. `MEMPHY_dump` is in the module `Dump`.
pub mod Cursor
pub mod Access
pub mod Frames
pub mod Copy
pub mod Dump
use co2018_assignment.Base.{
  ℕ, zero, suc, ◌+◌, ◌-◌, ◌*◌, ◌/◌, ◌%◌, Bool, true, false, not, Option, none, some, List, [], ◌∷◌,
  ltb, leb, ◌&&◌, ◌==◌, if◌then◌else◌, get_elem?, ◌>>=◌, store_at, Status, done, failed,
}

abbrev pub paging_pagesz : ℕ
paging_pagesz = 256

-- `free_fp_list` holds the frame numbers of the list in order. `rdmflg` is 1 for a device with
-- random access, and 0 for a serial one.
pub record Memphy : Type 0 where
  pub storage : List ℕ
  pub maxsz : ℕ
  pub rdmflg : Bool
  pub cursor : ℕ
  pub free_fp_list : List ℕ

-- The loop of `MEMPHY_mv_csr`, on fuel.
unfoldable pub mv_csr_loop : ℕ → (offset numstep : ℕ) → Memphy → Memphy
mv_csr_loop zero offset numstep mp = mp
mv_csr_loop (suc fuel) offset numstep mp =
    let rest =
      mv_csr_loop fuel offset (numstep + 1) (record mp { cursor = (mp.cursor + 1) % mp.maxsz }) in
    if ltb numstep offset && ltb numstep mp.maxsz then rest else mp

-- `maxsz + 1` rounds of fuel are enough: the loop makes at most `maxsz` rounds.
unfoldable pub mv_csr : Memphy → ℕ → Memphy
unfolding mv_csr_loop
mv_csr mp offset = mv_csr_loop (mp.maxsz + 1) offset 0 (record mp { cursor = 0 })

-- The byte that `*value` holds afterwards, beside the result and the device. `value` is what it
-- holds before.
unfoldable pub seq_read : Memphy → ℕ → ℕ → Option (Status × ℕ × Memphy)
unfolding mv_csr
seq_read mp addr value =
    if not mp.rdmflg
    then some (failed, value, mp)
    else (do let mp' = mv_csr mp addr; v ← get_elem? mp.storage addr; some (done, v, mp'))

unfoldable pub read : Memphy → ℕ → ℕ → Option (Status × ℕ × Memphy)
unfolding seq_read
read mp addr value =
    if mp.rdmflg
    then (do v ← get_elem? mp.storage addr; some (done, v, mp))
    else seq_read mp addr value

unfoldable pub seq_write : Memphy → ℕ → ℕ → Option (Status × Memphy)
unfolding mv_csr
seq_write mp addr value = if not mp.rdmflg then some (failed, mp) else (do
  let mp' = mv_csr mp addr
  storage ← store_at mp.storage addr value
  some (done, record mp' { storage = storage }))

unfoldable pub write : Memphy → ℕ → ℕ → Option (Status × Memphy)
unfolding seq_write
write mp addr value =
    if mp.rdmflg
    then (do storage ← store_at mp.storage addr value; some (done, record mp { storage = storage }))
    else seq_write mp addr value

-- The loop of `MEMPHY_format`: the frames from `iter` on, `left` of them.
unfoldable pub frames_from : ℕ → ℕ → List ℕ
frames_from iter zero = []
frames_from iter (suc left) = iter ∷ frames_from (iter + 1) left

-- `fp_next` of the first node is set by the loop alone: with a single frame it stays what `malloc`
-- left there, `wild`.
unfoldable pub format : List ℕ → Memphy → ℕ → Status × Memphy
unfolding frames_from
format wild mp pagesz =
    let numfp = mp.maxsz / pagesz in
    if numfp == 0
    then (failed, mp)
    else (if numfp == 1
        then (done, record mp { free_fp_list = 0 ∷ wild })
        else (done, record mp { free_fp_list = 0 ∷ frames_from 1 (numfp - 1) }))

get_free : List ℕ → Memphy → ℕ → Status × ℕ × Memphy
get_free [] mp fpn = (failed, fpn, mp)
get_free (fp ∷ fps) mp fpn = (done, fp, record mp { free_fp_list = fps })

-- `*retfpn` is `fpn` before the call.
unfoldable pub get_freefp : Memphy → ℕ → Status × ℕ × Memphy
unfolding get_free
get_freefp mp fpn = get_free mp.free_fp_list mp fpn

unfoldable pub put_freefp : Memphy → ℕ → Memphy
put_freefp mp fpn = record mp { free_fp_list = fpn ∷ mp.free_fp_list }

-- `storage` is what `malloc` returns, of `max_size` bytes, and `mp` the uninitialised record.
unfoldable pub init_memphy : (storage wild : List ℕ) → Memphy → ℕ → ℕ → Memphy
init_memphy storage wild mp max_size randomflg =
    let mp' = (format wild (record mp { storage = storage; maxsz = max_size }) paging_pagesz).1 in
    if randomflg == 0
    then record mp' { rdmflg = false; cursor = 0 }
    else record mp' { rdmflg = true }
