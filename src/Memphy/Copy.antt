-- ===== src/Memphy/Copy.antt =====
-- `__swap_cp_page` of ossim_source_code/src/mm.c, between two different devices. The tests for null
-- pointers and negative frame numbers have no counterpart here.
mod Loop
pub use Loop.{swap_cp_page, byte_at, Copied}
use co2018_assignment.Base.{ℕ, ◌+◌, ◌*◌, ◌≤◌, ◌≡◌, ap, ◌∙◌, true, Option, some, length, arith, done}
use co2018_assignment.Memphy.{Memphy, paging_pagesz}
use Loop.{copy_loop-Copied}

-- Between two random access devices, with both frames inside their storage, the copy succeeds: the
-- 256 bytes of the source frame are in the target frame, no other byte of the target changes, and
-- the source stays as it is.
pub swap_cp_page_lem :
    (uninit : ℕ → ℕ) (src dst : Memphy) (srcfpn dstfpn : ℕ)
    → src.rdmflg ≡ true
    → dst.rdmflg ≡ true
    → (srcfpn + 1) * paging_pagesz ≤ length src.storage
    → (dstfpn + 1) * paging_pagesz ≤ length dst.storage
    → (dst' : Memphy) × (swap_cp_page uninit src srcfpn dst dstfpn ≡ some (done, src, dst'))
      × Copied src srcfpn dstfpn 0 256 dst dst'
unfolding swap_cp_page
swap_cp_page_lem uninit src dst srcfpn dstfpn rs rd fs fd =
    let (dst', e, c) =
      copy_loop-Copied uninit src srcfpn dstfpn rs 256 0 dst rd (omega arith) fs fd in
    (dst', rw e, c)
