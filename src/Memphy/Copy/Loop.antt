-- ===== src/Memphy/Copy/Loop.antt =====
-- The loop of `__swap_cp_page`, and what it has copied when it ends.
use co2018_assignment.Base.{
  ℕ, zero, suc, ◌+◌, ◌*◌, ◌≤◌, ◌<◌, ◌≡◌, refl, sym, ap, ◌∙◌, ◌⊎◌, true, Option, some, length,
  get_elem?, get_elem?_of_lt, set, length-set, get_elem?-set_self, get_elem?-set_ne,
  store_at-in_range, arith, Status, done, ◌>>=◌,
}
use native.Mathlib.Decide.{dec_lt}
use co2018_assignment.Memphy.{Memphy, paging_pagesz, read, write}

-- `uninit i` is what the local variable `data` holds at the start of round `i`.
unfoldable pub copy_loop :
    (ℕ → ℕ) → (left cellidx : ℕ) → Memphy → ℕ → Memphy → ℕ → Option (Memphy × Memphy)
copy_loop uninit zero cellidx src srcfpn dst dstfpn = some (src, dst)
copy_loop uninit (suc left) cellidx src srcfpn dst dstfpn = do
  (_, value, src') ← read src (srcfpn * paging_pagesz + cellidx) (uninit cellidx)
  (_, dst') ← write dst (dstfpn * paging_pagesz + cellidx) value
  copy_loop uninit left (cellidx + 1) src' srcfpn dst' dstfpn

unfoldable pub swap_cp_page : (ℕ → ℕ) → Memphy → ℕ → Memphy → ℕ → Option (Status × Memphy × Memphy)
unfolding copy_loop
swap_cp_page uninit src srcfpn dst dstfpn = do
  (src', dst') ← copy_loop uninit paging_pagesz 0 src srcfpn dst dstfpn
  some (done, src', dst')

abbrev pub byte_at : Memphy → ℕ → Option ℕ
byte_at mp a = get_elem? mp.storage a

-- The cells from `lo` below `hi` of the frame hold the bytes of the source; all else is as before.
pub record Copied (src : Memphy) (srcfpn dstfpn lo hi : ℕ) (dst dst' : Memphy) : Type 0 where
  pub inside :
      (i : ℕ)
      → lo ≤ i
      → i < hi
      → byte_at dst' (dstfpn * paging_pagesz + i) ≡ byte_at src (srcfpn * paging_pagesz + i)
  pub outside :
      (a : ℕ)
      → (a < dstfpn * paging_pagesz + lo) ⊎ (dstfpn * paging_pagesz + hi ≤ a)
      → byte_at dst' a ≡ byte_at dst a
  pub same_length : length dst'.storage ≡ length dst.storage
  pub same_rest : record dst' { storage = dst.storage } ≡ dst

module _ (uninit : ℕ → ℕ) (src : Memphy) (srcfpn dstfpn : ℕ) (random : src.rdmflg ≡ true) where
  abbrev written : Memphy → ℕ → ℕ → Memphy
  written dst i v = record dst { storage = set dst.storage (dstfpn * paging_pagesz + i) v }

  copy_loop_step :
      (left i v : ℕ) (dst : Memphy)
      → dst.rdmflg ≡ true
      → byte_at src (srcfpn * paging_pagesz + i) ≡ some v
      → dstfpn * paging_pagesz + i < length dst.storage
      → copy_loop uninit (suc left) i src srcfpn dst dstfpn
        ≡ copy_loop uninit left (i + 1) src srcfpn (written dst i v) dstfpn
  unfolding copy_loop read write
  copy_loop_step left i v dst rd e lt =
      simp (random, rd, e, store_at-in_range dst.storage (dstfpn * paging_pagesz + i) v lt)

  Copied-step :
      (i hi v : ℕ) (dst dst' : Memphy)
      → byte_at src (srcfpn * paging_pagesz + i) ≡ some v
      → dstfpn * paging_pagesz + i < length dst.storage
      → i < hi
      → Copied src srcfpn dstfpn (i + 1) hi (written dst i v) dst'
      → Copied src srcfpn dstfpn i hi dst dst'
  Copied-step i hi v dst dst' e lt below c = record {
    inside = λ j lo up. elim (dec_lt i j) [
      | yes later ↦ c.inside j (omega arith) up
      | no now ↦ first j (omega arith)
    ];
    outside = λ a out.
        c.outside a (omega arith)
        ∙ get_elem?-set_ne dst.storage (dstfpn * paging_pagesz + i) a v (omega arith);
    same_length = c.same_length ∙ length-set dst.storage (dstfpn * paging_pagesz + i) v;
    same_rest = ap {A = Memphy} {B = Memphy} (λ d. record d { storage = dst.storage }) c.same_rest;
  }
    where
      first :
          (j : ℕ)
          → i ≡ j
          → byte_at dst' (dstfpn * paging_pagesz + j) ≡ byte_at src (srcfpn * paging_pagesz + j)
      first j same = rw (← same) (
          c.outside (dstfpn * paging_pagesz + i) (omega arith)
          ∙ get_elem?-set_self dst.storage (dstfpn * paging_pagesz + i) v lt
          ∙ sym e)

  pub copy_loop-Copied :
      (left i : ℕ) (dst : Memphy)
      → dst.rdmflg ≡ true
      → i + left ≡ 256
      → (srcfpn + 1) * paging_pagesz ≤ length src.storage
      → (dstfpn + 1) * paging_pagesz ≤ length dst.storage
      → (dst' : Memphy) × (copy_loop uninit left i src srcfpn dst dstfpn ≡ some (src, dst'))
        × Copied src srcfpn dstfpn i 256 dst dst'
  copy_loop-Copied zero i dst rd e fs fd = (
    dst,
    unfold copy_loop in refl,
    record {
      inside = λ j lo up. absurd (omega arith);
      outside = λ a out. refl;
      same_length = refl;
      same_rest = refl;
    },
  )
  copy_loop-Copied (suc left) i dst rd e fs fd =
      let (v, at) = get_elem?_of_lt src.storage (srcfpn * paging_pagesz + i) (omega arith) in
      let lt : dstfpn * paging_pagesz + i < length dst.storage = omega arith in
      let (dst', ran, c) =
        copy_loop-Copied left (i + 1) (written dst i v) rd (omega arith) fs
          (omega (arith, length-set dst.storage (dstfpn * paging_pagesz + i) v)) in
      (
        dst',
        copy_loop_step left i v dst rd at lt ∙ ran,
        Copied-step i 256 v dst dst' at lt (omega arith) c,
      )
