-- ===== src/Memphy/Frames.antt =====
-- The free frames of a device.
use co2018_assignment.Base.{
  ℕ, zero, suc, ◌+◌, ◌-◌, ◌*◌, ◌/◌, ◌≤◌, ◌<◌, ◌≡◌, ◌≢◌, refl, ◌∙◌, ap, List, [], ◌∷◌, get_elem?,
  some, not, All, All-mono, arith, Status, done, failed, ◌==◌,
}
use co2018_assignment.Memphy.{
  Memphy, paging_pagesz, frames_from, format, get_free, get_freefp, put_freefp, init_memphy,
}

abbrev pub Distinct : List ℕ → Type 0
Distinct [] = Unit
Distinct (x ∷ xs) = All (λ y. x ≢ y) xs × Distinct xs

-- A frame lies inside the device.
abbrev pub Fits : Memphy → ℕ → Type 0
Fits mp fpn = (fpn + 1) * paging_pagesz ≤ mp.maxsz

-- The free frames lie inside the device, and none is listed twice.
pub record IsPool (mp : Memphy) : Type 0 where
  pub fits : All (Fits mp) mp.free_fp_list
  pub distinct : Distinct mp.free_fp_list

frames_from-range :
    (iter left : ℕ) → All (λ f. (iter ≤ f) × (f < iter + left)) (frames_from iter left)
unfolding frames_from
frames_from-range iter zero = tt
frames_from-range iter (suc left) = (
  (omega arith, omega arith),
  All-mono (λ f. (iter + 1 ≤ f) × (f < iter + 1 + left)) (λ f. (iter ≤ f) × (f < iter + suc left))
      (frames_from (iter + 1) left) (λ f h. (omega arith, omega arith))
      (frames_from-range (iter + 1) left),
)

frames_from-Distinct : (iter left : ℕ) → Distinct (frames_from iter left)
unfolding frames_from
frames_from-Distinct iter zero = tt
frames_from-Distinct iter (suc left) = (
  All-mono _ (λ y. iter ≢ y) (frames_from (iter + 1) left) (λ f h. omega arith)
      (frames_from-range (iter + 1) left),
  frames_from-Distinct (iter + 1) left,
)

get-frames_from :
    (iter left i : ℕ) → i < left → get_elem? (frames_from iter left) i ≡ some (iter + i)
unfolding frames_from
get-frames_from iter zero i h = absurd (omega arith)
get-frames_from iter (suc left) zero h = ap some (omega arith)
get-frames_from iter (suc left) (suc i) h =
    get-frames_from (iter + 1) left i (omega arith) ∙ ap some (omega arith)

frames_from-cons :
    (iter left : ℕ) → 0 < left → frames_from iter left ≡ iter ∷ frames_from (iter + 1) (left - 1)
unfolding frames_from
frames_from-cons iter zero h = absurd (omega arith)
frames_from-cons iter (suc left) h = ap (λ (n : ℕ). iter ∷ frames_from (iter + 1) n) (omega arith)

-- A device of at least two pages.
format-list :
    (wild : List ℕ) (mp : Memphy)
    → 512 ≤ mp.maxsz
    → (format wild mp paging_pagesz).1
      ≡ record mp { free_fp_list = frames_from 0 (mp.maxsz / paging_pagesz) }
unfolding format
format-list wild mp h = ground (arith, frames_from-cons 0 (mp.maxsz / paging_pagesz))

init_memphy-list :
    (storage wild : List ℕ) (mp : Memphy) (size flag : ℕ)
    → 512 ≤ size
    → let mp' = init_memphy storage wild mp size flag in
      (mp'.free_fp_list ≡ frames_from 0 (size / paging_pagesz))
      × (mp'.maxsz ≡ size)
      × (mp'.storage ≡ storage)
      × (mp'.rdmflg ≡ not (flag == 0))
unfolding init_memphy
init_memphy-list storage wild mp size flag h =
    ground (arith, format-list wild (record mp { storage = storage; maxsz = size }) h)

-- `init_memphy` lists every frame of a device of two pages or more, in order, once, and none that
-- does not fit; it keeps the storage, and the device has random access unless the flag is 0.
pub init_memphy-IsPool :
    (storage wild : List ℕ) (mp : Memphy) (size flag : ℕ)
    → 512 ≤ size
    → let mp' = init_memphy storage wild mp size flag in
      IsPool mp'
      × ((i : ℕ) → (i + 1) * paging_pagesz ≤ size → get_elem? mp'.free_fp_list i ≡ some i)
      × (mp'.maxsz ≡ size)
      × (mp'.storage ≡ storage)
      × (mp'.rdmflg ≡ not (flag == 0))
init_memphy-IsPool storage wild mp size flag h =
    let (list, max, kept, random) = init_memphy-list storage wild mp size flag h in
    (
      record {
        fits =
            rw (list, max)
              (All-mono (λ f. (0 ≤ f) × (f < 0 + size / paging_pagesz))
                (λ f. (f + 1) * paging_pagesz ≤ size) (frames_from 0 (size / paging_pagesz))
                (λ f k. omega arith) (frames_from-range 0 (size / paging_pagesz)));
        distinct = rw list (frames_from-Distinct 0 (size / paging_pagesz));
      },
      λ i k.
          rw list
            (get-frames_from 0 (size / paging_pagesz) i (omega arith) ∙ ap some (omega arith)),
      max,
      kept,
      random,
    )

-- On a device of one page the list of free frames is frame 0, followed by what `malloc` left in the
-- link of its node, whatever that is.
pub init_memphy_one_page :
    (storage wild : List ℕ) (mp : Memphy) (size flag : ℕ)
    → 256 ≤ size
    → size < 512
    → (init_memphy storage wild mp size flag).free_fp_list ≡ 0 ∷ wild
unfolding init_memphy format
init_memphy_one_page storage wild mp size flag lo hi = ground arith

-- What `MEMPHY_get_freefp` does on a device.
pub data Handed (mp : Memphy) (fpn : ℕ) : Status × ℕ × Memphy → Type 0 where
  exhausted : mp.free_fp_list ≡ [] → Handed mp fpn (failed, fpn, mp)
  handed :
      (f : ℕ) (mp' : Memphy)
      → Fits mp f
      → All (λ g. f ≢ g) mp'.free_fp_list
      → IsPool mp'
      → put_freefp mp' f ≡ mp
      → Handed mp fpn (done, f, mp')

-- On a well formed pool, `MEMPHY_get_freefp` returns -1 where no frame is free, and then changes
-- nothing. Otherwise the frame that it hands out lies inside the device and is no longer listed, the
-- pool that is left is well formed, and giving the frame back at once restores the device.
pub get_freefp-Handed : (mp : Memphy) (fpn : ℕ) → IsPool mp → Handed mp fpn (get_freefp mp fpn)
unfolding get_freefp
get_freefp-Handed mp fpn p = go mp.free_fp_list refl p.fits p.distinct
  where
    go :
        (l : List ℕ)
        → mp.free_fp_list ≡ l
        → All (Fits mp) l
        → Distinct l
        → Handed mp fpn (get_free l mp fpn)
    go [] e fits distinct = exhausted e
    go (f ∷ fs) e fits distinct =
        handed f (record mp { free_fp_list = fs }) fits.0 distinct.0
          (record { fits = fits.1; distinct = distinct.1 }) (unfold put_freefp in ground (arith, e))

-- A frame that lies inside the device and is not listed can be put back on a well formed pool: the
-- pool stays well formed.
pub put_freefp-IsPool :
    (mp : Memphy) (f : ℕ)
    → IsPool mp
    → Fits mp f
    → All (λ g. f ≢ g) mp.free_fp_list
    → IsPool (put_freefp mp f)
unfolding put_freefp
put_freefp-IsPool mp f p fits new = record { fits = (fits, p.fits); distinct = (new, p.distinct) }
