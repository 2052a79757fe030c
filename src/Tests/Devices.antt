-- ===== src/Tests/Devices.antt =====
-- The devices, at two pages.
use co2018_assignment.Base.{
  ℕ, ◌+◌, ◌*◌, ◌≤◌, ◌<◌, ◌≡◌, ◌≢◌, refl, false, not, some, [], ◌∷◌, replicate, get_elem?, ◌==◌,
  if◌then◌else◌, arith, done,
}
use co2018_assignment.Memphy.{Memphy, paging_pagesz, read, write, init_memphy, get_freefp}
use co2018_assignment.Memphy.Access.{read-write}
use co2018_assignment.Memphy.Frames.{IsPool, Handed, init_memphy-IsPool, get_freefp-Handed}
use co2018_assignment.Memphy.Copy.{Copied, swap_cp_page, swap_cp_page_lem}
use co2018_assignment.Tests.{ram, swap}

read-write_example :
    (mp' : Memphy) × (write ram 5 9 ≡ some (done, mp'))
    × ((b junk : ℕ)
        → b < 512
        → (w : ℕ) × (read ram b junk ≡ some (done, w, ram))
          × (read mp' b junk ≡ some (done, if 5 == b then 9 else w, mp')))
read-write_example = read-write ram 5 9 refl (omega arith)

abbrev serial : Memphy
serial = record ram { rdmflg = false }

abbrev made : Memphy
made = init_memphy (replicate 512 0) (7 ∷ []) ram 512 1

init_memphy-IsPool_example :
    IsPool made
    × ((i : ℕ) → (i + 1) * paging_pagesz ≤ 512 → get_elem? made.free_fp_list i ≡ some i)
    × (made.maxsz ≡ 512)
    × (made.storage ≡ replicate 512 0)
    × (made.rdmflg ≡ not (1 == 0))
init_memphy-IsPool_example = init_memphy-IsPool (replicate 512 0) (7 ∷ []) ram 512 1 (omega arith)

one_ne_zero : ◌≢◌ {A = ℕ} 1 0
one_ne_zero = omega arith

swap-IsPool : IsPool swap
swap-IsPool = record {
  fits = (omega arith, (omega arith, tt));
  distinct = ((one_ne_zero, tt), (tt, tt));
}

get_freefp-Handed_example : Handed swap 0 (get_freefp swap 0)
get_freefp-Handed_example = get_freefp-Handed swap 0 swap-IsPool

ram-IsPool : IsPool ram
ram-IsPool = record { fits = tt; distinct = tt }

swap_cp_page_lem_example :
    (dst' : Memphy) × (swap_cp_page (λ _. 0) ram 1 swap 0 ≡ some (done, ram, dst'))
    × Copied ram 1 0 0 256 swap dst'
swap_cp_page_lem_example =
    swap_cp_page_lem (λ _. 0) ram swap 1 0 refl refl (omega arith) (omega arith)
