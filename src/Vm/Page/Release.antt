-- ===== src/Vm/Page/Release.antt =====
-- What `free_pcb_memph` gives back.
use co2018_assignment.Base.{ℕ, zero, suc, ◌≡◌, refl, ap, subst, ◌∙◌, List, ◌∷◌, ◌++◌, replicate}
use co2018_assignment.Memphy.{Memphy, put_freefp}
use co2018_assignment.Memphy.Frames.{IsPool}
use co2018_assignment.Pte.{page_present, pte_fpn, paging_max_pgn}
use co2018_assignment.Vm.{Caller}
use co2018_assignment.Vm.Page.{free_pages, free_pcb_memph}

-- A device with frame 0 put back `n` times.
abbrev pub zeros_back : ℕ → Memphy → Memphy
zeros_back n mp = record mp { free_fp_list = replicate n 0 ++ mp.free_fp_list }

replicate-shift : (n : ℕ) (xs : List ℕ) → replicate n 0 ++ (0 ∷ xs) ≡ 0 ∷ (replicate n 0 ++ xs)
replicate-shift zero xs = refl
replicate-shift (suc n) xs = ap (◌∷◌ 0) (replicate-shift n xs)

free_pages-replicate :
    (n : ℕ) (caller : Caller)
    → free_pages (replicate n 0) caller ≡ record caller { mram = zeros_back n caller.mram }
unfolding free_pages page_present pte_fpn put_freefp
free_pages-replicate zero caller = refl
free_pages-replicate (suc n) caller =
    let mram : Memphy = caller.mram in
    free_pages-replicate n
      (record caller { mram = record mram { free_fp_list = 0 ∷ mram.free_fp_list } })
    ∙ ap (λ l. record caller { mram = record mram { free_fp_list = l } })
        (replicate-shift n mram.free_fp_list)

-- For a process whose directory is as `init_mm` left it, with no page present, `free_pcb_memph` puts
-- frame 0 of the memory back once for every entry, and changes nothing else: the free frames of the
-- memory are no longer distinct, so the same frame will be given to several pages.
pub free_pcb_memph_fresh :
    (caller : Caller)
    → caller.mm.pgd ≡ replicate paging_max_pgn 0
    → (free_pcb_memph caller ≡ record caller { mram = zeros_back paging_max_pgn caller.mram })
      × (IsPool (free_pcb_memph caller).mram → ⊥)
unfolding free_pcb_memph
free_pcb_memph_fresh caller fresh =
    (freed, λ p. twice (subst (λ (c : Caller). IsPool c.mram) freed p))
  where
    freed :
        free_pages caller.mm.pgd caller
        ≡ record caller { mram = zeros_back paging_max_pgn caller.mram }
    freed = ap (λ l. free_pages l caller) fresh ∙ free_pages-replicate paging_max_pgn caller

    twice : IsPool (zeros_back paging_max_pgn caller.mram) → ⊥
    twice p = p.distinct.0.0 refl
