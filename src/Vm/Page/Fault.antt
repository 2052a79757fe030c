-- ===== src/Vm/Page/Fault.antt =====
-- Page faults: `pg_getpage` of a page that is not present.
use co2018_assignment.Base.{
  ℕ, ◌+◌, ◌*◌, ◌%◌, ◌^◌, ◌<◌, ◌≤◌, ◌≡◌, ◌≢◌, refl, ap, ◌∙◌, true, false, some, length, get_elem?,
  set, List, [], ◌∷◌, ◌++◌, arith, done, failed, store_at-in_range, get_elem?-set_self,
  get_elem?-set_ne, length-set, set-set, lt_of_get_elem?,
}
use co2018_assignment.Memphy.{Memphy, get_freefp, paging_pagesz}
use co2018_assignment.Memphy.Copy.{Copied, swap_cp_page, swap_cp_page_lem}
use co2018_assignment.Pte.{swapped_mask, page_present, pte_set_swap, pte_set_fpn}
use co2018_assignment.Pte.Fields.{setbit-pte_set_fpn, pte_set_fpn-read}
use co2018_assignment.Vm.{Mm, Caller}
use co2018_assignment.Vm.Page.{
  Locals, enlist_pgn_node, remap, swap_out, with_frame, with_victim, bring_in, pg_getpage, frame_of,
}
use co2018_assignment.Vm.Page.Victim.{find_victim_page_lem, find_victim_page_empty}

-- The directory after a swap: the entry of the victim and that of the page.
abbrev pub remapped : List ℕ → (vicpgn swpfpn pgn victim pte : ℕ) → List ℕ
remapped pgd vicpgn swpfpn pgn victim pte =
    set (set pgd vicpgn (pte_set_swap victim swapped_mask swpfpn)) pgn (pte_set_fpn pte vicpgn)

remap_lem :
    (pgd : List ℕ) (vicpgn swpfpn pgn victim pte : ℕ)
    → get_elem? pgd vicpgn ≡ some victim
    → get_elem? pgd pgn ≡ some pte
    → vicpgn ≢ pgn
    → pte < 2 ^ 32
    → remap pgd vicpgn swpfpn pgn ≡ some (remapped pgd vicpgn swpfpn pgn victim pte)
unfolding remap
remap_lem pgd vicpgn swpfpn pgn victim pte ev ep ne word = rw ev (
    rw (store_at-in_range pgd vicpgn swapped (lt_of_get_elem? pgd vicpgn ev)) (
      rw (get_elem?-set_ne pgd vicpgn pgn swapped ne ∙ ep) (
        rw (store_at-in_range pgd₁ pgn mapped lt) (
          rw (get_elem?-set_self pgd₁ pgn mapped lt) (
            rw (setbit-pte_set_fpn pte vicpgn word) (
              store_at-in_range (set pgd₁ pgn mapped) pgn mapped
                (omega (arith, lt, length-set pgd₁ pgn mapped))
              ∙ ap some (set-set pgd₁ pgn mapped mapped)))))))
  where
    swapped : ℕ
    swapped = pte_set_swap victim swapped_mask swpfpn

    mapped : ℕ
    mapped = pte_set_fpn pte vicpgn

    pgd₁ : List ℕ
    pgd₁ = set pgd vicpgn swapped

    lt : pgn < length pgd₁
    lt = omega (arith, length-set pgd vicpgn swapped, lt_of_get_elem? pgd pgn ep)

-- The process after a fault: the devices and the directory as given, and the page enlisted.
abbrev pub after_fault : Caller → (pgd fifo : List ℕ) → (pgn : ℕ) → Memphy → Caller
after_fault caller pgd fifo pgn mswp =
    let mm : Mm = caller.mm in
    record caller {
      mm = record mm { pgd = pgd; fifo_pgn = enlist_pgn_node fifo pgn };
      active_mswp = mswp;
    }

module _ (u : Locals) (caller : Caller) (pgn fpn pte : ℕ)
    (entry : get_elem? caller.mm.pgd pgn ≡ some pte) (absent : page_present pte ≡ false) where
  -- A page fault without a victim fails and changes nothing.
  pub fault_without_victim :
      caller.mm.fifo_pgn ≡ [] → pg_getpage u caller pgn fpn ≡ some (failed, fpn, caller)
  unfolding pg_getpage bring_in with_victim frame_of
  fault_without_victim e = simp (entry, absent, find_victim_page_empty caller.mm u.vicpgn e)

  module _ (xs : List ℕ) (v : ℕ) (fifo : caller.mm.fifo_pgn ≡ xs ++ (v ∷ [])) where
    module _ (f : ℕ) (fs : List ℕ) (free : caller.active_mswp.free_fp_list ≡ f ∷ fs) (victim : ℕ)
        (evicted : get_elem? caller.mm.pgd v ≡ some victim) (other : v ≢ pgn) (word : pte < 2 ^ 32)
        (ram : caller.mram.rdmflg ≡ true) (swap : caller.active_mswp.rdmflg ≡ true)
        (source : (v + 1) * paging_pagesz ≤ length caller.mram.storage)
        (target : (f + 1) * paging_pagesz ≤ length caller.active_mswp.storage) where
      abbrev popped : Memphy
      popped = let mp : Memphy = caller.active_mswp in record mp { free_fp_list = fs }

      abbrev victim_gone : Caller
      victim_gone =
          let mm : Mm = caller.mm in
          record caller { mm = record mm { fifo_pgn = xs }; active_mswp = popped }

      swap_out_step :
          (mswp : Memphy)
          → swap_cp_page u.bytes caller.mram v popped f ≡ some (done, caller.mram, mswp)
          → swap_out u victim_gone v f pgn
            ≡ some
                (done, after_fault caller (remapped caller.mm.pgd v f pgn victim pte) xs pgn mswp)
      unfolding swap_out
      swap_out_step mswp copied =
          rw copied (rw (remap_lem caller.mm.pgd v f pgn victim pte evicted entry other word) refl)

      pg_getpage_step :
          (mswp : Memphy)
          → swap_cp_page u.bytes caller.mram v popped f ≡ some (done, caller.mram, mswp)
          → pg_getpage u caller pgn fpn
            ≡ frame_of pgn fpn
                (done, after_fault caller (remapped caller.mm.pgd v f pgn victim pte) xs pgn mswp)
      unfolding pg_getpage bring_in with_victim with_frame get_freefp
      pg_getpage_step mswp copied = simp (
        entry,
        absent,
        find_victim_page_lem caller.mm u.vicpgn xs v fifo,
        free,
        swap_out_step mswp copied,
      )

      frame_of_step :
          (mswp : Memphy)
          → let after =
              after_fault caller (remapped caller.mm.pgd v f pgn victim pte) xs pgn mswp in
            frame_of pgn fpn (done, after) ≡ some (done, v % 2 ^ 13, after)
      unfolding frame_of
      frame_of_step mswp = rw found (rw (pte_set_fpn-read pte v word).2 refl)
        where
          found :
              get_elem? (remapped caller.mm.pgd v f pgn victim pte) pgn ≡ some (pte_set_fpn pte v)
          found = get_elem?-set_self _ pgn _ (
              omega (
                arith,
                lt_of_get_elem? caller.mm.pgd pgn entry,
                length-set caller.mm.pgd v (pte_set_swap victim swapped_mask f),
              ))

      -- A page fault with a victim, the oldest page of the list, and a free frame of the swap device.
      -- It succeeds, and the frame that is given is the low 13 bits of the victim's page number. The
      -- frame of the memory with the victim's page number is copied to the frame of the swap device,
      -- which is taken off the list of free frames; the memory does not change, so that nothing is
      -- loaded for the page. The directory maps the page to that frame and the victim to the swap
      -- frame, and the page is enlisted. Both devices have random access and hold the frames, the
      -- victim is not the page itself and has an entry, and the page's entry is a word.
      pub page_fault :
          (mswp : Memphy) × (pg_getpage u caller pgn fpn
            ≡ some (
              done,
              v % 2 ^ 13,
              after_fault caller (remapped caller.mm.pgd v f pgn victim pte) xs pgn mswp,
            ))
          × Copied caller.mram v f 0 256 popped mswp
      page_fault =
          let (mswp, copied, c) =
            swap_cp_page_lem u.bytes caller.mram popped v f ram swap source target in
          (mswp, pg_getpage_step mswp copied ∙ frame_of_step mswp, c)

    -- A page fault with no free frame in the swap device fails, and the victim is lost from the list
    -- of pages all the same.
    pub fault_without_frame :
        caller.active_mswp.free_fp_list ≡ []
        → let mm : Mm = caller.mm in
          pg_getpage u caller pgn fpn
          ≡ some (failed, fpn, record caller { mm = record mm { fifo_pgn = xs } })
    unfolding pg_getpage bring_in with_victim with_frame frame_of get_freefp
    fault_without_frame e =
        simp (entry, absent, find_victim_page_lem caller.mm u.vicpgn xs v fifo, e)
