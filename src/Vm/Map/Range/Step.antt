-- ===== src/Vm/Map/Range/Step.antt =====
-- One page of `alloc_pages_range`.
use co2018_assignment.Base.{
  ℕ, suc, ◌+◌, ◌^◌, ◌<◌, ◌≡◌, refl, ap, sym, subst, ◌∙◌, Bool, true, false, Option, some, List, [],
  ◌∷◌, length, get_elem?, get_elem?-set_ne, eq_of_get_elem?-set, set, store_at-in_range, arith,
  Status, done, failed, ◌>>=◌,
}
use native.Mathlib.Decide.{ℕ_discrete}
use co2018_assignment.Memphy.{Memphy, get_freefp}
use co2018_assignment.Pte.{page_present, pte_set_fpn}
use co2018_assignment.Pte.Fields.{pte_set_fpn-read}
use co2018_assignment.Vm.{Caller}
use co2018_assignment.Vm.Page.{enlist_pgn_node}
use co2018_assignment.Vm.Map.{map_tested, list_frame, take_frame, alloc_page, alloc_pages_loop}
use co2018_assignment.Vm.Map.Range.Defs.{
  AreWords, Assigned, covered, was_present, newly_mapped, with_free, after_page,
}

pub AreWords-set :
    (pgd : List ℕ) (i v : ℕ) → i < length pgd → v < 2 ^ 32 → AreWords pgd → AreWords (set pgd i v)
AreWords-set pgd i v lt word all j e at = elim (ℕ_discrete i j) [
  | yes same ↦ subst (λ (x : ℕ). x < 2 ^ 32) (eq_of_get_elem?-set pgd i j v lt same at) word
  | no other ↦ all j e (sym (get_elem?-set_ne pgd i j v other) ∙ at)
]

get_freefp-nil :
    (mp : Memphy) (fpn : ℕ) → mp.free_fp_list ≡ [] → get_freefp mp fpn ≡ (failed, fpn, mp)
unfolding get_freefp
get_freefp-nil mp fpn e = rw e refl

get_freefp-cons :
    (mp : Memphy) (fpn f : ℕ) (fs : List ℕ)
    → mp.free_fp_list ≡ f ∷ fs
    → get_freefp mp fpn ≡ (done, f, record mp { free_fp_list = fs })
unfolding get_freefp
get_freefp-cons mp fpn f fs e = rw e refl

-- What is not in the range may have been another entry before.
pub Assigned-set :
    (i v : ℕ) {pgd pgd' : List ℕ} {lo hi : ℕ} {pages frames : List ℕ}
    → i < lo
    → Assigned (set pgd i v) pgd' lo hi pages frames
    → Assigned pgd pgd' lo hi pages frames
Assigned-set i v lt (covered e) = covered e
Assigned-set i v {pgd} {lo = lo} lt (was_present e p e' rest) =
    was_present (sym (get_elem?-set_ne pgd i lo v (omega (arith, lt))) ∙ e) p e'
      (Assigned-set i v (omega (arith, lt)) rest)
Assigned-set i v {pgd} {lo = lo} lt (newly_mapped e p e' p' rest) =
    newly_mapped (sym (get_elem?-set_ne pgd i lo v (omega (arith, lt))) ∙ e) p e' p'
      (Assigned-set i v (omega (arith, lt)) rest)

module _ (caller : Caller) (pgit fpn : ℕ) (frames : List ℕ) where
  alloc_page-no_frame :
      (got : Bool)
      → caller.mram.free_fp_list ≡ []
      → alloc_page got caller pgit fpn frames ≡ some (failed, frames, caller)
  unfolding alloc_page take_frame
  alloc_page-no_frame got empty =
      ap (take_frame got caller pgit frames) (get_freefp-nil caller.mram fpn empty)

  taking :
      (got : Bool) (f : ℕ) (fs : List ℕ)
      → caller.mram.free_fp_list ≡ f ∷ fs
      → alloc_page got caller pgit fpn frames ≡ list_frame got (with_free caller fs) pgit f frames
  unfolding alloc_page take_frame
  taking got f fs free =
      ap (take_frame got caller pgit frames) (get_freefp-cons caller.mram fpn f fs free)

  alloc_page-no_memory :
      (f : ℕ) (fs : List ℕ)
      → caller.mram.free_fp_list ≡ f ∷ fs
      → alloc_page false caller pgit fpn frames ≡ some (failed, frames, with_free caller fs)
  unfolding list_frame
  alloc_page-no_memory f fs free = taking false f fs free

  module _ (pte : ℕ) (entry : get_elem? caller.mm.pgd pgit ≡ some pte)
      (lt : pgit < length caller.mm.pgd) (word : pte < 2 ^ 32) where
    tested :
        (f : ℕ) (fs : List ℕ)
        → map_tested (with_free caller fs) pgit f ≡ some (done, after_page caller pgit pte f fs)
    unfolding map_tested enlist_pgn_node
    tested f fs = rw entry (
        rw (store_at-in_range caller.mm.pgd pgit (pte_set_fpn pte f) lt)
          (rw ((pte_set_fpn-read pte f word).0) refl))

    alloc_page-mapped :
        (f : ℕ) (fs : List ℕ)
        → caller.mram.free_fp_list ≡ f ∷ fs
        → alloc_page true caller pgit fpn frames
          ≡ some (done, f ∷ frames, after_page caller pgit pte f fs)
    unfolding list_frame
    alloc_page-mapped f fs free =
        taking true f fs free
        ∙ ap (λ o. o >>= λ (t : Status × Caller). some (t.0, f ∷ frames, t.1)) (tested f fs)

module _ (mallocs : ℕ → Bool) (caller : Caller) (pgit left fpn pte : ℕ) (frames : List ℕ)
    (entry : get_elem? caller.mm.pgd pgit ≡ some pte) where
  pub skip_page :
      page_present pte ≡ true
      → alloc_pages_loop mallocs caller pgit (suc left) fpn frames
        ≡ alloc_pages_loop mallocs caller (pgit + 1) left fpn frames
  unfolding alloc_pages_loop
  skip_page present = rw entry (rw (present, ◌>>=◌) refl)

  pub then_go_on : Status × List ℕ × Caller → Option (Status × List ℕ × Caller)
  then_go_on (st, frames', caller') = elim st [
    | failed ↦ some (failed, frames', caller')
    | done ↦ alloc_pages_loop mallocs caller' (pgit + 1) left fpn frames'
  ]

  absent_page :
      page_present pte ≡ false
      → {r : Status × List ℕ × Caller} → alloc_page (mallocs pgit) caller pgit fpn frames ≡ some r
      → alloc_pages_loop mallocs caller pgit (suc left) fpn frames ≡ then_go_on r
  unfolding alloc_pages_loop then_go_on
  absent_page absent e = rw entry (rw (absent, ◌>>=◌, e) refl)

  pub no_frame :
      page_present pte ≡ false
      → caller.mram.free_fp_list ≡ []
      → alloc_pages_loop mallocs caller pgit (suc left) fpn frames ≡ some (failed, frames, caller)
  unfolding then_go_on
  no_frame absent empty =
      absent_page absent (alloc_page-no_frame caller pgit fpn frames (mallocs pgit) empty)

  pub no_memory :
      (f : ℕ) (fs : List ℕ)
      → page_present pte ≡ false
      → caller.mram.free_fp_list ≡ f ∷ fs
      → mallocs pgit ≡ false
      → alloc_pages_loop mallocs caller pgit (suc left) fpn frames
        ≡ some (failed, frames, with_free caller fs)
  unfolding then_go_on
  no_memory f fs absent free fails = absent_page absent (
      ap (λ got. alloc_page got caller pgit fpn frames) fails
      ∙ alloc_page-no_memory caller pgit fpn frames f fs free)

  pub map_step :
      (f : ℕ) (fs : List ℕ)
      → pgit < length caller.mm.pgd
      → pte < 2 ^ 32
      → page_present pte ≡ false
      → caller.mram.free_fp_list ≡ f ∷ fs
      → mallocs pgit ≡ true
      → alloc_pages_loop mallocs caller pgit (suc left) fpn frames
        ≡ alloc_pages_loop mallocs
            (after_page caller pgit pte f fs)
            (pgit + 1)
            left
            fpn
            (f ∷ frames)
  unfolding then_go_on
  map_step f fs lt word absent free works = absent_page absent (
      ap (λ got. alloc_page got caller pgit fpn frames) works
      ∙ alloc_page-mapped caller pgit fpn frames pte entry lt word f fs free)
