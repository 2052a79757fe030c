-- ===== src/Vm/Map/Range/Defs.antt =====
-- What is claimed of a range of `alloc_pages_range`.
use co2018_assignment.Base.{
  ℕ, ◌+◌, ◌^◌, ◌≤◌, ◌<◌, ◌≡◌, ◌⊎◌, Bool, true, false, Option, some, List, [], ◌∷◌, ◌++◌, get_elem?,
  set, Status, done, failed,
}
use co2018_assignment.Memphy.{Memphy}
use co2018_assignment.Pte.{page_present, pte_set_fpn}
use co2018_assignment.Vm.{Mm, Caller}

-- Every entry is a 32-bit word.
abbrev pub AreWords : List ℕ → Type 0
AreWords pgd = (i e : ℕ) → get_elem? pgd i ≡ some e → e < 2 ^ 32

-- The list with the frames of the first put in front one after the other.
abbrev pub push_all : List ℕ → List ℕ → List ℕ
push_all [] frames = frames
push_all (f ∷ fs) frames = push_all fs (f ∷ frames)

-- The entries from `pgit` below `hi`, before in `pgd` and after in `pgd'`: one that was present is as
-- it was, and one that was not has got the next of the frames, by `pte_set_fpn`. `pages` are these.
pub data Assigned (pgd pgd' : List ℕ) : (pgit hi : ℕ) → (pages frames : List ℕ) → Type 0 where
  covered : {pgit hi : ℕ} → pgit ≡ hi → Assigned pgd pgd' pgit hi [] []
  was_present :
      {pgit hi e : ℕ} {pages frames : List ℕ}
      → get_elem? pgd pgit ≡ some e
      → page_present e ≡ true
      → get_elem? pgd' pgit ≡ some e
      → Assigned pgd pgd' (pgit + 1) hi pages frames
      → Assigned pgd pgd' pgit hi pages frames
  newly_mapped :
      {pgit hi e f : ℕ} {pages frames : List ℕ}
      → get_elem? pgd pgit ≡ some e
      → page_present e ≡ false
      → get_elem? pgd' pgit ≡ some (pte_set_fpn e f)
      → page_present (pte_set_fpn e f) ≡ true
      → Assigned pgd pgd' (pgit + 1) hi pages frames
      → Assigned pgd pgd' pgit hi (pgit ∷ pages) (f ∷ frames)

-- The process with another directory, FIFO list and list of free frames.
abbrev pub with_pages : Caller → (pgd fifo_pgn free : List ℕ) → Caller
with_pages caller pgd fifo_pgn free =
    let mm : Mm = caller.mm in
    let mram : Memphy = caller.mram in
    record caller {
      mm = record mm { pgd = pgd; fifo_pgn = fifo_pgn };
      mram = record mram { free_fp_list = free };
    }

-- The pages from `pgit` below `hi` are mapped: the frames `taken` went from the memory to the list,
-- the new `pages` to the front of the FIFO list, and nothing else has changed.
pub record Mapped (caller : Caller) (pgit hi : ℕ) (frames frames' : List ℕ) (caller' : Caller)
    : Type 0 where
  pub pages : List ℕ
  pub taken : List ℕ
  pub pgd : List ℕ
  pub free : List ℕ
  pub assigned : Assigned caller.mm.pgd pgd pgit hi pages taken
  pub others : (i : ℕ) → (i < pgit) ⊎ (hi ≤ i) → get_elem? pgd i ≡ get_elem? caller.mm.pgd i
  pub pool : caller.mram.free_fp_list ≡ taken ++ free
  pub listed : frames' ≡ push_all taken frames
  pub result : caller' ≡ with_pages caller pgd (push_all pages caller.mm.fifo_pgn) free

-- `at` is a page of the range that is not present, and those before it are mapped.
pub record Reached (caller : Caller) (pgit hi : ℕ) (frames : List ℕ) (at : ℕ) (frames' : List ℕ)
    (caller' : Caller) : Type 0 where
  pub lower : pgit ≤ at
  pub upper : at < hi
  pub entry : ℕ
  pub there : get_elem? caller.mm.pgd at ≡ some entry
  pub absent : page_present entry ≡ false
  pub before : Mapped caller pgit at frames frames' caller'

-- The process, with the frames `fs` free in its memory.
abbrev pub with_free : Caller → List ℕ → Caller
with_free caller fs =
    let mram : Memphy = caller.mram in record caller { mram = record mram { free_fp_list = fs } }

pub data Allocation (mallocs : ℕ → Bool) (caller : Caller) (pgit hi : ℕ) (frames : List ℕ)
    : Option (Status × List ℕ × Caller) → Type 0 where
  mapped :
      {frames' : List ℕ} {caller' : Caller}
      → Mapped caller pgit hi frames frames' caller'
      → Allocation mallocs caller pgit hi frames (some (done, frames', caller'))
  out_of_frames :
      {at : ℕ} {frames' : List ℕ} {caller' : Caller}
      → Reached caller pgit hi frames at frames' caller'
      → caller'.mram.free_fp_list ≡ []
      → Allocation mallocs caller pgit hi frames (some (failed, frames', caller'))
  out_of_memory :
      {at f : ℕ} {fs frames' : List ℕ} {caller' : Caller}
      → Reached caller pgit hi frames at frames' caller'
      → mallocs at ≡ false
      → caller'.mram.free_fp_list ≡ f ∷ fs
      → Allocation mallocs caller pgit hi frames (some (failed, frames', with_free caller' fs))

-- The process after a page is mapped to the frame that is taken.
abbrev pub after_page : Caller → (pgit pte f : ℕ) → List ℕ → Caller
after_page caller pgit pte f fs =
    with_pages caller (set caller.mm.pgd pgit (pte_set_fpn pte f)) (pgit ∷ caller.mm.fifo_pgn) fs
