-- ===== src/Vm/Page/Victim.antt =====
-- Which page `find_victim_page` chooses.
use co2018_assignment.Base.{ℕ, ◌≡◌, refl, ap, ◌∙◌, List, [], ◌∷◌, ◌++◌, done, failed}
use co2018_assignment.Vm.{Mm}
use co2018_assignment.Vm.Page.{enlist_pgn_node, drop_last, find_victim_page, victim_of}

drop_last-append : (pg : ℕ) (xs : List ℕ) (v : ℕ) → drop_last pg (xs ++ (v ∷ [])) ≡ (pg ∷ xs, v)
unfolding drop_last
drop_last-append pg [] v = refl
drop_last-append pg (x ∷ xs) v = rw (drop_last-append x xs v)

victim_of-append :
    (mm : Mm) (retpgn : ℕ) (xs : List ℕ) (v : ℕ)
    → victim_of mm retpgn (xs ++ (v ∷ [])) ≡ (done, v, record mm { fifo_pgn = xs })
unfolding victim_of
victim_of-append mm retpgn [] v = refl
victim_of-append mm retpgn (x ∷ xs) v = rw (drop_last-append x xs v)

-- The victim is the last of the list, and is taken off it: the page that was enlisted first.
pub find_victim_page_lem :
    (mm : Mm) (retpgn : ℕ) (xs : List ℕ) (v : ℕ)
    → mm.fifo_pgn ≡ xs ++ (v ∷ [])
    → find_victim_page mm retpgn ≡ (done, v, record mm { fifo_pgn = xs })
unfolding find_victim_page
find_victim_page_lem mm retpgn xs v e = ap (victim_of mm retpgn) e ∙ victim_of-append mm retpgn xs v

-- From an empty list there is no victim.
pub find_victim_page_empty :
    (mm : Mm) (retpgn : ℕ) → mm.fifo_pgn ≡ [] → find_victim_page mm retpgn ≡ (failed, retpgn, mm)
unfolding find_victim_page victim_of
find_victim_page_empty mm retpgn e = ap (victim_of mm retpgn) e

-- Enlisting the pages of a list one after the other.
abbrev pub enlist_all : List ℕ → List ℕ → List ℕ
enlist_all [] fifo = fifo
enlist_all (p ∷ ps) fifo = enlist_all ps (enlist_pgn_node fifo p)

enlist_all-last :
    (ps xs : List ℕ) (p : ℕ) → (ys : List ℕ) × (enlist_all ps (xs ++ (p ∷ [])) ≡ ys ++ (p ∷ []))
unfolding enlist_pgn_node
enlist_all-last [] xs p = (xs, refl)
enlist_all-last (q ∷ ps) xs p = enlist_all-last ps (q ∷ xs) p

-- Where the list came about by enlisting pages one after the other, the victim is the page that was
-- enlisted first, whatever pages came after it.
pub victim_is_first_in :
    (mm : Mm) (retpgn p : ℕ) (ps : List ℕ)
    → mm.fifo_pgn ≡ enlist_all (p ∷ ps) []
    → (rest : List ℕ) × (find_victim_page mm retpgn ≡ (done, p, record mm { fifo_pgn = rest }))
victim_is_first_in mm retpgn p ps e =
    let (ys, last) = enlist_all-last ps [] p in
    (ys, find_victim_page_lem mm retpgn ys p (e ∙ first ∙ last))
  where
    first : enlist_all (p ∷ ps) [] ≡ enlist_all ps ([] ++ (p ∷ []))
    first = unfold enlist_pgn_node in refl
