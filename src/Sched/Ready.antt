-- ===== src/Sched/Ready.antt =====
-- What `queue_empty` reports.
use co2018_assignment.Base.{
  ℕ, zero, suc, ◌≡◌, ◌⊎◌, refl, inl, inr, true, false, ap, sym, subst, Bool, ◌∙◌, some, List, [],
  ◌∷◌, length, get_elem?, ◌==◌, ◌&&◌, arith,
}
use co2018_assignment.Base.Int.{pos, negsuc}
use co2018_assignment.Queue.{Queue, empty}
use co2018_assignment.Queue.Content.{Holds}
use co2018_assignment.Queue.Refine.{empty_lem}
use co2018_assignment.Sched.{Sched, max_prio, all_empty, queue_empty}
use co2018_assignment.Sched.Levels.{Levels}
use co2018_assignment.Sched.Dispatch.{IsIdle}

-- Some level holds a process.
pub record IsReady {ℓ} {P : Type ℓ} (xss : List (List P)) : Type ℓ where
  pub level : ℕ
  pub first : P
  pub others : List P
  pub at : get_elem? xss level ≡ some (first ∷ others)

nonzero : (n : ℕ) → (suc n == 0) ≡ false
nonzero n = ground arith

module _ {P : Type 0} where
  first_level :
      (q : Queue P) (qs : List (Queue P)) {b : Bool}
      → empty (some q) ≡ b
      → all_empty (q ∷ qs) ≡ (b && all_empty qs)
  unfolding all_empty
  first_level q qs e = ap (λ b. b && all_empty qs) e

  IsIdle-cons :
      (xss : List (List P)) → IsIdle xss (length xss) → IsIdle ([] ∷ xss) (suc (length xss))
  IsIdle-cons xss all zero lt = refl
  IsIdle-cons xss all (suc k) lt = all k (omega arith)

  all_empty_cases :
      (qs : List (Queue P)) (xss : List (List P))
      → length qs ≡ length xss
      → ((i : ℕ) (q : Queue P) (xs : List P)
          → get_elem? qs i ≡ some q
          → get_elem? xss i ≡ some xs
          → Holds q xs)
      → ((all_empty qs ≡ true) × IsIdle xss (length xss)) ⊎ ((all_empty qs ≡ false) × IsReady xss)
  unfolding all_empty
  all_empty_cases [] [] e h = inl (refl, λ j lt. absurd (omega arith))
  all_empty_cases [] (xs ∷ xss) e h = absurd (omega (arith, e))
  all_empty_cases (q ∷ qs) [] e h = absurd (omega (arith, e))
  all_empty_cases (q ∷ qs) ((x ∷ xs) ∷ xss) e h = inr (
    first_level q qs (empty_lem q (x ∷ xs) (h 0 q (x ∷ xs) refl refl) ∙ nonzero (length xs)),
    record { level = 0; first = x; others = xs; at = refl },
  )
  all_empty_cases (q ∷ qs) ([] ∷ xss) e h =
      elim (all_empty_cases qs xss (omega (arith, e)) (λ i. h (suc i))) [
        | inl (idle, all) ↦
            inl (first_level q qs (empty_lem q [] (h 0 q [] refl refl)) ∙ idle, IsIdle-cons xss all)
        | inr (busy, r) ↦ inr (
          first_level q qs (empty_lem q [] (h 0 q [] refl refl)) ∙ busy,
          record { level = suc r.level; first = r.first; others = r.others; at = r.at },
        )
      ]

  -- Where the levels hold the lists `xss`, and `ready_queue` and `run_queue` are empty, as nothing fills
  -- them, `queue_empty` returns 1 if no level holds a process, and -1 if some level does.
  pub queue_empty_lem :
      {s : Sched P} {xss : List (List P)}
      → Levels s xss
      → s.ready_queue.size ≡ 0
      → s.run_queue.size ≡ 0
      → ((queue_empty s ≡ pos 1) × IsIdle xss max_prio) ⊎ ((queue_empty s ≡ negsuc 0) × IsReady xss)
  unfolding queue_empty empty
  queue_empty_lem {s} {xss} l ready run =
      elim (all_empty_cases s.mlq_ready_queue xss (l.queues ∙ sym l.lists) l.each) [
        | inl (idle, all) ↦ inl (rw (idle, ready, run) refl, subst (IsIdle xss) l.lists all)
        | inr (busy, r) ↦ inr (rw busy refl, r)
      ]
