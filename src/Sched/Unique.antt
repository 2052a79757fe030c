-- ===== src/Sched/Unique.antt =====
-- The levels of ossim_source_code/src/sched.c hold one content.
use co2018_assignment.Base.{
  ℕ, suc, ◌≡◌, refl, sym, ap₂, ◌∙◌, Option, some, List, [], ◌∷◌, ◌++◌, map, length, get_elem?,
  arith,
}
use mathlib.Core.Option.{some-injective}
use co2018_assignment.Queue.{Queue}
use co2018_assignment.Queue.Content.{Holds}
use co2018_assignment.Sched.{Sched}
use co2018_assignment.Sched.Levels.{Levels, queue_at}

head_eq {ℓ} : {A : Type ℓ} {x y : A} {xs ys : List A} → x ∷ xs ≡ y ∷ ys → x ≡ y
head_eq e = cc

tail_eq {ℓ} : {A : Type ℓ} {x y : A} {xs ys : List A} → x ∷ xs ≡ y ∷ ys → xs ≡ ys
tail_eq e = cc

same_lists :
    {A : Type 0} (xs ys : List A)
    → length xs ≡ length ys
    → ((i : ℕ) (x y : A) → get_elem? xs i ≡ some x → get_elem? ys i ≡ some y → x ≡ y)
    → xs ≡ ys
same_lists [] [] l f = refl
same_lists [] (y ∷ ys) l f = absurd (omega (arith, l))
same_lists (x ∷ xs) [] l f = absurd (omega (arith, l))
same_lists (x ∷ xs) (y ∷ ys) l f =
    ap₂ (λ x xs. x ∷ xs) (f 0 x y refl refl)
      (same_lists xs ys (omega (arith, l)) (λ i x y e e'. f (suc i) x y e e'))

module _ {P : Type 0} where
  same_cells :
      (xs ys : List P) (rest rest' : List (Option P))
      → length xs ≡ length ys
      → map some xs ++ rest ≡ map some ys ++ rest'
      → xs ≡ ys
  same_cells [] [] rest rest' l e = refl
  same_cells [] (y ∷ ys) rest rest' l e = absurd (omega (arith, l))
  same_cells (x ∷ xs) [] rest rest' l e = absurd (omega (arith, l))
  same_cells (x ∷ xs) (y ∷ ys) rest rest' l e =
      ap₂ (λ x xs. x ∷ xs) (some-injective _ _ (head_eq e))
        (same_cells xs ys rest rest' (omega (arith, l)) (tail_eq e))

  same_content : {q : Queue P} {xs ys : List P} → Holds q xs → Holds q ys → xs ≡ ys
  same_content {q} {xs} {ys} h h' =
      same_cells xs ys h.rest h'.rest (omega (arith, h.count, h'.count)) (sym h.cells ∙ h'.cells)

  pub Levels-unique :
      {s : Sched P} {xss yss : List (List P)} → Levels s xss → Levels s yss → xss ≡ yss
  Levels-unique {s} {xss} {yss} l l' =
      same_lists xss yss (omega (arith, l.lists, l'.lists)) (λ i xs ys e e'.
        let (q, at, h, lt) = queue_at i xs l e in same_content h (l'.each i q ys at e'))
