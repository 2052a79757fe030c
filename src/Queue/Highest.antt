-- ===== src/Queue/Highest.antt =====
-- The two loops of `dequeue`: which index the search ends with, and what the shift leaves.
use co2018_assignment.Base.{
  ℕ, suc, ◌+◌, ◌-◌, ◌≤◌, ◌<◌, ◌≡◌, refl, ap, sym, subst, ◌∙◌, Option, some, List, [], ◌∷◌, ◌++◌,
  map, length, ltb, All, All-append, All-mono, get_elem?, set-append, store_at-in_range, store_at,
  length-append, append-nil, append_assoc, Bool-cases, inl, inr, arith, if◌then◌else◌,
}
use co2018_assignment.Queue.{Schedulable, deref, find_highest, shift_down}

deref_cell :
    {P : Type 0} (before : List P) (y : P) (after : List P) (rest : List (Option P))
    → deref (map some (before ++ (y ∷ after)) ++ rest) (length before) ≡ some y
unfolding deref
deref_cell [] y after rest = refl
deref_cell (x ∷ before) y after rest = deref_cell before y after rest

module _ {P : Type 0} ⦃s : Schedulable P⦄ where
  -- `chosen` has the highest priority of `xs`, and is the first that has.
  pub record IsHighest (xs before : List P) (chosen : P) (after : List P) : Type 0 where
    pub split : xs ≡ before ++ (chosen ∷ after)
    pub lower : All (λ x. s.priority x < s.priority chosen) before
    pub no_higher : All (λ x. s.priority x ≤ s.priority chosen) after

  pub record Found (xs : List P) (result : Option ℕ) : Type 0 where
    pub before : List P
    pub chosen : P
    pub after : List P
    pub index : result ≡ some (length before)
    pub highest : IsHighest xs before chosen after

  find_highest_step :
      (proc : List (Option P)) (i left best : ℕ) (w b : P)
      → deref proc i ≡ some w
      → deref proc best ≡ some b
      → find_highest proc i (suc left) best
        ≡ find_highest proc (i + 1) left (if ltb (s.priority b) (s.priority w) then i else best)
  unfolding find_highest
  find_highest_step proc i left best w b hi hb = rw (hi, hb)

  module _ (xs : List P) (rest : List (Option P)) where
    deref-split :
        (before : List P) (y : P) (after : List P) (i : ℕ)
        → xs ≡ before ++ (y ∷ after)
        → i ≡ length before
        → deref (map some xs ++ rest) i ≡ some y
    deref-split before y after i e k = rw (e, k) (deref_cell before y after rest)

    -- `ys ++ b ∷ zs` has been searched, and `b` is the best of it.
    search_rest :
        (ws ys : List P) (b : P) (zs : List P) (i : ℕ)
        → xs ≡ ys ++ (b ∷ (zs ++ ws))
        → i ≡ length ys + suc (length zs)
        → All (λ x. s.priority x < s.priority b) ys
        → All (λ x. s.priority x ≤ s.priority b) zs
        → Found xs (find_highest (map some xs ++ rest) i (length ws) (length ys))
    search_rest [] ys b zs i e k low up = record {
      before = ys;
      chosen = b;
      after = zs;
      index = unfold find_highest in refl;
      highest = record { split = e ∙ rw append-nil; lower = low; no_higher = up };
    }
    search_rest (w ∷ ws) ys b zs i e k low up =
        let at_i : i ≡ length (ys ++ (b ∷ zs)) = k ∙ sym (length-append ys (b ∷ zs)) in
        let here : deref (map some xs ++ rest) i ≡ some w =
          deref-split (ys ++ (b ∷ zs)) w ws i (e ∙ rw append_assoc) at_i in
        let best : deref (map some xs ++ rest) (length ys) ≡ some b =
          deref-split ys b (zs ++ (w ∷ ws)) (length ys) e refl in
        rw (find_highest_step (map some xs ++ rest) i (length ws) (length ys) w b here best)
          (elim (Bool-cases (ltb (s.priority b) (s.priority w))) [
            | inl better ↦ rw better (
                subst (λ t. Found xs (find_highest (map some xs ++ rest) (i + 1) (length ws) t))
                  (sym at_i)
                  (search_rest ws (ys ++ (b ∷ zs)) w [] (i + 1) (e ∙ rw append_assoc)
                    (omega (arith, at_i))
                    (All-append _ ys (b ∷ zs) (All-mono _ _ ys (λ a h. ground arith) low)
                      (ground arith, All-mono _ _ zs (λ a h. ground arith) up))
                    tt))
            | inr worse ↦ rw worse (
                search_rest ws ys b (zs ++ (w ∷ [])) (i + 1) (e ∙ rw append_assoc)
                  (omega (arith, k, length-append zs (w ∷ []))) low
                  (All-append _ zs (w ∷ []) up (ground arith, tt)))
          ])

    -- The search from the start, as `dequeue` makes it.
    pub search_all :
        (x : P) (ws : List P)
        → xs ≡ x ∷ ws
        → Found xs (find_highest (map some xs ++ rest) 0 (suc (length ws)) 0)
    search_all x ws e =
        let first : deref (map some xs ++ rest) 0 ≡ some x = deref-split [] x ws 0 e refl in
        rw (find_highest_step (map some xs ++ rest) 0 (length ws) 0 x x first first)
          (rw (same (s.priority x)) (search_rest ws [] x [] 1 e refl tt tt))
      where
        same : (n : ℕ) → ◌≡◌ {A = ℕ} (if ltb n n then 0 else 0) 0
        same n = ground arith

get_second {ℓ} :
    {A : Type ℓ} (pre : List A) (y z : A) (tl : List A)
    → get_elem? (pre ++ (y ∷ z ∷ tl)) (suc (length pre)) ≡ some z
get_second [] y z tl = refl
get_second (x ∷ pre) y z tl = get_second pre y z tl

-- One round of the shift.
shift_down_step {ℓ} :
    {A : Type ℓ} (pre : List A) (y z : A) (tl : List A) (left i : ℕ)
    → i ≡ length pre + 1
    → shift_down (pre ++ (y ∷ z ∷ tl)) i (suc left) ≡ shift_down (pre ++ (z ∷ z ∷ tl)) (i + 1) left
unfolding shift_down
shift_down_step {A} pre y z tl left i e = rw (read, write)
  where
    read : get_elem? (pre ++ (y ∷ z ∷ tl)) i ≡ some z
    read =
        subst (λ (t : ℕ). get_elem? (pre ++ (y ∷ z ∷ tl)) t ≡ some z) (omega (arith, e))
          (get_second pre y z tl)

    write : store_at (pre ++ (y ∷ z ∷ tl)) (i - 1) z ≡ some (pre ++ (z ∷ z ∷ tl))
    write =
        subst (λ (t : ℕ). store_at (pre ++ (y ∷ z ∷ tl)) t z ≡ some (pre ++ (z ∷ z ∷ tl)))
          (omega (arith, e))
          (store_at-in_range (pre ++ (y ∷ z ∷ tl)) (length pre) z
              (omega (arith, length-append pre (y ∷ z ∷ tl)))
            ∙ ap some (set-append pre y z (z ∷ tl)))

abbrev pub last_of {ℓ} : {A : Type ℓ} → A → List A → A
last_of y [] = y
last_of y (z ∷ zs) = last_of z zs

-- The cells after the first move down by one; the last of them stays as it was too.
pub shift_down_lem {ℓ} :
    {A : Type ℓ} (ys pre : List A) (y : A) (rest arr : List A) (i : ℕ)
    → arr ≡ pre ++ (y ∷ (ys ++ rest))
    → i ≡ length pre + 1
    → shift_down arr i (length ys) ≡ some (pre ++ (ys ++ (last_of y ys ∷ rest)))
shift_down_lem [] pre y rest arr i ea ei = rw ea (unfold shift_down in refl)
shift_down_lem (z ∷ zs) pre y rest arr i ea ei = rw ea (
    shift_down_step pre y z (zs ++ rest) (length zs) i ei
    ∙ shift_down_lem zs (pre ++ (z ∷ [])) z rest (pre ++ (z ∷ z ∷ (zs ++ rest))) (i + 1)
        (sym (append_assoc pre (z ∷ []) (z ∷ (zs ++ rest))))
        (omega (arith, ei, length-append pre (z ∷ [])))
    ∙ ap some (append_assoc pre (z ∷ []) (zs ++ (last_of z zs ∷ rest))))
