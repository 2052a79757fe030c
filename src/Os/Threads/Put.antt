-- ===== src/Os/Threads/Put.antt =====
-- A process that `put_proc` or `add_proc` of ossim_source_code/src/sched.c queues is counted once.
use co2018_assignment.Base.{
  ◌+◌, ◌≤◌, ◌≡◌, ◌⊎◌, inl, inr, sym, ap, subst, ◌∙◌, Bool, none, some, List, [], ◌∷◌, ◌++◌, length,
  get_elem?, set, arith, lt→ltb, le→ltb, get_elem?_of_lt,
}
use mathlib.Core.Option.{none-ne-some, some-injective}
use native.Mathlib.Decide.{dec_lt}
use co2018_assignment.Scan.Decimal.{if_true, if_false}
use co2018_assignment.Queue.{Schedulable, max_queue_size}
use co2018_assignment.Queue.Content.{offer}
use co2018_assignment.Sched.{Sched, max_prio, put_proc, add_proc}
use co2018_assignment.Sched.Levels.{
  Levels, Queued, put_proc_lem, add_proc_lem, put_proc_out_of_range,
}
use co2018_assignment.Os.Conserve.{one, count, total, count-append, total-set}

module _ {P : Type 0} ⦃o : Schedulable P⦄ (keep : P → Bool) where
  -- After a process was put into its level, there is one more at most.
  pub record Put (s : Sched P) (xss : List (List P)) (p : P) : Type 0 where
    pub lists : List (List P)
    pub levels : Levels s lists
    pub balance : total keep lists ≤ total keep xss + one keep p

  pub count-offer : (xs : List P) (p : P) → count keep (offer xs p) ≤ count keep xs + one keep p
  count-offer xs p = elim (dec_lt (length xs) max_queue_size) [
    | yes l ↦ omega (
      arith,
      ap (count keep) (if_true (xs ++ (p ∷ [])) xs (lt→ltb (length xs) max_queue_size l)),
      count-append keep xs (p ∷ []),
    )
    | no g ↦ omega (
      arith,
      ap (count keep)
          (if_false (xs ++ (p ∷ [])) xs (le→ltb (length xs) max_queue_size (omega (arith, g)))),
    )
  ]

  offered :
      (xss : List (List P)) (p : P) (xs : List P) (s : Sched P)
      → get_elem? xss (o.prio p) ≡ some xs
      → Levels s (set xss (o.prio p) (offer xs p))
      → Put s xss p
  offered xss p xs s at l = record {
    lists = set xss (o.prio p) (offer xs p);
    levels = l;
    balance = omega (arith, total-set keep xss (o.prio p) (offer xs p) at, count-offer xs p);
  }

  -- A level that is there, since the call did not fault.
  pub level_of :
      {s s' : Sched P} {xss : List (List P)} (p : P)
      → Levels s xss
      → (put_proc s p ≡ some s') ⊎ (add_proc s p ≡ some s')
      → (xs : List P) × (get_elem? xss (o.prio p) ≡ some xs)
  level_of {s} {s'} {xss} p l e = elim (dec_lt (o.prio p) max_prio) [
    | yes lt ↦ get_elem?_of_lt xss (o.prio p) (omega (arith, l.lists))
    | no g ↦
        let out : (put_proc s p ≡ none) × (add_proc s p ≡ none) =
          put_proc_out_of_range p l (omega (arith, g)) in
        elim e [
          | inl e ↦ absurd (none-ne-some _ (sym out.0 ∙ e))
          | inr e ↦ absurd (none-ne-some _ (sym out.1 ∙ e))
        ]
  ]

  pub put_proc-Put :
      {s s' : Sched P} {xss : List (List P)} (p : P)
      → Levels s xss
      → put_proc s p ≡ some s'
      → Put s' xss p
  put_proc-Put {s} {s'} {xss} p l e =
      let (xs, at) = level_of p l (inl e) in
      let q : Queued s xss p xs (put_proc s p) = put_proc_lem p xs l at in
      offered xss p xs s' at (
        subst (λ s. Levels s (set xss (o.prio p) (offer xs p)))
          (some-injective _ _ (sym q.returns ∙ e)) q.levels)

  pub add_proc-Put :
      {s s' : Sched P} {xss : List (List P)} (p : P)
      → Levels s xss
      → add_proc s p ≡ some s'
      → Put s' xss p
  add_proc-Put {s} {s'} {xss} p l e =
      let (xs, at) = level_of p l (inr e) in
      let q : Queued s xss p xs (add_proc s p) = add_proc_lem p xs l at in
      offered xss p xs s' at (
        subst (λ s. Levels s (set xss (o.prio p) (offer xs p)))
          (some-injective _ _ (sym q.returns ∙ e)) q.levels)
