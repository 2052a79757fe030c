-- ===== src/Sched/Starve.antt =====
-- One process in an upper level, put back and fetched again: the levels below it never run.
use co2018_assignment.Base.{
  ℕ, zero, suc, ◌<◌, ◌≡◌, refl, sym, subst, ap, ◌∙◌, inl, inr, Option, some, List, [], ◌∷◌, ◌++◌,
  get_elem?, get_elem?-set_self, set, set-set, set_same, replicate, arith, ◌>>=◌,
}
use mathlib.Core.Option.{some-injective}
use native.Mathlib.Decide.{dec_lt}
use co2018_assignment.Queue.{Schedulable}
use co2018_assignment.Sched.{Sched, get_proc, put_proc}
use co2018_assignment.Sched.Levels.{Levels, queue_at, put_proc_lem}
use co2018_assignment.Sched.Dispatch.{IsIdle, Answer, get_proc_lem}

cons_ne_nil {ℓ} : {A : Type ℓ} {x : A} {xs : List A} → x ∷ xs ≡ [] → ⊥
cons_ne_nil e = cc

cons_split_ne {ℓ} : {A : Type ℓ} (x : A) (ys zs : List A) → [] ≡ ys ++ (x ∷ zs) → ⊥
cons_split_ne x [] zs e = cc
cons_split_ne x (y ∷ ys) zs e = cc

only_split {ℓ} :
    {A : Type ℓ} {p c : A} (before after : List A)
    → ◌≡◌ {A = List A} (p ∷ []) (before ++ (c ∷ after))
    → (c ≡ p) × (before ++ after ≡ [])
only_split [] [] e = (cc, refl)
only_split [] (a ∷ after) e = cc
only_split (b ∷ []) after e = cc
only_split (b ∷ b' ∷ before) after e = cc

module _ {P : Type 0} ⦃o : Schedulable P⦄ where
  -- One CPU whose processes do not finish: it fetches a process, runs it for its time slot, and puts
  -- it back. The processes that were dispatched, in order.
  unfoldable pub rounds : ℕ → Sched P → Option (List P × Sched P)
  rounds zero s = some ([], s)
  rounds (suc n) s = do
    (p, s') ← get_proc s
    chosen ← p
    s'' ← put_proc s' chosen
    (ps, t) ← rounds n s''
    some (chosen ∷ ps, t)

  -- `p` is alone in its level, and no level before that holds anything.
  pub record IsAlone (s : Sched P) (xss : List (List P)) (p : P) : Type 0 where
    pub levels : Levels s xss
    pub at : get_elem? xss (o.prio p) ≡ some (p ∷ [])
    pub first : IsIdle xss (o.prio p)

  -- The dispatcher finds `p`, and takes it out.
  record Fetched (s : Sched P) (xss : List (List P)) (p : P) : Type 0 where
    sched : Sched P
    returns : get_proc s ≡ some (some p, sched)
    levels : Levels sched (set xss (o.prio p) [])

  fetch :
      {s : Sched P} {xss : List (List P)} {p : P}
      → IsAlone s xss p
      → Answer s xss (get_proc s)
      → Fetched s xss p
  fetch {s} {xss} {p} a (inl (idle, e)) = absurd (
      cons_ne_nil (
        some-injective _ _
          (sym a.at ∙ idle (o.prio p) (queue_at (o.prio p) (p ∷ []) a.levels a.at).3)))
  fetch {s} {xss} {p} a (inr d) =
      here (level_eq (dec_lt d.level (o.prio p)) (dec_lt (o.prio p) d.level))
    where
      level_eq : Dec (d.level < o.prio p) → Dec (o.prio p < d.level) → d.level ≡ o.prio p
      level_eq (yes below) _ = absurd (
          cons_split_ne d.chosen d.before d.after
            (some-injective _ _ (sym (a.first d.level below) ∙ d.at) ∙ d.highest.split))
      level_eq (no _) (yes above) =
          absurd (cons_ne_nil (some-injective _ _ (sym a.at ∙ d.first (o.prio p) above)))
      level_eq (no x) (no y) = omega arith

      here : d.level ≡ o.prio p → Fetched s xss p
      here e =
          let queued : d.queued ≡ p ∷ [] =
            some-injective _ _ (sym d.at ∙ ap (get_elem? xss) e ∙ a.at) in
          let (same, none_left) = only_split d.before d.after (sym queued ∙ d.highest.split) in
          record {
            sched = d.sched;
            returns = d.returns ∙ ap (λ c. some (some c, d.sched)) same;
            levels = rw (← e, ← none_left) d.levels;
          }

  -- After `p` is put back all is as before.
  put_back :
      {s : Sched P} {xss : List (List P)} {p : P}
      → IsAlone s xss p
      → (f : Fetched s xss p) → (s' : Sched P) × (put_proc f.sched p ≡ some s') × IsAlone s' xss p
  put_back {s} {xss} {p} a f =
      let lt = (queue_at (o.prio p) (p ∷ []) a.levels a.at).3 in
      let q =
        put_proc_lem p [] f.levels
          (get_elem?-set_self xss (o.prio p) [] (omega (arith, a.levels.lists, lt))) in
      (
        q.sched,
        q.returns,
        record {
          levels =
              subst (Levels q.sched)
                (set-set xss (o.prio p) [] (p ∷ []) ∙ set_same xss (o.prio p) a.at) q.levels;
          at = a.at;
          first = a.first;
        },
      )

  -- Where `p` is alone in its level and no level before that holds anything, each of any number of
  -- rounds dispatches `p`, and the levels are afterwards as they were: no process of a later level
  -- runs.
  pub starvation :
      (n : ℕ) {s : Sched P} {xss : List (List P)} {p : P}
      → IsAlone s xss p
      → (t : Sched P) × (rounds n s ≡ some (replicate n p, t)) × Levels t xss
  unfolding rounds
  starvation zero {s} a = (s, refl, a.levels)
  starvation (suc n) {s} {xss} {p} a =
      let f = fetch a (get_proc_lem a.levels) in
      let (s', put, a') = put_back a f in
      let (t, rest, l) = starvation n a' in (t, rw (f.returns, put, rest), l)
