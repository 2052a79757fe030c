-- ===== src/Sched/Dispatch.antt =====
-- What `get_mlq_proc` dispatches.
use co2018_assignment.Base.{
  ℕ, zero, suc, ◌+◌, ◌-◌, ◌%◌, ◌<◌, ◌≡◌, ◌≢◌, refl, sym, subst, ap, ◌∙◌, ◌⊎◌, inl, inr, true, false,
  Option, none, some, List, [], ◌∷◌, ◌++◌, length, ltb, get_elem?, get_elem?_of_lt, set,
  store_at-in_range, arith, ◌==◌,
}
use native.Mathlib.Decide.{dec_lt}
use co2018_assignment.Queue.{Schedulable, Queue, empty}
use co2018_assignment.Queue.Content.{Holds}
use co2018_assignment.Queue.Highest.{IsHighest}
use co2018_assignment.Queue.Refine.{empty_lem, dequeue_lem}
use co2018_assignment.Sched.{Sched, max_prio, dequeue_level, scan, get_proc}
use co2018_assignment.Sched.Levels.{Levels, Levels-set, queue_at}

-- No process in the levels below `n`.
abbrev pub IsIdle {ℓ} : {P : Type ℓ} → List (List P) → ℕ → Type ℓ
IsIdle xss n = (j : ℕ) → j < n → get_elem? xss j ≡ some []

nonzero : (n : ℕ) → (suc n == 0) ≡ false
nonzero n = ground arith

module _ {P : Type 0} ⦃o : Schedulable P⦄ where
  -- The first level that holds something gives the process of the highest `priority`, among equals
  -- the one that came first; nothing else changes.
  pub record Dispatched (s : Sched P) (xss : List (List P)) (result : Option (Option P × Sched P))
      : Type 0 where
    pub level : ℕ
    pub queued : List P
    pub before : List P
    pub chosen : P
    pub after : List P
    pub sched : Sched P
    pub at : get_elem? xss level ≡ some queued
    pub first : IsIdle xss level
    pub highest : IsHighest queued before chosen after
    pub returns : result ≡ some (some chosen, sched)
    pub levels : Levels sched (set xss level (before ++ after))

  abbrev pub Answer : Sched P → List (List P) → Option (Option P × Sched P) → Type 0
  Answer s xss r = (IsIdle xss max_prio × (r ≡ some (none, s))) ⊎ Dispatched s xss r

  -- One round at an empty level.
  scan-skip :
      (s : Sched P) {q : Queue P} (attempt left : ℕ)
      → s.current_prio ≡ 0
      → attempt < max_prio
      → get_elem? s.mlq_ready_queue attempt ≡ some q
      → empty (some q) ≡ true
      → scan s max_prio attempt (suc left) ≡ scan s max_prio (attempt + 1) left
  unfolding scan
  scan-skip s {q} attempt left start lt at e = rw (here, at, e)
    where
      here : (s.current_prio + attempt) % max_prio ≡ attempt
      here = omega (arith, start)

  -- The last round, at a level that holds something.
  scan-stop :
      (s : Sched P) {q : Queue P} (attempt left : ℕ)
      → s.current_prio ≡ 0
      → attempt < max_prio
      → get_elem? s.mlq_ready_queue attempt ≡ some q
      → empty (some q) ≡ false
      → scan s max_prio attempt (suc left) ≡ dequeue_level s attempt q
  unfolding scan
  scan-stop s {q} attempt left start lt at e = rw (here, at, e, lt→ltb)
    where
      here : (s.current_prio + attempt) % max_prio ≡ attempt
      here = omega (arith, start)

      lt→ltb : ltb attempt max_prio ≡ true
      lt→ltb = ground arith

  Dispatched-level :
      {s : Sched P} {xss : List (List P)} {q : Queue P} (k : ℕ) (xs : List P)
      → Levels s xss
      → k < max_prio
      → get_elem? xss k ≡ some xs
      → Holds q xs
      → xs ≢ []
      → IsIdle xss k
      → Dispatched s xss (dequeue_level s k q)
  unfolding dequeue_level
  Dispatched-level {s} {xss} {q} k xs l lt at h ne idle =
      let t = dequeue_lem ne h in
      record {
        level = k;
        queued = xs;
        before = t.before;
        chosen = t.chosen;
        after = t.after;
        sched = record s { mlq_ready_queue = set s.mlq_ready_queue k t.queue };
        at = at;
        first = idle;
        highest = t.highest;
        returns =
            rw (t.result, store_at-in_range s.mlq_ready_queue k t.queue (omega (arith, l.queues)));
        levels = Levels-set k t.queue (t.before ++ t.after) lt l t.left;
      }

  IsIdle-suc :
      (xss : List (List P)) (k : ℕ) → IsIdle xss k → get_elem? xss k ≡ some [] → IsIdle xss (k + 1)
  IsIdle-suc xss k idle e j lt = elim (dec_lt j k) [
    | yes below ↦ idle j below
    | no last ↦ subst (λ t. get_elem? xss t ≡ some []) (omega arith) e
  ]

  scan-Answer :
      (left attempt : ℕ) {s : Sched P} {xss : List (List P)}
      → Levels s xss
      → attempt + left ≡ max_prio
      → IsIdle xss attempt
      → Answer s xss (scan s max_prio attempt left)
  scan-Answer zero attempt l e idle = inl (λ j lt. idle j (omega arith), unfold scan in refl)
  scan-Answer (suc left) attempt {s} {xss} l e idle =
      let (xs, at) = get_elem?_of_lt xss attempt (omega (arith, l.lists)) in
      let (q, aq, h, lt) = queue_at attempt xs l at in
      level xs at q aq h lt
        (λ ax. scan-Answer left (attempt + 1) l (omega arith) (IsIdle-suc xss attempt idle ax))
    where
      level :
          (xs : List P)
          → get_elem? xss attempt ≡ some xs
          → (q : Queue P) → get_elem? s.mlq_ready_queue attempt ≡ some q
          → Holds q xs
          → attempt < max_prio
          → (get_elem? xss attempt ≡ some [] → Answer s xss (scan s max_prio (attempt + 1) left))
          → Answer s xss (scan s max_prio attempt (suc left))
      level [] at q aq h lt rest =
          rw (scan-skip s attempt left l.start lt aq (empty_lem q [] h)) (rest at)
      level (x ∷ xs) at q aq h lt rest =
          rw (scan-stop s attempt left l.start lt aq (empty_lem q (x ∷ xs) h ∙ nonzero (length xs)))
            (inr (Dispatched-level attempt (x ∷ xs) l lt at h (λ e. cc) idle))

  get_proc-scan : (s : Sched P) → s.current_prio ≡ 0 → get_proc s ≡ scan s max_prio 0 max_prio
  unfolding get_proc
  get_proc-scan s start = ap (λ (c : ℕ). scan s (max_prio - c) 0 max_prio) start

  -- Where the levels hold the lists `xss` and the round-robin position is at its start, which every
  -- call preserves, `get_proc` never faults. It returns the null pointer and leaves the queues alone exactly if all
  -- levels are empty; otherwise it takes from the first level that holds a process the one of the
  -- highest `priority`, among equals the one that came first.
  pub get_proc_lem : {s : Sched P} {xss : List (List P)} → Levels s xss → Answer s xss (get_proc s)
  get_proc_lem {s} {xss} l =
      subst (Answer s xss) (sym (get_proc-scan s l.start))
        (scan-Answer max_prio 0 l (omega arith) (λ j lt. absurd (omega arith)))
