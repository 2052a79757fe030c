-- ===== src/Os/Conserve/Round.antt =====
-- One round of `cpu_routine` of ossim_source_code/src/os.c keeps the number of processes.
use co2018_assignment.Base.{
  ℕ, ◌+◌, ◌≡◌, ◌⊎◌, inl, inr, refl, ap, ◌∙◌, Bool, true, false, Option, none, some, List, set,
  arith, if◌then◌else◌, ◌>>=◌, Option-cases,
}
use co2018_assignment.Base.Int.{ℤ, pos}
use co2018_assignment.Scan.Decimal.{if_true, if_false}
use co2018_assignment.Queue.{Schedulable}
use co2018_assignment.Queue.Content.{offer}
use co2018_assignment.Sched.{Sched, get_proc, put_proc}
use co2018_assignment.Sched.Levels.{Levels, Queued, put_proc_lem}
use co2018_assignment.Os.{
  Machine, Core, Turn, next_slot, stopped, Chosen, skips, goes_on, choose, proceed, cpu_round,
  first_load, is_zero, decrement,
}
use co2018_assignment.Os.Conserve.{one, held, total, Got, get_proc-Got, HasRoom, put_proc-total}

module _ {P W : Type 0} ⦃o : Schedulable P⦄ (m : Machine P W) (keep : P → Bool) where
  -- The process that a round drops because its code has ended.
  abbrev pub departs : Option P → ℕ
  departs none = 0
  departs (some p) = if m.finished p then one keep p else 0

  abbrev pub chosen_count : Chosen P → ℕ
  chosen_count skips = 0
  chosen_count (goes_on proc t) = held keep proc

  pub record Picked (s : Sched P) (xss : List (List P)) (t : ℤ) (proc : Option P) : Type 0 where
    pub chosen : Chosen P
    pub sched : Sched P
    pub lists : List (List P)
    pub returns : choose m s t proc ≡ some (chosen, sched)
    pub levels : Levels sched lists
    pub balance :
        total keep lists + chosen_count chosen + departs proc ≡ total keep xss + held keep proc

  -- There is room where the process is put back.
  abbrev pub RoomFor : List (List P) → ℤ → Option P → Type 0
  RoomFor xss t none = Unit
  RoomFor xss t (some p) = m.finished p ≡ false → is_zero t ≡ true → HasRoom keep xss (some p)

  pub choose-Picked :
      (s : Sched P) (xss : List (List P)) (t : ℤ) (proc : Option P)
      → Levels s xss
      → RoomFor xss t proc
      → Picked s xss t proc
  unfolding choose
  choose-Picked s xss t none l room =
      let g : Got keep s xss = get_proc-Got keep s xss l in
      record {
        chosen = first_load t g.proc;
        sched = g.sched;
        lists = g.lists;
        returns = ap (λ r. r >>= (λ q. some (first_load t q.0, q.1))) g.returns;
        levels = g.levels;
        balance = omega (arith, g.balance, first g.proc);
      }
    where
      first : (q : Option P) → chosen_count (first_load t q) ≡ held keep q
      first none = refl
      first (some p) = refl
  choose-Picked s xss t (some p) l room = go (m.finished p) (is_zero t) refl refl
    where
      go : (b z : Bool) → m.finished p ≡ b → is_zero t ≡ z → Picked s xss t (some p)
      go true z e ez =
          let g : Got keep s xss = get_proc-Got keep s xss l in
          record {
            chosen = goes_on g.proc (pos 0);
            sched = g.sched;
            lists = g.lists;
            returns =
                if_true _ _ e ∙ ap (λ r. r >>= (λ q. some (goes_on q.0 (pos 0), q.1))) g.returns;
            levels = g.levels;
            balance = omega (arith, g.balance, if_true (one keep p) 0 e);
          }
      go false true e ez =
          let r : HasRoom keep xss (some p) = room e ez in
          let q : Queued s xss p r.0 (put_proc s p) = put_proc_lem p r.0 l r.1 in
          let g : Got keep q.sched (set xss (o.prio p) (offer r.0 p)) =
            get_proc-Got keep q.sched _ q.levels in
          record {
            chosen = goes_on g.proc t;
            sched = g.sched;
            lists = g.lists;
            returns =
                if_false _ _ e
                ∙ (if_true _ _ ez
                    ∙ (ap (λ r. r >>= (λ s₁. get_proc s₁ >>= (λ q. some (goes_on q.0 t, q.1))))
                          q.returns
                        ∙ ap (λ r. r >>= (λ q. some (goes_on q.0 t, q.1))) g.returns));
            levels = g.levels;
            balance = omega (
              arith,
              g.balance,
              if_false (one keep p) 0 e,
              put_proc-total keep xss p r.0 r.1 r.2,
            );
          }
      go false false e ez = record {
        chosen = goes_on (some p) t;
        sched = s;
        lists = xss;
        returns = if_false _ _ e ∙ if_false _ _ ez;
        levels = l;
        balance = omega (arith, if_false (one keep p) 0 e);
      }

  -- A round that ends: no process is queued or on the CPU twice, and none is gone, but the one whose
  -- code had ended.
  pub record Conserves (time_slot : ℤ) (is_done : Bool) (c : Core P) (s : Sched P) (w : W)
      (xss : List (List P)) : Type 0 where
    pub turn : Turn
    pub core : Core P
    pub sched : Sched P
    pub world : W
    pub lists : List (List P)
    pub returns : cpu_round m time_slot is_done c s w ≡ some (turn, core, sched, world)
    pub levels : Levels sched lists
    pub balance :
        total keep lists + held keep core.proc + departs c.proc ≡ total keep xss + held keep c.proc

  -- One round of a CPU, where the levels hold the lists `xss`, there is room at the level of the
  -- process that it has, and no instruction changes the test `keep`: the round faults only where the
  -- instruction of the process faults; otherwise it ends, and of the processes that pass the test
  -- exactly as many are queued or on the CPU as before, less the one whose code had ended.
  pub cpu_round-Conserves :
      (time_slot : ℤ) (is_done : Bool) (c : Core P) (s : Sched P) (w : W) (xss : List (List P))
      → Levels s xss
      → HasRoom keep xss c.proc
      → ((p p' : P) (w' : W) → m.execute p w ≡ some (p', w') → keep p' ≡ keep p)
      → ((p : P) × (m.execute p w ≡ none) × (cpu_round m time_slot is_done c s w ≡ none))
        ⊎ Conserves time_slot is_done c s w xss
  unfolding cpu_round proceed
  cpu_round-Conserves time_slot is_done c s w xss l room fixed = go k.chosen k.returns k.balance
    where
      needs : (q : Option P) → HasRoom keep xss q → RoomFor xss c.time_left q
      needs none r = tt
      needs (some p) r = λ _ _. r

      k : Picked s xss c.time_left c.proc
      k = choose-Picked s xss c.time_left c.proc l (needs c.proc room)

      same : (p p' : P) → keep p' ≡ keep p → one keep p' ≡ one keep p
      same p p' e = rw e refl

      ran : P → ℤ → Option (P × W) → Option (Turn × Core P × Sched P × W)
      ran p t o = o >>= λ q. some (
        next_slot,
        record { proc = some q.0; time_left = decrement (if is_zero t then time_slot else t) },
        k.sched,
        q.1,
      )

      go :
          (chosen : Chosen P)
          → choose m s c.time_left c.proc ≡ some (chosen, k.sched)
          → total keep k.lists + chosen_count chosen + departs c.proc
            ≡ total keep xss + held keep c.proc
          → ((p : P) × (m.execute p w ≡ none) × (cpu_round m time_slot is_done c s w ≡ none))
            ⊎ Conserves time_slot is_done c s w xss
      go skips e b = inr (record {
        turn = next_slot;
        core = record c { proc = none };
        sched = k.sched;
        world = w;
        lists = k.lists;
        returns = ap (λ r. r >>= proceed m time_slot is_done w c) e;
        levels = k.levels;
        balance = omega (arith, b);
      })
      go (goes_on none t) e b = inr (record {
        turn = if is_done then stopped else next_slot;
        core = record { proc = none; time_left = t };
        sched = k.sched;
        world = w;
        lists = k.lists;
        returns = ap (λ r. r >>= proceed m time_slot is_done w c) e;
        levels = k.levels;
        balance = omega (arith, b);
      })
      go (goes_on (some p) t) e b = elim (Option-cases (m.execute p w)) [
        | inl f ↦ inl (p, f, ap (λ r. r >>= proceed m time_slot is_done w c) e ∙ ap (ran p t) f)
        | inr r ↦ inr (record {
          turn = next_slot;
          core = record {
            proc = some r.0.0;
            time_left = decrement (if is_zero t then time_slot else t);
          };
          sched = k.sched;
          world = r.0.1;
          lists = k.lists;
          returns = ap (λ r. r >>= proceed m time_slot is_done w c) e ∙ ap (ran p t) r.1;
          levels = k.levels;
          balance = omega (arith, b, same p r.0.0 (fixed p r.0.0 r.0.1 r.1));
        })
      ]
