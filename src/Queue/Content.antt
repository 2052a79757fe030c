-- ===== src/Queue/Content.antt =====
-- What a queue holds, as a list in order of arrival, and what the abstract queue does.
use co2018_assignment.Base.{◌≡◌, Option, some, List, [], ◌∷◌, ◌++◌, map, length, ltb, if◌then◌else◌}
use co2018_assignment.Queue.{Queue, max_queue_size}

-- The first cells point to the processes of `xs` in order; what the other cells hold is open.
pub record Holds {P : Type 0} (q : Queue P) (xs : List P) : Type 0 where
  pub rest : List (Option P)
  pub cells : q.proc ≡ map some xs ++ rest
  pub count : q.size ≡ length xs
  pub whole : length q.proc ≡ max_queue_size

-- A bounded FIFO: what does not fit is dropped.
abbrev pub offer {ℓ} : {P : Type ℓ} → List P → P → List P
offer xs p = if ltb (length xs) max_queue_size then xs ++ (p ∷ []) else xs
