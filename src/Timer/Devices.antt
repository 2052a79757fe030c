-- ===== src/Timer/Devices.antt =====
-- A device of ossim_source_code/src/timer.c, which is a thread that calls `next_slot` and, at its end,
-- `detach_event`: the CPUs and the loader of ossim_source_code/src/os.c.
use co2018_assignment.Base.{ℕ, ◌+◌, Bool, true, Option, none, some, if◌then◌else◌}

-- `struct timer_id_t`, without its locks and conditions
pub record TimerId : Type 0 where
  pub done : Bool
  pub fsh : Bool

-- `waiting` is the loop in `next_slot`.
pub data DevicePc : Type 0 where
  working waiting detached : DevicePc

-- `slots` counts the calls of `next_slot` that have returned; no code reads it.
pub record Device : Type 0 where
  pub id : TimerId
  pub pc : DevicePc
  pub slots : ℕ

-- The two critical sections of `next_slot`, and that of `detach_event`.
pub data Call : Type 0 where
  reports resumes detaches : Call

act_at : Device → Call → DevicePc → Option Device
act_at d reports working = some (record d { id = record d.id { done = true }; pc = waiting })
act_at d detaches working = some (record d { id = record d.id { fsh = true }; pc = detached })
act_at d resumes waiting =
    if d.id.done then none else some (record d { pc = working; slots = d.slots + 1 })
act_at d _ _ = none

-- `none` where the device's thread waits, or is not at that call.
unfoldable pub act : Call → Device → Option Device
unfolding act_at
act c d = act_at d c d.pc
