-- ===== src/Timer.antt =====
-- The timer of ossim_source_code/src/timer.c and the threads that it steps. A step of the timer's
-- thread, or of a device's, is one critical section: a wait on a condition is a step that is not
-- there until its condition holds, since every signal is sent under the lock the waiter tests under.
pub mod Devices
pub mod Invariant
pub mod Turns
pub mod Ticks
pub mod Reached
pub mod Barrier
pub mod Ending
use co2018_assignment.Base.{
  ℕ, zero, suc, ◌+◌, ◌%◌, ◌^◌, ◌≡◌, Bool, true, false, ◌||◌, Option, none, some, List, [], ◌∷◌,
  length, get_elem?, set, ◌==◌, if◌then◌else◌,
}
pub use Devices.{
  TimerId, DevicePc, working, waiting, detached, Device, Call, reports, resumes, detaches,
}
unfoldable pub use Devices.{act}

-- Where the timer's thread stands: at the test of the loop, before the device at `i` of the first
-- inner loop, before `_time++`, before the device at `i` of the second inner loop, or gone.
-- `fsh` and `event` are the counts of this turn.
pub data TimerPc : Type 0 where
  not_started : TimerPc
  top : TimerPc
  checking : (i fsh event : ℕ) → TimerPc
  bump : (fsh event : ℕ) → TimerPc
  releasing : (i fsh event : ℕ) → TimerPc
  ended : TimerPc

-- The globals of the file, with the threads: `devices` is `dev_list`, first to last.
pub record System : Type 0 where
  pub devices : List Device
  pub time : ℕ  -- _time
  pub timer_started : Bool
  pub timer_stop : Bool
  pub timer : TimerPc

abbrev pub no_timer : System
no_timer = record {
  devices = [];
  time = 0;
  timer_started = false;
  timer_stop = false;
  timer = not_started;
}

abbrev fresh : Device
fresh = record { id = record { done = false; fsh = false }; pc = working; slots = 0 }

-- The device that is attached comes first in the list; its number counts from the last one.
unfoldable pub attach_event : System → Option ℕ × System
attach_event s =
    if s.timer_started
    then (none, s)
    else (some (length s.devices), record s { devices = fresh ∷ s.devices })

unfoldable pub start_timer : System → System
start_timer s = record s { timer_started = true; timer = top }

abbrev pub current_time : System → ℕ
current_time s = s.time

abbrev clear : Device → Device
clear d = record d { id = record d.id { done = false } }

-- The two inner loops, at the device that they are at, or behind the last one.
check : System → ℕ → ℕ → ℕ → Option Device → Option System
check s i fsh event none = some (record s { timer = bump fsh event })
check s i fsh event (some d) =
    if d.id.done || d.id.fsh
    then some
        (record s { timer = checking (i + 1) (if d.id.fsh then fsh + 1 else fsh) (event + 1) })
    else none

release : System → ℕ → ℕ → ℕ → Option Device → Option System
release s i fsh event none = some (record s { timer = if fsh == event then ended else top })
release s i fsh event (some d) =
    some (record s { devices = set s.devices i (clear d); timer = releasing (i + 1) fsh event })

-- One step of `timer_routine`, `none` where it waits or is gone.
step_at : System → TimerPc → Option System
unfolding check release
step_at s not_started = none
step_at s top = some (record s { timer = if s.timer_stop then ended else checking 0 0 0 })
step_at s (checking i fsh event) = check s i fsh event (get_elem? s.devices i)
step_at s (bump fsh event) =
    some (record s { time = (s.time + 1) % 2 ^ 64; timer = releasing 0 fsh event })
step_at s (releasing i fsh event) = release s i fsh event (get_elem? s.devices i)
step_at s ended = none

unfoldable pub timer_step : System → Option System
unfolding step_at
timer_step s = step_at s s.timer

-- `stop_timer` up to its call of `pthread_join`, and its loop after it.
unfoldable pub stop_timer : System → System
stop_timer s = record s { timer_stop = true }

unfoldable pub free_devices : System → System
free_devices s = record s { devices = [] }

-- A step of any thread; `main` stops the timer when it likes.
pub data Step (s : System) : System → Type 0 where
  ticks : {t : System} → timer_step s ≡ some t → Step s t
  acts :
      (j : ℕ) (c : Call) {d d' : Device}
      → get_elem? s.devices j ≡ some d
      → act c d ≡ some d'
      → Step s (record s { devices = set s.devices j d' })
  stops : Step s (stop_timer s)
  frees : s.timer ≡ ended → s.timer_stop ≡ true → Step s (free_devices s)

-- `n` devices are attached before the timer starts.
abbrev pub attached : ℕ → System
unfolding attach_event
attached zero = no_timer
attached (suc n) = (attach_event (attached n)).1

pub data Reach (n : ℕ) : System → Type 0 where
  starts : Reach n (start_timer (attached n))
  later : {s t : System} → Reach n s → Step s t → Reach n t
