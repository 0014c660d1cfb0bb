-- ===== src/Timer.antt =====
-- The timer, src/timer.c and include/timer.h: its static variables and the parts of its routines
-- that run under one lock. Timer/System puts the threads together. A device is known by the order
-- in which it was attached; the list `dev_list` has the last one first.
pub mod System
pub mod Barrier
pub mod Progress
pub mod Rounds
mod Tests
use easter_egg.Common.{ℕ, suc, ◌+◌, Bool, true, false, ◌||◌, Option, none, some}
use easter_egg.Common.{if◌then◌else◌, update}

-- `struct timer_id_t` without its locks and conditions.
pub record Device : Type 0 where
  pub done : Bool
  pub fsh : Bool

pub record Timer : Type 0 where
  pub devices : ℕ → Device
  pub count : ℕ
  pub time : ℕ
  pub timer_started : Bool
  pub timer_stop : Bool

-- The new device, or `none` for a null result.
unfoldable pub attach_event : Timer → Option ℕ × Timer
attach_event t = if t.timer_started then (none, t) else (
  some t.count,
  record t {
    devices = update t.devices t.count (record { done = false; fsh = false });
    count = t.count + 1;
  },
)

-- The thread that it creates is in Timer/System.
unfoldable pub start_timer : Timer → Timer
start_timer t = record t { timer_started = true }

-- The first part of `next_slot`.
unfoldable pub tell_done : Timer → ℕ → Timer
tell_done t i = record t { devices = update t.devices i (record (t.devices i) { done = true }) }

unfoldable pub detach_event : Timer → ℕ → Timer
detach_event t i = record t { devices = update t.devices i (record (t.devices i) { fsh = true }) }

-- The test on which `timer_routine` stops waiting for a device.
unfoldable pub has_reported : Timer → ℕ → Bool
has_reported t i = (t.devices i).done || (t.devices i).fsh

-- `_time++;`
unfoldable pub next_time : Timer → Timer
next_time t = record t { time = t.time + 1 }

-- One round of the loop that lets the devices continue.
unfoldable pub let_continue : Timer → ℕ → Timer
let_continue t i = record t { devices = update t.devices i (record (t.devices i) { done = false }) }

-- The first line of `stop_timer`.
unfoldable pub stop_timer : Timer → Timer
stop_timer t = record t { timer_stop = true }

-- The rest of `stop_timer`, behind the join: the list of devices is freed and empty.
unfoldable pub free_devices : Timer → Timer
free_devices t = record t { count = 0 }
