-- ===== src/Timer/System.antt =====
-- The thread of the timer and `n` threads that use it, interleaved in any order: `timer_routine`
-- and `next_slot` of src/timer.c, and how src/os.c calls them. Each step is a section under one
-- lock, or one access to a variable.
use easter_egg.Common.{ℕ, suc, ◌+◌, ◌<◌, ◌≡◌, true, false}
use easter_egg.Common.{if◌then◌else◌, ◌==◌, update}
use easter_egg.Timer.{Timer, tell_done, detach_event, has_reported, next_time}
use easter_egg.Timer.{let_continue, stop_timer, free_devices}

-- Where `timer_routine` stands. `todo` devices are left of the loop in hand: those with the
-- numbers below `todo`.
pub data TimerPc : Type 0 where
  head : TimerPc  -- before the test of `timer_stop`
  watching : (todo fsh event : ℕ) → TimerPc  -- in the loop that waits for the devices
  releasing : (todo fsh event : ℕ) → TimerPc  -- in the loop that lets them continue
  ended : TimerPc

-- Where a thread that uses the timer stands, with the number of its calls of `next_slot` that have
-- returned, which the code does not count.
pub data DevicePc : Type 0 where
  working : (slots : ℕ) → DevicePc  -- outside the routines of the timer
  waiting : (slots : ℕ) → DevicePc  -- in the second part of `next_slot`
  gone : (slots : ℕ) → DevicePc  -- after `detach_event`

pub record System : Type 0 where
  pub timer : Timer
  pub timer_pc : TimerPc
  pub pc : ℕ → DevicePc

abbrev pub IsGone : DevicePc → Type 0
IsGone (working _) = ⊥
IsGone (waiting _) = ⊥
IsGone (gone _) = Unit

-- `timer_stop` is set by `main` once it has joined every thread that uses the timer, and the devices
-- are freed once the thread of the timer has ended.
pub data Step (n : ℕ) (s : System) : System → Type 0 where
  begin_round :
      s.timer_pc ≡ head
      → s.timer.timer_stop ≡ false
      → Step n s (record s { timer_pc = watching n 0 0 })
  stop_round :
      s.timer_pc ≡ head → s.timer.timer_stop ≡ true → Step n s (record s { timer_pc = ended })
  look :
      (j fsh event : ℕ)
      → s.timer_pc ≡ watching (suc j) fsh event
      → has_reported s.timer j ≡ true
      → Step n s (record s {
        timer_pc = watching j (if (s.timer.devices j).fsh then fsh + 1 else fsh) (event + 1);
      })
  tick :
      (fsh event : ℕ)
      → s.timer_pc ≡ watching 0 fsh event
      → Step n s (record s { timer = next_time s.timer; timer_pc = releasing n fsh event })
  release :
      (j fsh event : ℕ)
      → s.timer_pc ≡ releasing (suc j) fsh event
      → Step n s (record s { timer = let_continue s.timer j; timer_pc = releasing j fsh event })
  end_round :
      (fsh event : ℕ)
      → s.timer_pc ≡ releasing 0 fsh event
      → Step n s (record s { timer_pc = if fsh == event then ended else head })
  finish_slot :
      (i m : ℕ)
      → i < n
      → s.pc i ≡ working m
      → Step n s (record s { timer = tell_done s.timer i; pc = update s.pc i (waiting m) })
  resume :
      (i m : ℕ)
      → i < n
      → s.pc i ≡ waiting m
      → (s.timer.devices i).done ≡ false
      → Step n s (record s { pc = update s.pc i (working (suc m)) })
  detach :
      (i m : ℕ)
      → i < n
      → s.pc i ≡ working m
      → Step n s (record s { timer = detach_event s.timer i; pc = update s.pc i (gone m) })
  stop : ((i : ℕ) → i < n → IsGone (s.pc i)) → Step n s (record s { timer = stop_timer s.timer })
  discard :
      s.timer_pc ≡ ended
      → s.timer.timer_stop ≡ true
      → Step n s (record s { timer = free_devices s.timer })

-- `n` devices attached, none of which has done anything, and the timer started.
abbrev pub init : ℕ → System
init n = record {
  timer = record {
    devices = λ _. record { done = false; fsh = false };
    count = n;
    time = 0;
    timer_started = true;
    timer_stop = false;
  };
  timer_pc = head;
  pc = λ _. working 0;
}

pub data Reach (n : ℕ) : System → Type 0 where
  start : Reach n (init n)
  later : {s t : System} → Reach n s → Step n s t → Reach n t
