-- ===== src/Timer/Barrier.antt =====
-- The barrier that the timer and `next_slot` make between time slots.
pub mod Places
pub mod Moves
pub mod Steps
use easter_egg.Common.{ℕ, suc, ◌+◌, ◌≤◌, ◌<◌, ◌≡◌, ◌⊎◌, inl, inr, arith, refl}
use easter_egg.Timer.{Timer}
use easter_egg.Timer.System.{System, TimerPc, ended, working, IsGone, Step, Reach, start, later}
use easter_egg.Timer.Barrier.Places.{Local, Inv, slots, Local-slots, Local-working}
use easter_egg.Timer.Barrier.Moves.{init-Inv}
use easter_egg.Timer.Barrier.Steps.{Step-Inv}

pub Reach-Inv : (n : ℕ) {s : System} → Reach n s → Inv n s
Reach-Inv n start = init-Inv n
Reach-Inv n (later r st) = Step-Inv n (Reach-Inv n r) st

-- In every reachable state, two threads that are at work at the same time have returned from
-- `next_slot` equally often, and that often the timer has counted: they work in the same slot.
pub same_slot :
    (n : ℕ) {s : System}
    → Reach n s
    → (i j a b : ℕ) → i < n
    → j < n
    → s.pc i ≡ working a
    → s.pc j ≡ working b
    → (a ≡ s.timer.time) × (b ≡ s.timer.time)
same_slot n {s} r i j a b hi hj ei ej = (
  Local-working s.timer_pc s.timer.time i (s.timer.devices i)
      (rw ei at ((Reach-Inv n r).places i hi)),
  Local-working s.timer_pc s.timer.time j (s.timer.devices j)
      (rw ej at ((Reach-Inv n r).places j hj)),
)

-- In every reachable state no thread that still uses the timer is ahead of it, and none is more
-- than one slot behind.
pub slots_bounds :
    (n : ℕ) {s : System}
    → Reach n s
    → (i : ℕ) → i < n
    → (IsGone (s.pc i) → ⊥)
    → (slots (s.pc i) ≤ s.timer.time) × (s.timer.time ≤ slots (s.pc i) + 1)
slots_bounds n {s} r i hi live =
    Local-slots s.timer_pc s.timer.time i (s.pc i) (s.timer.devices i) ((Reach-Inv n r).places i hi)
      live

-- The thread of the timer ends only when every thread that used it has left by `detach_event`.
pub ended_lem :
    (n : ℕ) {s : System} → Reach n s → s.timer_pc ≡ ended → (i : ℕ) → i < n → IsGone (s.pc i)
ended_lem n {s} r e i hi =
    let here : Local ended s.timer.time i (s.pc i) (s.timer.devices i) =
      rw e at ((Reach-Inv n r).places i hi) in
    here.0
