-- ===== src/Timer/Tests.antt =====
-- Runs of the timer, and the theorems about it at reachable states.
use easter_egg.Common.{ℕ, zero, suc, ◌+◌, ◌≤◌, ◌<◌, ◌≡◌, ◌⊎◌, true, false, arith, refl, some, none}
use easter_egg.Timer.{Timer, attach_event, start_timer, has_reported, tell_done, detach_event}
use easter_egg.Timer.{let_continue, next_time}
use easter_egg.Timer.System.{System, head, ended}
use easter_egg.Timer.System.{working, IsGone, Step, Reach, start, later}
use easter_egg.Timer.System.{
  begin_round, look, tick, release, end_round, finish_slot, resume, detach,
}
use easter_egg.Timer.Barrier.{same_slot, slots_bounds, ended_lem}
use easter_egg.Timer.Barrier.Places.{slots}
use easter_egg.Timer.Progress.{AtWork, Advances, no_deadlock}
use easter_egg.Timer.Rounds.{Run, round_completes}

abbrev unused : Timer
unused = record {
  devices = λ _. record { done = true; fsh = true };
  count = 0;
  time = 0;
  timer_started = false;
  timer_stop = false;
}

attach_runs :
    ((attach_event (attach_event unused).1).0 ≡ some 1)
    × ((attach_event (start_timer unused)).0 ≡ none)
unfolding attach_event start_timer
attach_runs = (refl, refl)

-- Two threads have done their work in the first slot.
abbrev both_done : (s : System) × Reach 2 s
both_done = (
  _,
  later (later start (finish_slot 0 0 (omega arith) refl)) (finish_slot 1 0 (omega arith) refl),
)

-- The timer has let both on; both are at work in the second slot.
second_slot :
    (s : System) × Reach 2 s × (s.pc 0 ≡ working 1) × (s.pc 1 ≡ working 1) × (s.timer.time ≡ 1)
unfolding has_reported tell_done let_continue next_time
second_slot =
    let watched =
      later (later (later both_done.1 (begin_round refl refl)) (look 1 0 0 refl refl))
        (look 0 0 1 refl refl) in
    let released =
      later
        (later (later (later watched (tick 0 2 refl)) (release 1 0 2 refl)) (release 0 0 2 refl))
        (end_round 0 2 refl) in
    let resumed =
      later (later released (resume 0 0 (omega arith) refl refl))
        (resume 1 0 (omega arith) refl refl) in
    (_, resumed, refl, refl, refl)

same_slot_example : (1 ≡ second_slot.0.timer.time) × (1 ≡ second_slot.0.timer.time)
same_slot_example =
    same_slot 2 second_slot.1 0 1 1 1 (omega arith) (omega arith) second_slot.2 second_slot.3

slots_bounds_example :
    (slots (both_done.0.pc 1) ≤ both_done.0.timer.time)
    × (both_done.0.timer.time ≤ slots (both_done.0.pc 1) + 1)
slots_bounds_example = slots_bounds 2 both_done.1 1 (omega arith) (λ h. h)

no_deadlock_example :
    AtWork 2 both_done.0 ⊎ ((t : System) × Step 2 both_done.0 t × Advances both_done.0 t)
no_deadlock_example = no_deadlock 2 both_done.1 (λ e. cc)

-- One thread that leaves at once.
one_left : (s : System) × Reach 1 s × (s.timer_pc ≡ ended)
unfolding has_reported detach_event let_continue next_time
one_left =
    let watched =
      later (later (later start (detach 0 0 (omega arith) refl)) (begin_round refl refl))
        (look 0 0 0 refl refl) in
    (
      _,
      later (later (later watched (tick 1 1 refl)) (release 0 1 1 refl)) (end_round 1 1 refl),
      refl,
    )

ended_lem_example : IsGone (one_left.0.pc 0)
ended_lem_example = ended_lem 1 one_left.1 one_left.2 0 (omega arith)

both_reported : (i : ℕ) → i < 2 → has_reported both_done.0.timer i ≡ true
unfolding has_reported tell_done
both_reported zero h = refl
both_reported (suc zero) h = refl
both_reported (suc (suc i)) h = absurd (omega arith)

round_completes_example :
    (t : System) × Run 2 both_done.0 t
    × ((t.timer_pc ≡ head) ⊎ (t.timer_pc ≡ ended))
    × (t.timer.time ≡ both_done.0.timer.time + 1)
    × (t.pc ≡ both_done.0.pc)
    × ((i : ℕ) → i < 2 → (t.timer.devices i).done ≡ false)
unfolding tell_done
round_completes_example = round_completes 2 both_done.0 refl refl both_reported
