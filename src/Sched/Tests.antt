-- ===== src/Sched/Tests.antt =====
-- Runs of the scheduler, and the theorems about it at concrete states.
use easter_egg.Common.{ℕ, ◌≡◌, refl, arith, some, none, false, if◌then◌else◌, ◌==◌}
use easter_egg.Common.{update}
use easter_egg.Queue.{Queue, enqueue, dequeue, highest_loop, shift_loop}
use easter_egg.Sched.{Sched, initial, empty_queue, get_mlq_proc}
use easter_egg.Sched.{label_loop, scan_loop, eligible}
use easter_egg.Sched.{serve, reset_loop, queue_empty, some_level}
use easter_egg.Sched.Call.{IsValid, Call, get_mlq_proc-Call}
use easter_egg.Sched.Progress.{two_calls_empty}

abbrev prio : ℕ → ℕ
prio p = if p == 5 then 138 else 139

-- Process 5 waits on level 138, process 6 on level 139; level 137 is being served.
abbrev two_waiting : Sched
two_waiting = record initial {
  mlq_ready_queue =
      update (update (λ _. empty_queue) 138 (record { proc = λ _. 5; size = 1 })) 139
        (record { proc = λ _. 6; size = 1 });
  marked_prior = 137;
  flag = false;
}

served_state : Sched
served_state = (serve prio (record two_waiting { marked_prior = 138 })).1

serves_the_first : get_mlq_proc prio two_waiting ≡ some (some 5, served_state)
unfolding get_mlq_proc label_loop scan_loop eligible serve dequeue highest_loop shift_loop
    served_state
serves_the_first = refl

not_empty : queue_empty two_waiting ≡ some_level
unfolding queue_empty easter_egg.Queue.empty
not_empty = refl

two_waiting-IsValid : IsValid two_waiting
two_waiting-IsValid = record {
  level = omega arith;
  shares = λ p h. omega arith;
  serving = λ e. refl;
  fresh = λ e. cc;
}

get_mlq_proc-Call_example : Call prio two_waiting (get_mlq_proc prio two_waiting)
get_mlq_proc-Call_example = get_mlq_proc-Call prio two_waiting two_waiting-IsValid

abbrev put_back : Sched
put_back = record two_waiting {
  running_list = enqueue empty_queue 5;
  mlq_ready_queue =
      update two_waiting.mlq_ready_queue 138 (enqueue (two_waiting.mlq_ready_queue 138) 5);
}

-- No process at all, with level 139 in hand.
abbrev nothing_waiting : Sched
nothing_waiting = record initial { marked_prior = 139; flag = false }

nothing_waiting-IsValid : IsValid nothing_waiting
nothing_waiting-IsValid = record {
  level = omega arith;
  shares = λ p h. omega arith;
  serving = λ e. refl;
  fresh = λ e. cc;
}

abbrev quiet : Sched
quiet = record initial { slot = reset_loop 140 0 (reset_loop 140 0 (λ _. 0)); count = 140 }

abbrev still_quiet : Sched
still_quiet = record initial { slot = reset_loop 140 0 (reset_loop 140 0 quiet.slot); count = 140 }

first_none : get_mlq_proc prio nothing_waiting ≡ some (none, quiet)
unfolding get_mlq_proc label_loop scan_loop eligible
first_none = refl

second_none : get_mlq_proc prio quiet ≡ some (none, still_quiet)
unfolding get_mlq_proc label_loop scan_loop eligible
second_none = refl

two_calls_empty_example : (nothing_waiting.mlq_ready_queue 12).size ≡ 0
two_calls_empty_example =
    two_calls_empty prio nothing_waiting quiet still_quiet nothing_waiting-IsValid first_none
      second_none 12 (omega arith)
