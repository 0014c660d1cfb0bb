-- ===== src/Os/Leaving.antt =====
-- A CPU that leaves while a process waits.
use easter_egg.Common.{ℕ, ◌≡◌, ◌≢◌, inl, refl, true, false}
use easter_egg.Common.{none, some, ◌==◌}
use easter_egg.Queue.Refine.{contents}
use easter_egg.Sched.{Sched, get_proc, put_proc, get_mlq_proc}
use easter_egg.Sched.Call.{IsValid, Call, same_round, new_round, idle, RoundOver, idle_state}
use easter_egg.Sched.Call.{get_mlq_proc-Call}
use easter_egg.Sched.Progress.{put_add-IsValid}
use easter_egg.Vm.{Malloc}
use easter_egg.Process.{Machine, code_size}
use easter_egg.Os.{leaves, fetch, check_status, cpu_turn, prio_of, put_sched}
use easter_egg.Os.Threads.Presence.{Has, put_proc-Has}

over_gives_none :
    (prio : ℕ → ℕ) (s : Sched)
    → RoundOver s
    → s.count ≡ s.marked_prior
    → Call prio s (get_mlq_proc prio s)
    → get_mlq_proc prio s ≡ some (none, idle_state s)
over_gives_none prio s over same (same_round p a b c d r) = let none_left = over p a b in cc
over_gives_none prio s over same (new_round p none_left ne b c d r) = absurd (ne same)
over_gives_none prio s over same (idle none_left w r) = r

-- A CPU whose process is not at its end and has used its quantum, on a level with room, when no level
-- from `MarkedPrior` on has both a process and a slot left behind that process's return, `count` is
-- `MarkedPrior`, and `done` is set: the CPU leaves, although the process waits on its level.
pub leaves_ready :
    (malloc : Malloc) (time_slot : ℕ) (m : Machine) (p : ℕ) (s : Sched)
    → IsValid m.sched
    → ((m.pcb p).pc == code_size m p) ≡ false
    → put_proc (prio_of m) m.sched p ≡ some s
    → (m.sched.mlq_ready_queue (m.pcb p).prio).size ≢ 10
    → RoundOver s
    → s.count ≡ s.marked_prior
    → (cpu_turn malloc time_slot true m (record { proc = some p; time_left = 0 })
        ≡ some (leaves (put_sched m (idle_state s))))
      × Has p (contents ((idle_state s).mlq_ready_queue (m.pcb p).prio))
unfolding cpu_turn check_status fetch get_proc
leaves_ready malloc time_slot m p s valid going put room over same =
    let kept = put_add-IsValid (prio_of m) m.sched s p valid (inl put) in
    let got = over_gives_none (prio_of m) s over same (get_mlq_proc-Call (prio_of m) s kept) in
    (rw (going, put, got) refl, put_proc-Has (prio_of m) m.sched s p room put)
