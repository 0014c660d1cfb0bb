-- ===== src/Os/Idle.antt =====
-- A CPU that has no process when none is left to come.
use easter_egg.Common.{ℕ, zero, suc, ◌<◌, ◌≡◌, refl, Bool}
use easter_egg.Common.{Option, none, some, ◌>>=◌}
use easter_egg.Sched.{Sched, get_proc, get_mlq_proc}
use easter_egg.Sched.Call.{
  IsValid, Call, same_round, new_round, idle, idle_state, get_mlq_proc-Call,
}
use easter_egg.Sched.Progress.{eligible_size, get_mlq_proc-IsValid}
use easter_egg.Vm.{Malloc}
use easter_egg.Process.{Machine}
use easter_egg.Os.{CpuState, Outcome, next_slot, leaves, fetch, check_status, cpu_turn, prio_of}
use easter_egg.Os.{put_sched}

-- A number of turns of one CPU, with no other thread at work.
unfoldable pub turns_alone : Malloc → ℕ → Bool → ℕ → Machine → CpuState → Option (Outcome CpuState)
turns_alone malloc time_slot done zero m cpu = some (next_slot cpu m)
turns_alone malloc time_slot done (suc k) m cpu = cpu_turn malloc time_slot done m cpu >>= λ r.
    elim r [
      | next_slot after later ↦ turns_alone malloc time_slot done k later after
      | leaves later ↦ some (leaves later)
    ]

abbrev pub NoneReady : Sched → Type 0
NoneReady s = (q : ℕ) → q < 140 → (s.mlq_ready_queue q).size ≡ 0

abbrev pub without_process : ℕ → CpuState
without_process t = record { proc = none; time_left = t }

gets_none :
    (prio : ℕ → ℕ) (s : Sched)
    → NoneReady s
    → Call prio s (get_mlq_proc prio s)
    → get_mlq_proc prio s ≡ some (none, idle_state s)
gets_none prio s empty (same_round p a b c d r) = absurd (eligible_size s p c (empty p b))
gets_none prio s empty (new_round p over n b c d r) = absurd (c (empty p b))
gets_none prio s empty (idle over w r) = r

idle_turn :
    (malloc : Malloc) (time_slot : ℕ) (done : Bool) (m : Machine) (t : ℕ)
    → IsValid m.sched
    → NoneReady m.sched
    → cpu_turn malloc time_slot done m (without_process t)
      ≡ some (next_slot (without_process t) (put_sched m (idle_state m.sched)))
unfolding cpu_turn check_status fetch get_proc
idle_turn malloc time_slot done m t valid empty =
    rw (gets_none (prio_of m) m.sched empty (get_mlq_proc-Call (prio_of m) m.sched valid)) refl

-- While no process is ready, a CPU without a process never leaves: after any number of its turns it
-- has none and waits for the next slot, whether or not `done` says that no process is to come.
pub idle_never_leaves :
    (malloc : Malloc) (time_slot : ℕ) (done : Bool) (k : ℕ) (m : Machine) (t : ℕ)
    → IsValid m.sched
    → ((q : ℕ) → q < 140 → (m.sched.mlq_ready_queue q).size ≡ 0)
    → (after : Machine) × (turns_alone malloc time_slot done k m (without_process t)
        ≡ some (next_slot (without_process t) after))
unfolding turns_alone
idle_never_leaves malloc time_slot done zero m t valid empty = (m, refl)
idle_never_leaves malloc time_slot done (suc k) m t valid empty =
    let got = gets_none (prio_of m) m.sched empty (get_mlq_proc-Call (prio_of m) m.sched valid) in
    let (after, run) =
      idle_never_leaves malloc time_slot done k (put_sched m (idle_state m.sched)) t
        (get_mlq_proc-IsValid (prio_of m) m.sched (idle_state m.sched) none valid got) empty in
    (after, rw (idle_turn malloc time_slot done m t valid empty) run)
