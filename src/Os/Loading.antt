-- ===== src/Os/Loading.antt =====
-- Turns of the loader, `ld_routine` of src/os.c, until it ends.
use easter_egg.Common.{ℕ, zero, suc, ◌+◌}
use easter_egg.Common.{Option, some, ◌>>=◌}
use easter_egg.Sched.{Sched}
use easter_egg.Vm.{Malloc, init_mm}
use easter_egg.Process.{Machine, Pcb}
use easter_egg.Os.{Outcome, next_slot, leaves, Loaded, ld_turn}

-- A number of turns of the loader from `time` on, one in each slot.
unfoldable pub ld_turns : Malloc → Loaded → ℕ → (ℕ → ℕ) → ℕ → ℕ → Machine → ℕ → Option (Outcome ℕ)
ld_turns malloc loaded num_processes start_time zero time m i = some (next_slot i m)
ld_turns malloc loaded num_processes start_time (suc k) time m i =
    ld_turn malloc loaded num_processes start_time time m i >>= λ r. elim r [
      | next_slot j later ↦ ld_turns malloc loaded num_processes start_time k (time + 1) later j
      | leaves later ↦ some (leaves later)
    ]

-- Process `i` as the loader makes it.
abbrev pub made : Malloc → Loaded → ℕ → Pcb
made malloc loaded i = record (loaded i) { mm = (init_mm malloc (loaded i).mm).1 }
