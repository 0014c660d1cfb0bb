-- ===== src/Os/Threads.antt =====
-- The threads of src/os.c together: any number of CPUs in `cpu_routine` and the loader in
-- `ld_routine`, interleaved in any order. A step is a call of the scheduler, an instruction, or the
-- end of a process; the waits between slots are left out, which only allows more orders. A call of the
-- scheduler runs under `queue_lock`, and ALLOC and FREE under `mmvm_lock`. The system calls and the
-- swapping of a page take no lock: as one step they stand for those orders only in which no other
-- thread uses the same lists meanwhile, and Os/Threads/Calls is there to leave them out.
pub mod Calls
pub mod Placement
pub mod Moves
pub mod Safety
pub mod Turns
pub mod Memory
pub mod Presence
pub mod Service
pub mod Executed
pub mod Program
pub mod Accounts
mod Tests
use easter_egg.Common.{ℕ, ◌+◌, ◌≡◌, true, Option, none, some, ◌==◌, update, Status}
use easter_egg.Sched.{Sched, initial, init_scheduler, get_proc, put_proc}
use easter_egg.Vm.{Malloc}
use easter_egg.Process.{Machine, code_size}
use easter_egg.Cpu.{run}
use easter_egg.Os.{Loaded, load_process, prio_of, put_sched}

-- `held` is the variable `proc` of each CPU, `count` the variable `i` of the loader. A CPU that has
-- put its process back or found it finished holds none, since it overwrites `proc` next.
pub record World : Type 0 where
  pub machine : Machine
  pub held : ℕ → Option ℕ
  pub count : ℕ

pub data Step (malloc : Malloc) (loaded : Loaded) (w : World) : World → Type 0 where
  gets :
      (i : ℕ) (proc : Option ℕ) (s : Sched)
      → w.held i ≡ none
      → get_proc (prio_of w.machine) w.machine.sched ≡ some (proc, s)
      → Step malloc loaded w
          (record w { machine = put_sched w.machine s; held = update w.held i proc })
  finishes :
      (i p : ℕ)
      → w.held i ≡ some p
      → ((w.machine.pcb p).pc == code_size w.machine p) ≡ true
      → Step malloc loaded w (record w { held = update w.held i none })
  puts :
      (i p : ℕ) (s : Sched)
      → w.held i ≡ some p
      → put_proc (prio_of w.machine) w.machine.sched p ≡ some s
      → Step malloc loaded w
          (record w { machine = put_sched w.machine s; held = update w.held i none })
  runs :
      (i p : ℕ) (stat : Status) (after : Machine)
      → w.held i ≡ some p
      → run malloc w.machine p ≡ some (stat, after)
      → Step malloc loaded w (record w { machine = after })
  loads :
      (after : Machine)
      → load_process malloc loaded w.machine w.count ≡ some after
      → Step malloc loaded w (record w { machine = after; count = w.count + 1 })

-- What `main` starts the threads with, on a machine whose scheduler is set up.
abbrev pub begin : Machine → World
begin m = record { machine = put_sched m (init_scheduler initial); held = λ _. none; count = 0 }

-- The worlds that the steps lead to from another one.
pub data Run (malloc : Malloc) (loaded : Loaded) (w : World) : World → Type 0 where
  here : Run malloc loaded w w
  then_step : {u v : World} → Run malloc loaded w u → Step malloc loaded u v → Run malloc loaded w v
