-- ===== src/Os.antt =====
-- The threads of src/os.c: one turn of `cpu_routine`, up to its call of `next_slot`, and one of
-- `ld_routine`. Other threads may run between the parts of a turn, so each part that uses shared
-- state is a function of its own; a turn as a whole is one in which none did. Memory that a
-- finished process gives back keeps what it holds.
pub mod Startup
pub mod Quantum
pub mod Idle
pub mod Loading
pub mod Threads
pub mod Leaving
pub mod Main
mod Tests
use easter_egg.Common.{ℕ, zero, suc, ◌+◌, ◌-◌, ◌*◌, ◌/◌, ◌%◌, ◌^◌, Bool, true, false}
use easter_egg.Common.{Option, none, some, ltb, ◌==◌, ◌>>=◌, if◌then◌else◌, update}
use easter_egg.Sched.{Sched, get_proc, put_proc, add_proc}
use easter_egg.Vm.{Malloc, init_mm}
use easter_egg.Process.{Machine, Pcb, code_size}
use easter_egg.Cpu.{run}

-- The local variables of `cpu_routine`. `time_left` is the bit pattern of an `int`.
pub record CpuState : Type 0 where
  pub proc : Option ℕ
  pub time_left : ℕ

-- What a turn of a thread ends with.
pub data Outcome (S : Type 0) : Type 0 where
  next_slot : S → Machine → Outcome S
  leaves : Machine → Outcome S

-- The `prio` fields.
abbrev pub prio_of : Machine → ℕ → ℕ
prio_of m p = (m.pcb p).prio

abbrev pub put_sched : Machine → Sched → Machine
put_sched m s = record m { sched = s }

-- `proc = get_proc();`
unfoldable pub fetch : Machine → ℕ → Option (CpuState × Machine)
fetch m time_left = do
  (proc, sched) ← get_proc (prio_of m) m.sched
  some (record { proc = proc; time_left = time_left }, put_sched m sched)

-- The status of the current process is checked, and another one fetched if need be. The last
-- component says that there was no process before.
unfoldable pub check_status : Machine → CpuState → Option (CpuState × Machine × Bool)
check_status m cpu = elim cpu.proc [
  | none ↦ fetch m cpu.time_left >>= λ r. some (r.0, r.1, true)
  | some p ↦
      (if (m.pcb p).pc == code_size m p
        then (fetch m 0 >>= λ r. some (r.0, r.1, false))
        else if cpu.time_left == 0
        then (put_proc (prio_of m) m.sched p >>= λ s.
            fetch (put_sched m s) cpu.time_left >>= λ r. some (r.0, r.1, false))
        else some (cpu, m, false))
]

-- The process is run for one slot, with a new quantum if none is left.
unfoldable pub run_process : Malloc → ℕ → Machine → ℕ → ℕ → Option (Outcome CpuState)
run_process malloc time_slot m p time_left =
    let quantum = if time_left == 0 then time_slot else time_left in
    run malloc m p >>= λ r.
    some (next_slot (record { proc = some p; time_left = (quantum + (2 ^ 32 - 1)) % 2 ^ 32 }) r.1)

-- A CPU that had no process and gets none waits without a look at `done`.
unfoldable pub cpu_turn : Malloc → ℕ → Bool → Machine → CpuState → Option (Outcome CpuState)
cpu_turn malloc time_slot done m cpu = check_status m cpu >>= λ r. elim r.0.proc [
  | some p ↦ run_process malloc time_slot r.1 p r.0.time_left
  | none ↦
      (if r.2
        then some (next_slot r.0 r.1)
        else if done
        then some (leaves r.1)
        else some (next_slot r.0 r.1))
]

-- What `load` and the configuration give of process `i`: everything but its memory.
abbrev pub Loaded : Type 0
Loaded = ℕ → Pcb

-- `proc->mm = malloc(…); init_mm(…); add_proc(proc);`, with the memory `raw` as `malloc` gives it.
unfoldable pub load_process : Malloc → Loaded → Machine → ℕ → Option Machine
load_process malloc loaded m i =
    let proc = record (loaded i) { mm = (init_mm malloc (loaded i).mm).1 } in
    let stored = record m { pcb = update m.pcb i proc } in
    add_proc (prio_of stored) stored.sched i >>= λ s. some (put_sched stored s)

-- A turn of `ld_routine` with `i` processes loaded at `time`: it waits for the start time of the next
-- one, or loads it.
unfoldable pub ld_turn : Malloc → Loaded → ℕ → (ℕ → ℕ) → ℕ → Machine → ℕ → Option (Outcome ℕ)
ld_turn malloc loaded num_processes start_time time m i =
    if ltb i num_processes
    then (if ltb time (start_time i)
        then some (next_slot i m)
        else (load_process malloc loaded m i >>= λ next. some (next_slot (i + 1) next)))
    else some (leaves m)
