-- ===== src/Os/Threads/Tests.antt =====
-- Steps of the threads, and the theorems about them at concrete worlds.
use mathlib.Core.Path.{subst}
use easter_egg.Common.{ℕ, ◌+◌, ◌<◌, ◌≡◌, refl, arith, some, [], ◌∷◌}
use easter_egg.Sched.{initial, init_scheduler}
use easter_egg.Process.{Machine, Inst, Opcode, put_pc}
use easter_egg.Cpu.{run, execute}
use easter_egg.Os.{put_sched}
use easter_egg.Os.{load_process, prio_of}
use easter_egg.Common.{Option, none, update, All, Distinct}
use mathlib.Core.Logic.{◌≢◌}
use easter_egg.Queue.Refine.{contents}
use easter_egg.Os.Threads.Safety.{never_shared, level_order, get_proc_returns}
use easter_egg.Common.{inr}
use easter_egg.Memphy.Shape.{Shrinks, SameDevice}
use easter_egg.Libmem.Layout.{LaidOut}
use easter_egg.Os.Threads.Memory.{GivesZeros, init_mm-LaidOut, regions_apart, frames_never_return}
use easter_egg.Os.Threads.Calls.{NoKillall, IsPlain, AllPlain, LoadsLaidOut}
use easter_egg.Os.Threads.Presence.{Has, never_lost}
use easter_egg.Common.{take}
use easter_egg.Os.Threads.Service.{begins, then_gets, served_in_time}
use easter_egg.Common.{inl, ◌*◌}
use easter_egg.Common.{ok, ◌≤◌}
use easter_egg.Os.Threads.{runs}
use easter_egg.Os.Threads.Program.{program_order}
use easter_egg.Os.Threads.Executed.{Does}
use easter_egg.Cpu.Kills.{Kills}
use easter_egg.Queue.{enqueue, dequeue, highest_loop, shift_loop}
use easter_egg.Sched.{
  Sched, get_proc, get_mlq_proc, label_loop, scan_loop, eligible, serve, init_loop, reset_loop,
}
use easter_egg.Sched.{add_proc, add_mlq_proc, enlist_running}
use easter_egg.Os.Threads.{World, gets, loads, begin, Run, here, then_step}
use easter_egg.Common.{zero, suc, ◌⊎◌}
use easter_egg.Os.Threads.Presence.{Present}
use easter_egg.Os.Threads.Accounts.{IsCalm, AllCalm, AtEnd, accounted}
use easter_egg.Os.Tests.{memory, ins, process, machine, result}

-- Process 0 is loaded; the first call of `get_proc` gives none, and the second one gives it to CPU 3.
abbrev first_world : World
first_world = begin machine

abbrev with_process : Machine
with_process = result machine (load_process memory process first_world.machine 0)

abbrev first_call : Option ℕ × Sched
first_call = result (none, initial) (get_proc (prio_of with_process) with_process.sched)

abbrev idle_machine : Machine
idle_machine = put_sched with_process first_call.1

abbrev second_call : Option ℕ × Sched
second_call = result (none, initial) (get_proc (prio_of idle_machine) idle_machine.sched)

loads_it : load_process memory process first_world.machine 0 ≡ some with_process
unfolding load_process add_proc add_mlq_proc enlist_running
loads_it = refl

calls :
    (get_proc (prio_of with_process) with_process.sched ≡ some (none, first_call.1))
    × (get_proc (prio_of idle_machine) idle_machine.sched ≡ some (some 0, second_call.1))
unfolding get_proc get_mlq_proc label_loop scan_loop eligible serve dequeue highest_loop shift_loop
    enqueue reset_loop load_process add_proc add_mlq_proc enlist_running init_scheduler init_loop
calls = (refl, refl)

abbrev last_world : World
last_world = record {
  machine = put_sched idle_machine second_call.1;
  held = update (update (λ _. none) 3 none) 3 (some 0);
  count = 0 + 1;
}

to_last_world : Run memory process (begin machine) last_world
to_last_world =
    then_step
      (then_step (then_step here (loads with_process loads_it))
        (gets 3 none first_call.1 refl calls.0))
      (gets 3 (some 0) second_call.1 refl calls.1)

-- Only loading and calls of `get_proc`.
quiet : NoKillall to_last_world
unfolding to_last_world
quiet = (((tt, tt), tt), tt)

never_shared_example : ◌≡◌ {A = ℕ} 3 3
never_shared_example = never_shared memory process machine to_last_world quiet 3 3 0 refl refl

get_proc_returns_example :
    (got : Option ℕ × Sched) × (get_proc (prio_of last_world.machine) last_world.machine.sched
      ≡ some got)
get_proc_returns_example = get_proc_returns memory process machine to_last_world quiet

level_order_example :
    let level = with_process.sched.mlq_ready_queue 130 in
    All (λ p. ((with_process.pcb p).prio ≡ 130) × ((i : ℕ) → none ≢ some p)) (contents level)
    × Distinct (contents level)
    × (0 < level.size
        → (p : ℕ) × ((dequeue (prio_of with_process) level).0 ≡ some p)
          × (contents level ≡ p ∷ contents (dequeue (prio_of with_process) level).1))
level_order_example =
    level_order memory process machine (then_step here (loads with_process loads_it)) (tt, tt) 130
      (omega arith)

abbrev after_load : World
after_load = record { machine = with_process; held = λ _. none; count = 0 + 1 }

never_lost_example :
    Present after_load 0
    ⊎ ((◌≡◌ {A = ℕ} 0 0) × (((init_scheduler initial).mlq_ready_queue 130).size ≡ 10))
never_lost_example =
    never_lost memory process machine here tt (loads with_process loads_it) tt 0 (inr (refl, refl))

-- Process 0 is loaded, and the first call of `get_proc` leaves it where it is.
to_after_load : Run memory process (begin machine) after_load
to_after_load = then_step here (loads with_process loads_it)

still_waits : Has 0 (contents (first_call.1.mlq_ready_queue 130))
unfolding get_proc get_mlq_proc label_loop scan_loop eligible serve dequeue highest_loop shift_loop
    enqueue reset_loop load_process add_proc add_mlq_proc enlist_running init_scheduler init_loop
still_waits = inl refl

waits_first : Has 0 (contents (with_process.sched.mlq_ready_queue 130))
unfolding enqueue load_process add_proc add_mlq_proc enlist_running init_scheduler init_loop
waits_first = inl refl

served_in_time_example : 1 < (with_process.sched.mlq_ready_queue 130).size * 19742
served_in_time_example =
    served_in_time memory process machine 130 0 to_after_load (omega arith) waits_first
      (then_gets 3 none first_call.1 begins refl calls.0 still_waits)

-- CPU 3 runs the first of the two instructions of process 0.
abbrev ran_world : World
ran_world = record last_world { machine = put_pc last_world.machine 0 1 }

runs_it : run memory last_world.machine 0 ≡ some (ok, ran_world.machine)
unfolding run execute load_process add_proc add_mlq_proc enlist_running
runs_it = refl

to_ran_world : Run memory process (begin machine) ran_world
to_ran_world = then_step to_last_world (runs 3 0 ok ran_world.machine refl runs_it)

no_killall : Kills last_world.machine 0 → ⊥
unfolding load_process add_proc add_mlq_proc enlist_running
no_killall (found, is, op, nr) = calc_only found is op
  where
    calc_only : (x : Inst) → some ins ≡ some x → x.opcode ≡ Opcode.syscall → ⊥
    calc_only x e f = cc

spares_all : NoKillall to_ran_world
unfolding to_ran_world to_last_world load_process add_proc add_mlq_proc enlist_running
spares_all = ((((tt, tt), tt), tt), no_killall)

-- The instruction executed is CALC.
plain : AllPlain to_ran_world
unfolding to_ran_world to_last_world load_process add_proc add_mlq_proc enlist_running
plain = ((((tt, tt), tt), tt), λ x e. calc_only x e)
  where
    calc_only : (x : Inst) → some ins ≡ some x → IsPlain x
    calc_only x e =
        let same : ins ≡ x = cc in subst IsPlain same (record { no_call = λ h. cc; size = λ h. cc })

zeros : GivesZeros memory process
zeros = record { freerg = refl; regions = λ i j h. refl }

laid_out : LoadsLaidOut to_ran_world
unfolding to_ran_world to_last_world load_process add_proc add_mlq_proc enlist_running
laid_out = ((((tt, init_mm-LaidOut memory process 0 zeros), tt), tt), tt)

regions_apart_example : LaidOut (ran_world.machine.pcb 0).mm
regions_apart_example =
    regions_apart memory process machine to_ran_world plain laid_out 0 (omega arith)

frames_never_return_example :
    Shrinks machine.mram ran_world.machine.mram
    × SameDevice machine.active_mswp ran_world.machine.active_mswp
frames_never_return_example = frames_never_return memory process machine to_ran_world plain

program_order_example :
    ((ran_world.machine.pcb 0).code ≡ ins ∷ ins ∷ [])
    × ((ran_world.machine.pcb 0).pc ≤ 2)
    × Does 0 to_ran_world (take (ran_world.machine.pcb 0).pc (ins ∷ ins ∷ []))
program_order_example =
    program_order memory process machine to_ran_world 0 spares_all refl (omega arith)

init_loop-size :
    (rounds i : ℕ) (s : Sched) (q : ℕ)
    → (s.mlq_ready_queue q).size ≡ 0
    → ((init_loop rounds i s).mlq_ready_queue q).size ≡ 0
unfolding init_loop
init_loop-size zero i s q e = e
init_loop-size (suc rounds) i s q e = init_loop-size rounds (i + 1) _ q (ground arith)

start_size : (q : ℕ) → ((init_scheduler initial).mlq_ready_queue q).size ≡ 0
unfolding init_scheduler
start_size q = init_loop-size 140 0 initial q refl

begin-IsCalm : IsCalm (begin machine)
begin-IsCalm = record { room = λ q e. omega (arith, start_size q, e); no_killall = λ i p e. cc }

loaded_size : (q : ℕ) → (with_process.sched.mlq_ready_queue q).size ≢ 10
unfolding load_process add_proc add_mlq_proc enlist_running enqueue
loaded_size q e = ground (arith, start_size 130, start_size q, e)

after_load-IsCalm : IsCalm after_load
after_load-IsCalm = record { room = loaded_size; no_killall = λ i p e. cc }

both_calm : AllCalm to_after_load
unfolding to_after_load
both_calm = (begin-IsCalm, after_load-IsCalm)

accounted_example : Present after_load 0 ⊎ AtEnd after_load.machine 0
accounted_example = accounted memory process machine to_after_load both_calm 0 (omega arith)
