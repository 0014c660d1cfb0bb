-- ===== src/Os/Threads/Calls.antt =====
-- Which instructions the steps of Os/Threads execute, as conditions on sequences of steps.
use easter_egg.Common.{◌+◌, ◌^◌, ◌≤◌, ◌≡◌, ◌≢◌, some, get_elem?}
use easter_egg.Vm.{Malloc}
use easter_egg.Process.{Inst, Opcode}
use easter_egg.Cpu.Kills.{Kills}
use easter_egg.Libmem.Layout.{LaidOut}
use easter_egg.Os.{Loaded}
use easter_egg.Os.Threads.{World, Step, gets, finishes, puts, runs, loads, Run, here, then_step}

-- No instruction is a call of `killall`.
abbrev pub StepSpares :
    {malloc : Malloc} {loaded : Loaded} {w v : World} → Step malloc loaded w v → Type 0
StepSpares (gets i proc s free e) = Unit
StepSpares (finishes i q has over) = Unit
StepSpares (puts i q s has e) = Unit
StepSpares {w = w} (runs i q stat after has e) = Kills w.machine q → ⊥
StepSpares (loads after e) = Unit

abbrev pub NoKillall :
    {malloc : Malloc} {loaded : Loaded} {w v : World} → Run malloc loaded w v → Type 0
NoKillall here = Unit
NoKillall (then_step r st) = NoKillall r × StepSpares st

-- An instruction makes no system call, and the size that it allocates, rounded up
-- to whole pages, is an `int` that is not negative.
pub record IsPlain (ins : Inst) : Type 0 where
  pub no_call : ins.opcode ≢ Opcode.syscall
  pub size : ins.opcode ≡ Opcode.alloc → ins.arg_0 + 256 ≤ 2 ^ 31

abbrev pub StepPlain :
    {malloc : Malloc} {loaded : Loaded} {w v : World} → Step malloc loaded w v → Type 0
StepPlain (gets i proc s free e) = Unit
StepPlain (finishes i q has over) = Unit
StepPlain (puts i q s has e) = Unit
StepPlain {w = w} (runs i q stat after has e) =
    (ins : Inst) → get_elem? (w.machine.pcb q).code (w.machine.pcb q).pc ≡ some ins → IsPlain ins
StepPlain (loads after e) = Unit

abbrev pub AllPlain :
    {malloc : Malloc} {loaded : Loaded} {w v : World} → Run malloc loaded w v → Type 0
AllPlain here = Unit
AllPlain (then_step r st) = AllPlain r × StepPlain st

-- The memory of each process is laid out when the process is loaded: its table of regions is empty,
-- or names regions below the break that are apart.
abbrev pub StepLoads :
    {malloc : Malloc} {loaded : Loaded} {w v : World} → Step malloc loaded w v → Type 0
StepLoads (gets i proc s free e) = Unit
StepLoads (finishes i q has over) = Unit
StepLoads (puts i q s has e) = Unit
StepLoads (runs i q stat after has e) = Unit
StepLoads {w = w} (loads after e) = LaidOut (after.pcb w.count).mm

abbrev pub LoadsLaidOut :
    {malloc : Malloc} {loaded : Loaded} {w v : World} → Run malloc loaded w v → Type 0
LoadsLaidOut here = Unit
LoadsLaidOut (then_step r st) = LoadsLaidOut r × StepLoads st
