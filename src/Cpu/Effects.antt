-- ===== src/Cpu/Effects.antt =====
-- What an instruction of any kind may do to the priorities of processes and to the scheduler.
use mathlib.Core.Path.{subst}
use easter_egg.Common.{ℕ, ◌+◌, ◌≡◌, sym, ◌∙◌, arith, some, Status}
use easter_egg.Vm.{Malloc}
use easter_egg.Process.{Machine, Inst, put_caller, put_pc}
use easter_egg.Killall.Result.{Keeps-refl, put_caller-Keeps}
use easter_egg.Killall.Effects.{Spares, sys_killall-Spares, Keeps-Spares}
use easter_egg.Cpu.{run}
use easter_egg.Cpu.Cases.{Effect, unchanged, stores, kills, ended, ran, run-Ran}

Effect-Spares :
    (malloc : Malloc) (m after : Machine) (p : ℕ) (ins : Inst)
    → Effect malloc m p ins after
    → Spares m after
Effect-Spares malloc m after p ins (unchanged same) =
    subst (Spares m) (sym same) (Keeps-Spares m m (Keeps-refl m))
Effect-Spares malloc m after p ins (stores c t same) =
    subst (Spares m) (sym same) (Keeps-Spares m (put_caller m p c) (put_caller-Keeps m p c))
Effect-Spares malloc m after p ins (kills op nr e) = sys_killall-Spares malloc m after p ins.arg_1 e

-- An instruction that is executed without a fault, system calls included, leaves the priority of
-- every process and the variables of the round, and takes from each level no more than some
-- processes at its front.
pub run-Spares :
    (malloc : Malloc) (m after : Machine) (p : ℕ) (stat : Status)
    → run malloc m p ≡ some (stat, after)
    → Spares m after
run-Spares malloc m after p stat e = elim (run-Ran malloc m after p stat e) [
  | ended none_left same ↦ subst (Spares m) (sym same) (Keeps-Spares m m (Keeps-refl m))
  | ran ins found effect ↦
      (let s = Effect-Spares malloc (put_pc m p ((m.pcb p).pc + 1)) after p ins effect in
        record { prio = λ q. s.prio q ∙ ground arith; levels = s.levels; round = s.round })
]
