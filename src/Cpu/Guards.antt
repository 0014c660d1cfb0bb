-- ===== src/Cpu/Guards.antt =====
-- What an instruction of any kind leaves of the regions of processes and the free frames of RAM.
use mathlib.Core.Path.{subst}
use easter_egg.Common.{ℕ, ◌+◌, ◌≡◌, sym, some, Status}
use easter_egg.Vm.{Malloc}
use easter_egg.Process.{Machine, Inst, put_pc}
use easter_egg.Killall.Guards.{Guards, Guards-refl, Guards-trans, put_caller-Guards, put_pc-Guards}
use easter_egg.Killall.Guards.{sys_killall-Guards}
use easter_egg.Cpu.{run}
use easter_egg.Cpu.Cases.{Effect, unchanged, stores, kills, ended, ran, run-Ran}

Effect-Guards :
    (malloc : Malloc) (m after : Machine) (p : ℕ) (ins : Inst)
    → Effect malloc m p ins after
    → Guards m after
Effect-Guards malloc m after p ins (unchanged same) = subst (Guards m) (sym same) (Guards-refl m)
Effect-Guards malloc m after p ins (stores c t same) =
    subst (Guards m) (sym same) (put_caller-Guards m p c t)
Effect-Guards malloc m after p ins (kills op nr e) = sys_killall-Guards malloc m after p ins.arg_1 e

-- An instruction that is executed without a fault, system calls included, leaves every process laid
-- out that was, and takes no more than some frames at the front of RAM's free list.
pub run-Guards :
    (malloc : Malloc) (m after : Machine) (p : ℕ) (stat : Status)
    → run malloc m p ≡ some (stat, after)
    → Guards m after
run-Guards malloc m after p stat e = elim (run-Ran malloc m after p stat e) [
  | ended none_left same ↦ subst (Guards m) (sym same) (Guards-refl m)
  | ran ins found effect ↦
      Guards-trans (put_pc-Guards m p ((m.pcb p).pc + 1))
        (Effect-Guards malloc (put_pc m p ((m.pcb p).pc + 1)) after p ins effect)
]
