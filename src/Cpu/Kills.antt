-- ===== src/Cpu/Kills.antt =====
-- Which instructions change the scheduler, or another counter than that of their process.
use mathlib.Core.Path.{subst}
use easter_egg.Common.{ℕ, ◌+◌, ◌≡◌, ◌≢◌, ◌⊎◌, inl, inr, sym, ap, ◌∙◌, arith, none, some}
use easter_egg.Common.{get_elem?, Status}
use easter_egg.Vm.{Malloc}
use easter_egg.Process.{Machine, Inst, Opcode, put_pc}
use easter_egg.Killall.Result.{Keeps, Keeps-refl, put_caller-Keeps}
use easter_egg.Cpu.{run}
use easter_egg.Cpu.Cases.{Effect, unchanged, stores, kills, ended, ran, run-Ran}

-- The next instruction of process `p` is the system call `killall`.
abbrev pub Kills : Machine → ℕ → Type 0
Kills m p =
    (ins : Inst) × (get_elem? (m.pcb p).code (m.pcb p).pc ≡ some ins)
    × (ins.opcode ≡ Opcode.syscall)
    × (ins.arg_0 ≡ 101)

Effect-Keeps :
    (malloc : Malloc) (m after : Machine) (p : ℕ) (ins : Inst)
    → Effect malloc m p ins after
    → Keeps m after ⊎ ((ins.opcode ≡ Opcode.syscall) × (ins.arg_0 ≡ 101))
Effect-Keeps malloc m after p ins (unchanged same) = inl (subst (Keeps m) (sym same) (Keeps-refl m))
Effect-Keeps malloc m after p ins (stores c t same) =
    inl (subst (Keeps m) (sym same) (put_caller-Keeps m p c))
Effect-Keeps malloc m after p ins (kills op nr e) = inr (op, nr)

-- An instruction that is executed without a fault leaves the scheduler, but for `killall`.
pub run-sched :
    (malloc : Malloc) (m after : Machine) (p : ℕ) (stat : Status)
    → run malloc m p ≡ some (stat, after)
    → (after.sched ≡ m.sched) ⊎ Kills m p
run-sched malloc m after p stat e = elim (run-Ran malloc m after p stat e) [
  | ended none_left same ↦ inl (ap (λ (x : Machine). x.sched) same)
  | ran ins found effect ↦
      elim (Effect-Keeps malloc (put_pc m p ((m.pcb p).pc + 1)) after p ins effect) [
        | inl kept ↦ inl kept.sched
        | inr (op, nr) ↦ inr (ins, found, op, nr)
      ]
]

-- `p` has executed the instruction at its counter, or it has none left and nothing has moved.
pub data Advances (m after : Machine) (p : ℕ) : Type 0 where
  at_end :
      get_elem? (m.pcb p).code (m.pcb p).pc ≡ none
      → ((q : ℕ) → (after.pcb q).pc ≡ (m.pcb q).pc)
      → ((q : ℕ) → (after.pcb q).code ≡ (m.pcb q).code)
      → Advances m after p
  executed_one :
      (ins : Inst)
      → get_elem? (m.pcb p).code (m.pcb p).pc ≡ some ins
      → (after.pcb p).pc ≡ (m.pcb p).pc + 1
      → ((q : ℕ) → q ≢ p → (after.pcb q).pc ≡ (m.pcb q).pc)
      → ((q : ℕ) → (after.pcb q).code ≡ (m.pcb q).code)
      → Advances m after p

pub run-Advances :
    (malloc : Malloc) (m after : Machine) (p : ℕ) (stat : Status)
    → (Kills m p → ⊥)
    → run malloc m p ≡ some (stat, after)
    → Advances m after p
run-Advances malloc m after p stat no_kill e = elim (run-Ran malloc m after p stat e) [
  | ended none_left same ↦
      at_end none_left (λ q. ap (λ (x : Machine). (x.pcb q).pc) same)
        (λ q. ap (λ (x : Machine). (x.pcb q).code) same)
  | ran ins found effect ↦
      elim (Effect-Keeps malloc (put_pc m p ((m.pcb p).pc + 1)) after p ins effect) [
        | inl kept ↦
            executed_one ins found (kept.counter p ∙ ground arith)
              (λ q ne. kept.counter q ∙ ground arith) (λ q. kept.code q ∙ ground arith)
        | inr (op, nr) ↦ absurd (no_kill (ins, found, op, nr))
      ]
]
