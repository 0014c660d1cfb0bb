-- ===== src/Cpu.antt =====
-- One instruction of a process: `run` of src/cpu.c, with MM_PAGING.
pub mod Isolation
pub mod Cases
pub mod Effects
pub mod Guards
pub mod Kills
pub mod Allocations
mod Tests
use easter_egg.Common.{ℕ, suc, ◌+◌, ◌%◌, Option, none, some, get_elem?, leb, ◌>>=◌}
use easter_egg.Common.{if◌then◌else◌, Status, ok, one, update}
use easter_egg.Vm.{Malloc}
use easter_egg.Libmem
use easter_egg.Paging
use easter_egg.Process.{Machine, Pcb, Inst, Opcode, caller_of, put_caller, code_size, put_pc}
use easter_egg.Syscall.{libsyscall}

-- `(unsigned long)proc & 0UL`
abbrev pub calc : Status
calc = ok

-- The `switch`. READ stores its byte in a local copy of the instruction, which is dropped; the first
-- argument of WRITE is cut to a `BYTE`.
unfoldable pub execute : Malloc → Machine → ℕ → Inst → Option (Status × Machine)
execute malloc m p ins = elim ins.opcode [
  | Opcode.calc ↦ some (calc, m)
  | Opcode.alloc ↦ Libmem.liballoc malloc (caller_of m p) ins.arg_0 ins.arg_1 >>= λ r.
      some (r.0, put_caller m p r.1)
  | Opcode.free ↦ Libmem.libfree (caller_of m p) ins.arg_0 >>= λ r. some (r.0, put_caller m p r.1)
  | Opcode.read ↦ Paging.libread malloc (caller_of m p) ins.arg_0 ins.arg_1 >>= λ r.
      some (r.0, put_caller m p r.2)
  | Opcode.write ↦
      Paging.libwrite malloc (caller_of m p) (ins.arg_0 % 256) ins.arg_1 ins.arg_2 >>= λ r.
      some (r.0, put_caller m p r.1)
  | Opcode.syscall ↦
      libsyscall malloc m p ins.arg_0 ins.arg_1 ins.arg_2 ins.arg_3 >>= λ next. some (ok, next)
]

-- Behind the last instruction, where `pc >= size`, nothing is executed.
unfoldable pub run : Malloc → Machine → ℕ → Option (Status × Machine)
run malloc m p = elim (get_elem? (m.pcb p).code (m.pcb p).pc) [
  | none ↦ some (one, m)
  | some ins ↦ execute malloc (put_pc m p ((m.pcb p).pc + 1)) p ins
]
