-- ===== src/Process.antt =====
-- Processes and the machine that they run on: the types of include/common.h, and what the threads
-- of src/os.c share. A process is known by a number. Every process has the same RAM and the same
-- active swap device, which the loader puts into each `struct pcb_t`.
use easter_egg.Common.{ℕ, List, length, update}
use easter_egg.Memphy.{Memphy}
use easter_egg.Vm.{Mm, Caller}
use easter_egg.Sched.{Sched}

-- `enum ins_opcode_t`
pub data Opcode : Type 0 where
  calc alloc free read write syscall : Opcode

-- `struct inst_t`
pub record Inst : Type 0 where
  pub opcode : Opcode
  pub arg_0 : ℕ
  pub arg_1 : ℕ
  pub arg_2 : ℕ
  pub arg_3 : ℕ

-- `struct pcb_t`: `code` is the list of the instructions, `path` that of the characters before the
-- terminating zero.
pub record Pcb : Type 0 where
  pub pid : ℕ
  pub pc : ℕ
  pub code : List Inst
  pub prio : ℕ
  pub path : List ℕ
  pub mm : Mm

pub record Machine : Type 0 where
  pub pcb : ℕ → Pcb
  pub mram : Memphy
  pub active_mswp : Memphy
  pub sched : Sched

-- The view of a process that the routines of memory management have.
abbrev pub caller_of : Machine → ℕ → Caller
caller_of m p = record { mm = (m.pcb p).mm; mram = m.mram; active_mswp = m.active_mswp }

-- The machine after such a routine.
abbrev pub put_caller : Machine → ℕ → Caller → Machine
put_caller m p c = record m {
  pcb = update m.pcb p (record (m.pcb p) { mm = c.mm });
  mram = c.mram;
  active_mswp = c.active_mswp;
}

-- `proc->code->size`
abbrev pub code_size : Machine → ℕ → ℕ
code_size m p = length (m.pcb p).code

-- `proc->pc = …`
abbrev pub put_pc : Machine → ℕ → ℕ → Machine
put_pc m p pc = record m { pcb = update m.pcb p (record (m.pcb p) { pc = pc }) }
