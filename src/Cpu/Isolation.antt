-- ===== src/Cpu/Isolation.antt =====
-- What one instruction leaves alone.
use mathlib.Core.Logic.{◌≢◌}
use mathlib.Core.Path.{subst}
use easter_egg.Common.{ℕ, ◌%◌, ◌∙◌, sym, ◌+◌, ◌≡◌, Option, none, some, arith, refl}
use easter_egg.Common.{get_elem?, Status, ◌>>=◌}
use easter_egg.Vm.{Malloc, Caller}
use easter_egg.Libmem
use easter_egg.Paging
use easter_egg.Process.{Machine, Inst, Opcode, caller_of, put_caller, put_pc}
use easter_egg.Cpu.{execute, run}

-- Process `p` may have another memory map; nothing else of any process has changed, nor has the
-- scheduler.
pub record OnlyMemory (p : ℕ) (m after : Machine) : Type 0 where
  pub others : (q : ℕ) → q ≢ p → after.pcb q ≡ m.pcb q
  pub counter : (after.pcb p).pc ≡ (m.pcb p).pc
  pub code : (after.pcb p).code ≡ (m.pcb p).code
  pub prio : (after.pcb p).prio ≡ (m.pcb p).prio
  pub sched : after.sched ≡ m.sched

put_caller-OnlyMemory : (m : Machine) (p : ℕ) (c : Caller) → OnlyMemory p m (put_caller m p c)
put_caller-OnlyMemory m p c = record {
  others = λ q ne. ground arith;
  counter = ground arith;
  code = ground arith;
  prio = ground arith;
  sched = refl;
}

-- A call that may fault and then stores its result.
pub keeps :
    {R : Type 0} (m : Machine) (p : ℕ) (x : Option R) (g : R → Status × Machine) {stat : Status}
    {after : Machine}
    → ((r : R) → OnlyMemory p m (g r).1)
    → (x >>= λ r. some (g r)) ≡ some (stat, after)
    → OnlyMemory p m after
keeps m p none g each e = cc
keeps m p (some r) g {stat} {after} each e =
    let same : (g r).1 ≡ after = cc in subst (OnlyMemory p m) same (each r)

execute-OnlyMemory :
    (malloc : Malloc) (m : Machine) (p : ℕ) (op : Opcode) (a0 a1 a2 a3 : ℕ) {stat : Status}
    {after : Machine}
    → op ≢ Opcode.syscall
    → execute malloc m p (record { opcode = op; arg_0 = a0; arg_1 = a1; arg_2 = a2; arg_3 = a3 })
      ≡ some (stat, after)
    → OnlyMemory p m after
unfolding execute
execute-OnlyMemory malloc m p Opcode.calc a0 a1 a2 a3 {stat} {after} ne e =
    let same : m ≡ after = cc in
    subst (OnlyMemory p m) same
      (record { others = λ q h. refl; counter = refl; code = refl; prio = refl; sched = refl })
execute-OnlyMemory malloc m p Opcode.alloc a0 a1 a2 a3 ne e =
    keeps m p (Libmem.liballoc malloc (caller_of m p) a0 a1) (λ r. (r.0, put_caller m p r.1))
      (λ r. put_caller-OnlyMemory m p r.1) e
execute-OnlyMemory malloc m p Opcode.free a0 a1 a2 a3 ne e =
    keeps m p (Libmem.libfree (caller_of m p) a0) (λ r. (r.0, put_caller m p r.1))
      (λ r. put_caller-OnlyMemory m p r.1) e
execute-OnlyMemory malloc m p Opcode.read a0 a1 a2 a3 ne e =
    keeps m p (Paging.libread malloc (caller_of m p) a0 a1) (λ r. (r.0, put_caller m p r.2))
      (λ r. put_caller-OnlyMemory m p r.2) e
execute-OnlyMemory malloc m p Opcode.write a0 a1 a2 a3 ne e =
    keeps m p (Paging.libwrite malloc (caller_of m p) (a0 % 256) a1 a2)
      (λ r. (r.0, put_caller m p r.1)) (λ r. put_caller-OnlyMemory m p r.1) e
execute-OnlyMemory malloc m p Opcode.syscall a0 a1 a2 a3 ne e = absurd (ne refl)

-- `run` before the end of the code.
pub run_at :
    (malloc : Malloc) (m : Machine) (p : ℕ) (ins : Inst)
    → get_elem? (m.pcb p).code (m.pcb p).pc ≡ some ins
    → run malloc m p ≡ execute malloc (put_pc m p ((m.pcb p).pc + 1)) p ins
unfolding run
run_at malloc m p ins there = rw (there, run) refl

-- An instruction of a process `p` that is not SYSCALL, when it is executed without a fault, moves
-- the counter of `p` on by one and leaves its code; every other process, its memory map included,
-- and the scheduler are as they were.
pub run_isolated :
    (malloc : Malloc) (m after : Machine) (p : ℕ) (ins : Inst) (stat : Status)
    → get_elem? (m.pcb p).code (m.pcb p).pc ≡ some ins
    → ins.opcode ≢ Opcode.syscall
    → run malloc m p ≡ some (stat, after)
    → ((after.pcb p).pc ≡ (m.pcb p).pc + 1)
      × ((after.pcb p).code ≡ (m.pcb p).code)
      × ((q : ℕ) → q ≢ p → after.pcb q ≡ m.pcb q)
      × (after.sched ≡ m.sched)
run_isolated malloc m after p ins stat there ne e =
    let moved = put_pc m p ((m.pcb p).pc + 1) in
    let kept =
      execute-OnlyMemory malloc moved p ins.opcode ins.arg_0 ins.arg_1 ins.arg_2 ins.arg_3 ne
        (sym (run_at malloc m p ins there) ∙ e) in
    (
      kept.counter ∙ ground arith,
      kept.code ∙ ground arith,
      λ q h. kept.others q h ∙ ground arith,
      kept.sched,
    )
