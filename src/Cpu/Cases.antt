-- ===== src/Cpu/Cases.antt =====
-- What an instruction does, in a few cases: it changes nothing but a counter, it stores the memory of
-- its process, or it is `killall`.
use mathlib.Core.Path.{subst}
use easter_egg.Common.{
  refl, arith, ℕ, ◌+◌, ◌%◌, ◌≡◌, Option, none, some, >>=-eq-some, ◌>>=◌, get_elem?,
}
use easter_egg.Common.{Status, one}
use easter_egg.Vm.{Malloc}
use easter_egg.Libmem
use easter_egg.Libmem.Tame.Alloc.{liballoc-Tame}
use easter_egg.Libmem.Tame.Free.{libfree-Tame}
use easter_egg.Paging
use easter_egg.Paging.Tame.Access.{libread-Tame, libwrite-Tame}
use easter_egg.Process.{Machine, Inst, Opcode, caller_of, put_caller, put_pc}
use easter_egg.Killall.{sys_killall}
use easter_egg.Syscall.{Regs, Entry, sys_memmap, sys_call_table, entry_of, syscall, libsyscall}
use easter_egg.Syscall.Tame.{sys_memmap-Tame}
use easter_egg.Cpu.{execute, run}
use easter_egg.Common.{sym, ap, ◌∙◌}
use easter_egg.Libmem.Tame.{Tame}
use easter_egg.Vm.{Caller}

killall_number : (nr : ℕ) → entry_of sys_call_table nr ≡ Entry.killall → nr ≡ 101
unfolding entry_of
killall_number nr e = ground arith

pub data Effect (malloc : Malloc) (m : Machine) (p : ℕ) (ins : Inst) (after : Machine)
    : Type 0 where
  unchanged : after ≡ m → Effect malloc m p ins after
  stores :
      (c : Caller) → Tame (caller_of m p) c → after ≡ put_caller m p c → Effect malloc m p ins after
  kills :
      ins.opcode ≡ Opcode.syscall
      → ins.arg_0 ≡ 101
      → sys_killall malloc m p ins.arg_1 ≡ some after
      → Effect malloc m p ins after

syscall-Effect :
    (malloc : Malloc) (m : Machine) (p : ℕ) (ins : Inst) (regs : Regs) (r : Regs × Machine)
    → ins.opcode ≡ Opcode.syscall
    → regs.a1 ≡ ins.arg_1
    → syscall malloc m p ins.arg_0 regs ≡ some r
    → Effect malloc m p ins r.1
unfolding syscall
syscall-Effect malloc m p ins regs r op arg e = by_entry (entry_of sys_call_table ins.arg_0) refl e
  where
    by_entry :
        (entry : Entry)
        → entry_of sys_call_table ins.arg_0 ≡ entry
        → (elim entry [
          | Entry.memmap ↦
              sys_memmap malloc (caller_of m p) regs >>= λ r. some (r.0, put_caller m p r.1)
          | Entry.killall ↦ sys_killall malloc m p regs.a1 >>= λ next. some (regs, next)
          | _ ↦ some (regs, m)
        ])
          ≡ some r
        → Effect malloc m p ins r.1
    by_entry Entry.memmap is h =
        let (x, done, same) = >>=-eq-some (sys_memmap malloc (caller_of m p) regs) _ h in
        let there : r.1 ≡ put_caller m p x.1 = cc in
        stores x.1 (sys_memmap-Tame malloc (caller_of m p) regs done) there
    by_entry Entry.killall is h =
        let (x, done, same) = >>=-eq-some (sys_killall malloc m p regs.a1) _ h in
        let there : x ≡ r.1 = cc in
        kills op (killall_number ins.arg_0 is)
          (ap (λ (a : ℕ). sys_killall malloc m p a) (sym arg) ∙ done ∙ ap some there)
    by_entry Entry.listsyscall is h = let there : r.1 ≡ m = cc in unchanged there
    by_entry Entry.ni_syscall is h = let there : r.1 ≡ m = cc in unchanged there

execute-Effect :
    (malloc : Malloc) (m : Machine) (p : ℕ) (op : Opcode) (a0 a1 a2 a3 : ℕ) {stat : Status}
    {after : Machine}
    → execute malloc m p (record { opcode = op; arg_0 = a0; arg_1 = a1; arg_2 = a2; arg_3 = a3 })
      ≡ some (stat, after)
    → Effect malloc m p
        (record { opcode = op; arg_0 = a0; arg_1 = a1; arg_2 = a2; arg_3 = a3 })
        after
unfolding execute libsyscall
execute-Effect malloc m p Opcode.calc a0 a1 a2 a3 {stat} {after} e =
    let same : after ≡ m = cc in unchanged same
execute-Effect malloc m p Opcode.alloc a0 a1 a2 a3 {stat} {after} e =
    let (r, done, last) = >>=-eq-some (Libmem.liballoc malloc (caller_of m p) a0 a1) _ e in
    let same : after ≡ put_caller m p r.1 = cc in
    stores r.1 (liballoc-Tame malloc (caller_of m p) a0 a1 done) same
execute-Effect malloc m p Opcode.free a0 a1 a2 a3 {stat} {after} e =
    let (r, done, last) = >>=-eq-some (Libmem.libfree (caller_of m p) a0) _ e in
    let same : after ≡ put_caller m p r.1 = cc in
    stores r.1 (libfree-Tame (caller_of m p) a0 done) same
execute-Effect malloc m p Opcode.read a0 a1 a2 a3 {stat} {after} e =
    let (r, done, last) = >>=-eq-some (Paging.libread malloc (caller_of m p) a0 a1) _ e in
    let same : after ≡ put_caller m p r.2 = cc in
    stores r.2 (libread-Tame malloc (caller_of m p) a0 a1 done) same
execute-Effect malloc m p Opcode.write a0 a1 a2 a3 {stat} {after} e =
    let (r, done, last) =
      >>=-eq-some (Paging.libwrite malloc (caller_of m p) (a0 % 256) a1 a2) _ e in
    let same : after ≡ put_caller m p r.1 = cc in
    stores r.1 (libwrite-Tame malloc (caller_of m p) (a0 % 256) a1 a2 done) same
execute-Effect malloc m p Opcode.syscall a0 a1 a2 a3 {stat} {after} e =
    let (next, called, last) = >>=-eq-some (libsyscall malloc m p a0 a1 a2 a3) _ e in
    let (r, done, same) =
      >>=-eq-some (syscall malloc m p a0 (record { a1 = a1; a2 = a2; a3 = a3 })) _ called in
    let there : r.1 ≡ after = cc in
    subst (Effect malloc m p _) there (
      syscall-Effect malloc m p
        (record { opcode = Opcode.syscall; arg_0 = a0; arg_1 = a1; arg_2 = a2; arg_3 = a3 })
        (record { a1 = a1; a2 = a2; a3 = a3 }) r refl refl done)

-- What `run` does: nothing behind the last instruction, and otherwise it executes one with the counter
-- moved on.
pub data Ran (malloc : Malloc) (m : Machine) (p : ℕ) (after : Machine) : Type 0 where
  ended : get_elem? (m.pcb p).code (m.pcb p).pc ≡ none → after ≡ m → Ran malloc m p after
  ran :
      (ins : Inst)
      → get_elem? (m.pcb p).code (m.pcb p).pc ≡ some ins
      → Effect malloc (put_pc m p ((m.pcb p).pc + 1)) p ins after
      → Ran malloc m p after

pub run-Ran :
    (malloc : Malloc) (m after : Machine) (p : ℕ) (stat : Status)
    → run malloc m p ≡ some (stat, after)
    → Ran malloc m p after
unfolding run
run-Ran malloc m after p stat e = from (get_elem? (m.pcb p).code (m.pcb p).pc) refl e
  where
    from :
        (found : Option Inst)
        → get_elem? (m.pcb p).code (m.pcb p).pc ≡ found
        → ◌≡◌ {A = Option (Status × Machine)}
            (elim found [
              | none ↦ some (one, m)
              | some ins ↦ execute malloc (put_pc m p ((m.pcb p).pc + 1)) p ins
            ])
            (some (stat, after))
        → Ran malloc m p after
    from none is h = let there : after ≡ m = cc in ended is there
    from (some ins) is h = ran ins is (
        execute-Effect malloc (put_pc m p ((m.pcb p).pc + 1)) p ins.opcode ins.arg_0 ins.arg_1
          ins.arg_2 ins.arg_3 h)
