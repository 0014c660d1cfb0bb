-- ===== src/Syscall.antt =====
-- System calls: src/libstd.c, src/syscall.c, src/syscall.tbl, src/sys_mem.c and
-- src/sys_listsyscall.c. The registers of a call are a local variable of `libsyscall`. Every
-- routine returns 0, so that only the state is kept; messages are left out.
pub mod Memmap
pub mod Tame
mod Tests
use easter_egg.Common.{ℕ, ◌%◌, ◌^◌, ◌*◌, Bool, Option, none, some, List, [], ◌∷◌, ◌==◌, ◌>>=◌}
use easter_egg.Common.{if◌then◌else◌, Status}
use easter_egg.Memphy
use easter_egg.Memphy.{Memphy}
use easter_egg.Vm.{Malloc, Caller, inc_vma_limit}
use easter_egg.Paging.{sign_extend}
use easter_egg.Process.{Machine, caller_of, put_caller}
use easter_egg.Killall.{sys_killall}

-- The fields of `struct sc_regs` that a call sets.
pub record Regs : Type 0 where
  pub a1 : ℕ
  pub a2 : ℕ
  pub a3 : ℕ

-- `__mm_swap_page`, which drops the status of the copy.
unfoldable pub mm_swap_page : Malloc → Caller → ℕ → ℕ → Option Caller
mm_swap_page malloc caller vicfpn swpfpn = do
  mswp ← Memphy.swap_cp_page malloc.byte caller.mram vicfpn caller.active_mswp swpfpn
  some (record caller { active_mswp = mswp })

-- `SYSMEM_INC_OP` and the others of include/libmem.h.
abbrev pub sysmem_inc_op : ℕ
sysmem_inc_op = 2

abbrev pub sysmem_swp_op : ℕ
sysmem_swp_op = 3

abbrev pub sysmem_io_read : ℕ
sysmem_io_read = 4

abbrev pub sysmem_io_write : ℕ
sysmem_io_write = 5

-- SYSMEM_MAP_OP, 1, and an unknown code change nothing.
unfoldable pub sys_memmap : Malloc → Caller → Regs → Option (Regs × Caller)
sys_memmap malloc caller regs =
    if regs.a1 == sysmem_inc_op
    then (inc_vma_limit malloc caller regs.a2 regs.a3 >>= λ r. some (regs, r.1))
    else if regs.a1 == sysmem_swp_op
    then (mm_swap_page malloc caller regs.a2 regs.a3 >>= λ next. some (regs, next))
    else if regs.a1 == sysmem_io_read
    then (Memphy.read caller.mram regs.a2 malloc.byte >>= λ r.
        some (record regs { a3 = sign_extend r.1 }, record caller { mram = r.2 }))
    else if regs.a1 == sysmem_io_write
    then (Memphy.write caller.mram regs.a2 (regs.a3 % 256) >>= λ r.
        some (regs, record caller { mram = r.1 }))
    else some (regs, caller)

-- The entry points of src/syscall.tbl by their names, and the one for all other numbers.
pub data Entry : Type 0 where
  listsyscall memmap killall ni_syscall : Entry

-- The lines of src/syscall.tbl, from which the build makes the cases of `syscall`.
abbrev pub sys_call_table : List (ℕ × Entry)
sys_call_table = (0, Entry.listsyscall) ∷ (17, Entry.memmap) ∷ (101, Entry.killall) ∷ []

-- The case of the `switch` in `syscall`.
unfoldable pub entry_of : List (ℕ × Entry) → ℕ → Entry
entry_of [] nr = Entry.ni_syscall
entry_of ((n, e) ∷ table) nr = if nr == n then e else entry_of table nr

-- `__sys_listsyscall` prints the table, and `__sys_ni_syscall` does nothing.
unfoldable pub syscall : Malloc → Machine → ℕ → ℕ → Regs → Option (Regs × Machine)
unfolding entry_of
syscall malloc m p nr regs = elim (entry_of sys_call_table nr) [
  | Entry.memmap ↦ sys_memmap malloc (caller_of m p) regs >>= λ r. some (r.0, put_caller m p r.1)
  | Entry.killall ↦ sys_killall malloc m p regs.a1 >>= λ next. some (regs, next)
  | _ ↦ some (regs, m)
]

unfoldable pub libsyscall : Malloc → Machine → ℕ → ℕ → ℕ → ℕ → ℕ → Option Machine
libsyscall malloc m p syscall_idx a1 a2 a3 =
    syscall malloc m p syscall_idx (record { a1 = a1; a2 = a2; a3 = a3 }) >>= λ r. some r.1
