-- ===== src/Syscall/Tests.antt =====
-- Runs of the system calls, and the theorem about `memmap` at a concrete process.
use easter_egg.Common.{◌≡◌, refl, true, []}
use easter_egg.Memphy.{Memphy}
use easter_egg.Vm.{Malloc, Caller, region}
use easter_egg.Syscall.{Entry, entry_of, sys_call_table}

entries :
    (entry_of sys_call_table 101 ≡ Entry.killall) × (entry_of sys_call_table 1 ≡ Entry.ni_syscall)
unfolding entry_of
entries = (refl, refl)

abbrev ram : Memphy
ram = record { storage = λ a. 7; maxsz = 1024; rdmflg = true; cursor = 0; free_fp_list = [] }

abbrev memory : Malloc
memory = record { pgd = λ _. 0; freerg = []; link_null = true; byte = 9 }

abbrev process : Caller
process = record {
  mm = record { pgd = λ _. 0; mmap = []; symrgtbl = λ _. region 0 0; fifo_pgn = [] };
  mram = ram;
  active_mswp = ram;
}
