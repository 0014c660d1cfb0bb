-- ===== src/Killall/Tests.antt =====
-- Runs of `__sys_killall`, and the theorems about it at concrete queues and machines.
use easter_egg.Common.{ℕ, Bool, ◌+◌, ◌≡◌, refl, true, some, none, List, [], ◌∷◌, All}
use easter_egg.Common.{if◌then◌else◌, ◌==◌, update, Option}
use easter_egg.Pte.{paging_page_present, paging_fpn, paging_pgn, paging_offst}
use easter_egg.Memphy
use easter_egg.Memphy.{Memphy}
use easter_egg.Queue.{Queue, shift_loop}
use easter_egg.Queue.Refine.{contents}
use easter_egg.Sched.{initial, empty_queue, max_prio}
use easter_egg.Vm.{Mm, Malloc, region, get_vma_by_num, walk, area_at}
use easter_egg.Libmem
use easter_egg.Print
use easter_egg.Libmem.{get_symrg_byid, symrg_at}
use easter_egg.Paging
use easter_egg.Paging.{libread, pg_getval, pg_getpage, find_victim_page, last_page}
use easter_egg.Process.{Machine, Opcode}
use easter_egg.Killall.{run_list_loop, level_loop, read_name, sys_killall, is_named, proc_name_size}
use easter_egg.Killall.{
  after_slash, same_text, c_string, levels_loop, end_all, free_regions, free_all,
}
use easter_egg.Killall.{kill_named}
use easter_egg.Killall.Lists.{only, others, run_list_loop-contents, level_loop-contents}
use easter_egg.Killall.Result.{HasEnded, on_levels, sys_killall_lem}

-- Processes 7, 8, 9, of which 8 is named.
abbrev three : Queue
three = record { proc = λ i. i + 7; size = 3 }

abbrev eight : ℕ → Bool
eight p = p == 8

-- Process 8 is found in the level, but process 7 is taken out of it.
level_runs : contents (level_loop eight 3 0 three []).0 ≡ 8 ∷ 9 ∷ []
unfolding level_loop shift_loop
level_runs = refl

run_list_loop-contents_example :
    (contents (run_list_loop eight 3 0 three []).0 ≡ 7 ∷ 9 ∷ [])
    × ((run_list_loop eight 3 0 three []).1 ≡ 8 ∷ [])
run_list_loop-contents_example = run_list_loop-contents eight three []

level_loop-contents_example :
    (contents (level_loop eight 3 0 three []).0 ≡ 8 ∷ 9 ∷ [])
    × ((level_loop eight 3 0 three []).1 ≡ 8 ∷ [])
level_loop-contents_example = level_loop-contents eight three []

-- Region 0 holds the bytes 112, which is `p`, and 255.
abbrev ram : Memphy
ram = record {
  storage = λ a. if a == 0 then 112 else 255;
  maxsz = 1024;
  rdmflg = true;
  cursor = 0;
  free_fp_list = [];
}

abbrev memory : Malloc
memory = record { pgd = λ _. 0; freerg = []; link_null = true; byte = 9 }

abbrev mm : Mm
mm = record {
  pgd = λ i. 0x80000000;
  mmap = record { vm_id = 0; vm_start = 0; vm_end = 256; sbrk = 256; vm_freerg_list = [] } ∷ [];
  symrgtbl = λ _. region 0 10;
  fifo_pgn = [];
}

-- Process 3 has the path `i/p`, every other `i/q`.
abbrev machine : Machine
machine = record {
  pcb = λ i. record {
    pid = i;
    pc = 0;
    code = record { opcode = Opcode.alloc; arg_0 = 30; arg_1 = 0; arg_2 = 0; arg_3 = 0 } ∷ [];
    prio = 1;
    path = 105 ∷ 47 ∷ (if i == 3 then 112 else 113) ∷ [];
    mm = mm;
  };
  mram = ram;
  active_mswp = ram;
  sched = record initial {
    running_list = record { proc = λ i. i + 2; size = 3 };
    mlq_ready_queue = update (λ _. empty_queue) 1 (record { proc = λ _. 3; size = 1 });
  };
}

abbrev result : Option Machine → Machine
result none = machine
result (some m) = m

killall_returns : sys_killall memory machine 5 0 ≡ some (result (sys_killall memory machine 5 0))
unfolding sys_killall kill_named read_name libread Paging.read pg_getval pg_getpage find_victim_page
    last_page Memphy.read get_vma_by_num walk area_at get_symrg_byid symrg_at paging_page_present
    paging_fpn paging_pgn paging_offst run_list_loop levels_loop level_loop end_all free_all
    free_regions is_named after_slash same_text c_string shift_loop Print.print_pgtbl
    Print.last_address Libmem.free
killall_returns = refl

sys_killall_lem_example :
    (name : List ℕ) × (start : Machine) × (read_name memory proc_name_size 0 0 machine 5
      ≡ some (name, start))
    × All
        (HasEnded (result (sys_killall memory machine 5 0)))
        (only (λ q. is_named name (start.pcb q)) (contents start.sched.running_list))
    × All
        (HasEnded (result (sys_killall memory machine 5 0)))
        (on_levels (λ q. is_named name (start.pcb q)) max_prio 0 start.sched.mlq_ready_queue)
    × (contents (result (sys_killall memory machine 5 0)).sched.running_list
        ≡ others (λ q. is_named name (start.pcb q)) (contents start.sched.running_list))
sys_killall_lem_example =
    sys_killall_lem memory machine (result (sys_killall memory machine 5 0)) 5 0 killall_returns
