-- ===== src/Cpu/Tests.antt =====
-- Runs of `run`, and the theorems about it at concrete machines.
use mathlib.Core.Logic.{◌≢◌}
use easter_egg.Common.{ℕ, ◌+◌, ◌≡◌, refl, true, some, [], ◌∷◌, ok, one, if◌then◌else◌, ◌==◌}
use easter_egg.Common.{Status, ◌<◌, inl, arith}
use easter_egg.Vm.{Area, Mm}
use easter_egg.Libmem.Layout.{LaidOut, IsLaidOut}
use easter_egg.Cpu.Allocations.{run-Allocates}
use easter_egg.Memphy.{Memphy}
use easter_egg.Sched.{initial}
use easter_egg.Vm.{Malloc, region}
use easter_egg.Process.{Machine, Inst, Opcode, put_pc}
use easter_egg.Cpu.{run, execute}
use easter_egg.Cpu.Isolation.{run_isolated}

abbrev ram : Memphy
ram = record { storage = λ a. 7; maxsz = 1024; rdmflg = true; cursor = 0; free_fp_list = [] }

abbrev memory : Malloc
memory = record { pgd = λ _. 0; freerg = []; link_null = true; byte = 9 }

abbrev ins : Inst
ins = record { opcode = Opcode.calc; arg_0 = 0; arg_1 = 0; arg_2 = 0; arg_3 = 0 }

-- Process 1 is behind its only instruction, every other before it.
abbrev machine : Machine
machine = record {
  pcb = λ i. record {
    pid = i;
    pc = if i == 1 then 1 else 0;
    code = ins ∷ [];
    prio = 1;
    path = [];
    mm = record { pgd = λ _. 0; mmap = []; symrgtbl = λ _. region 0 0; fifo_pgn = [] };
  };
  mram = ram;
  active_mswp = ram;
  sched = initial;
}

run_runs :
    (run memory machine 0 ≡ some (ok, put_pc machine 0 1))
    × (run memory machine 1 ≡ some (one, machine))
unfolding run execute
run_runs = (refl, refl)

run_isolated_example :
    (1 ≡ 0 + 1)
    × (((put_pc machine 0 1).pcb 0).code ≡ ins ∷ [])
    × ((q : ℕ) → q ≢ 0 → (put_pc machine 0 1).pcb q ≡ machine.pcb q)
    × ((put_pc machine 0 1).sched ≡ initial)
run_isolated_example =
    run_isolated memory machine (put_pc machine 0 1) 0 ins ok refl (λ e. cc) run_runs.0

-- A process with an area in which entry 4 names the bytes from 10 to 60, before an ALLOC of 300 bytes.
abbrev area : Area
area = record {
  vm_id = 0;
  vm_start = 0;
  vm_end = 256;
  sbrk = 256;
  vm_freerg_list = region 100 200 ∷ [];
}

abbrev mm : Mm
mm = record {
  pgd = λ _. 0;
  mmap = area ∷ [];
  symrgtbl = λ i. if i == 4 then region 10 60 else region 0 0;
  fifo_pgn = [];
}

laid : IsLaidOut area mm.symrgtbl
laid = record {
  below = (omega arith, tt);
  named = λ i h. ground arith;
  apart = λ i j hi hj ne. ground arith;
}

abbrev alloc_ins : Inst
alloc_ins = record { opcode = Opcode.alloc; arg_0 = 300; arg_1 = 7; arg_2 = 0; arg_3 = 0 }

abbrev with_area_machine : Machine
with_area_machine = record {
  pcb = λ i. record { pid = i; pc = 1; code = ins ∷ alloc_ins ∷ []; prio = 1; path = []; mm = mm };
  mram = record ram { free_fp_list = 2 ∷ 0 ∷ 3 ∷ [] };
  active_mswp = ram;
  sched = initial;
}

run-Allocates_example :
    (stat : Status) × (after : Machine) × (run memory with_area_machine 0 ≡ some (stat, after))
    × ((after.pcb 0).pc ≡ 1 + 1)
    × ((q : ℕ) → q < 5 → LaidOut (after.pcb q).mm)
run-Allocates_example =
    run-Allocates memory 5 with_area_machine 0 alloc_ins refl (inl (refl, omega arith, omega arith))
      (omega arith) (λ q h. (area, refl, laid))
