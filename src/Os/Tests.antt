-- ===== src/Os/Tests.antt =====
-- Turns of the threads, and the theorems about them at a concrete machine.
use easter_egg.Common.{◌/◌, length}
use easter_egg.Memphy.Frames.{IsValid}
use easter_egg.Timer.System.{init}
use easter_egg.Os.Startup.{Config}
use easter_egg.Common.{ℕ, ◌+◌, ◌<◌, ◌≡◌, refl, arith, true, false, some, [], ◌∷◌}
use easter_egg.Memphy.{Memphy}
use easter_egg.Sched.{initial, init_scheduler}
use easter_egg.Sched.Start.{init_scheduler-IsValid}
use easter_egg.Vm.{Malloc, region}
use easter_egg.Process.{Machine, Inst, Opcode, put_pc}
use easter_egg.Cpu.{run, execute}
use easter_egg.Os.{CpuState, next_slot, leaves, cpu_turn, check_status, run_process}
use easter_egg.Os.{Loaded, ld_turn, put_sched}
use easter_egg.Os.{prio_of}
use easter_egg.Common.{Option, none, if◌then◌else◌, ◌==◌}
use easter_egg.Queue.Refine.{contents}
use easter_egg.Common.{false}
use easter_egg.Os.Threads.Presence.{Has}
use easter_egg.Common.{List, ◌++◌, take}
use easter_egg.Loader.{Token, Unset}
use easter_egg.Loader.RoundTrip.{print_file, filled_code}
use easter_egg.Config.{LdProcess, proc_dir}
use easter_egg.Config.RoundTrip.{Entry, print_config}
use easter_egg.Os.Main.{main, started as main_started, load_next}
use easter_egg.Os.Main.Files.{settings, main_starts}
use easter_egg.Os.Startup.{Started}
use easter_egg.Os.Leaving.{leaves_ready}
use easter_egg.Sched.{put_proc, put_mlq_proc}
use easter_egg.Sched.Call.{IsValid as ValidSched, idle_state}
use easter_egg.Os.Threads.Turns.{LeadsTo, cpu_turn-LeadsTo}
use easter_egg.Queue.{enqueue}
use easter_egg.Sched.{Sched, eligible}
use easter_egg.Sched.{enlist_running}
use easter_egg.Os.Threads.{World}
use easter_egg.Os.Quantum.{Spends, IsClean, cpu_turn-Spends}
use easter_egg.Os.Idle.{turns_alone, without_process, idle_never_leaves}

abbrev ram : Memphy
ram = record { storage = λ a. 7; maxsz = 1024; rdmflg = true; cursor = 0; free_fp_list = [] }

abbrev pub memory : Malloc
memory = record { pgd = λ _. 0; freerg = []; link_null = true; byte = 9 }

abbrev pub ins : Inst
ins = record { opcode = Opcode.calc; arg_0 = 0; arg_1 = 0; arg_2 = 0; arg_3 = 0 }

abbrev pub process : Loaded
process i = record {
  pid = i + 1;
  pc = 0;
  code = ins ∷ ins ∷ [];
  prio = 130 + i;
  path = [];
  mm = record { pgd = λ _. 0; mmap = []; symrgtbl = λ _. region 0 0; fifo_pgn = [] };
}

abbrev pub machine : Machine
machine = record { pcb = process; mram = ram; active_mswp = ram; sched = initial }

abbrev running : CpuState
running = record { proc = some 0; time_left = 1 }

abbrev used_up : CpuState
used_up = record { proc = some 0; time_left = 0 }

last_slot : cpu_turn memory 2 false machine running ≡ some (next_slot used_up (put_pc machine 0 1))
unfolding cpu_turn check_status run_process run execute
last_slot = refl

cpu_turn-Spends_example :
    Spends memory 2 machine (put_pc machine 0 1) running used_up × (0 < 2) × IsClean used_up
cpu_turn-Spends_example =
    cpu_turn-Spends memory 2 false machine (put_pc machine 0 1) running used_up (omega arith)
      (omega arith) (omega arith) (λ e. cc) last_slot

abbrev started : Machine
started = put_sched machine (init_scheduler initial)

idle_never_leaves_example :
    (after : Machine) × (turns_alone memory 2 true 100 started (without_process 0)
      ≡ some (next_slot (without_process 0) after))
idle_never_leaves_example =
    idle_never_leaves memory 2 true 100 started 0 (init_scheduler-IsValid 0 (omega arith)).0
      (λ q h. (init_scheduler-IsValid q h).1)

abbrev starts : ℕ → ℕ
starts i = i + i

-- Process 1 starts at time 2, so that the loader waits for one slot.
loader_waits : ld_turn memory process 2 starts 1 machine 1 ≡ some (next_slot 1 machine)
unfolding ld_turn
loader_waits = refl

abbrev pub result : {A : Type 0} → A → Option A → A
result d none = d
result d (some x) = x

abbrev busy_world : World
busy_world = record { machine = machine; held = λ i. if i == 2 then some 0 else none; count = 2 }

cpu_turn-LeadsTo_example : LeadsTo memory process 2 busy_world (put_pc machine 0 1) (some 0)
cpu_turn-LeadsTo_example =
    cpu_turn-LeadsTo memory process 2 busy_world 2 false running
      (next_slot used_up (put_pc machine 0 1)) refl last_slot

abbrev config : Config
config = record {
  num_cpus = 4;
  memramsz = 1024;
  memswpsz = λ i. 2048;
  raw_ram = ram;
  raw_swap = λ i. ram;
  raw_pcb = process;
  link_ram = [];
  link_swap = λ i. [];
}

-- `input/c` names one process, `input/proc/p`, of two instructions.
abbrev entries : List Entry
entries = (3, 112 ∷ [], 130) ∷ []

-- The length of the path tells the two files apart.
abbrev files : List ℕ → Option (List Token)
files path =
    if length path == 7
    then some (print_config 2 4 (1024, 2048, 0, 0, 0) entries)
    else some (print_file 1 (ins ∷ ins ∷ []))

abbrev raw_processes : ℕ → LdProcess
raw_processes i = record { start_time = 0; path = []; prio = 0 }

abbrev unset : ℕ → Unset
unset i = record {
  priority = 0;
  size = 0;
  prio = 0;
  text = λ j. ins;
  opcode = [];
  buf = [];
  mm = (process 0).mm;
}

main_starts_example :
    let s = settings 2 4 (1024, 2048, 0, 0, 0) entries in
    (st : Started) × (main files raw_processes config 2 (99 ∷ []) ≡ some (main_started s st))
    × (st.timer ≡ (init 5).timer)
    × IsValid st.machine.mram
    × (length st.machine.mram.free_fp_list ≡ 1024 / 256)
    × IsValid st.machine.active_mswp
    × (length st.machine.active_mswp.free_fp_list ≡ 2048 / 256)
    × (load_next unset files s 0
        ≡ some (record {
          pid = 1;
          pc = 0;
          code = filled_code (λ j. ins) 0 (ins ∷ ins ∷ []);
          prio = 130;
          path = take 16 (proc_dir ++ 112 ∷ []);
          mm = (process 0).mm;
        }))
main_starts_example =
    main_starts files raw_processes config unset (99 ∷ []) 2 4 1024 2048 0 0 0 entries 0 3 130 1
      (112 ∷ []) (ins ∷ ins ∷ []) (omega arith) (omega arith, tt) (omega arith) (omega arith) refl
      refl refl

-- Process 0 has priority 0, and its level has used its 140 slots of the round.
abbrev urgent : Machine
urgent = record machine {
  pcb = λ i. record (process i) { prio = 0 };
  sched = record initial { slot = λ i. if i == 0 then 140 else 0; flag = false };
}

abbrev urgent_put : Sched
urgent_put = result initial (put_proc (prio_of urgent) urgent.sched 0)

urgent-IsValid : ValidSched urgent.sched
urgent-IsValid = record {
  level = omega arith;
  shares = λ p h. ground arith;
  serving = λ e. refl;
  fresh = λ e. cc;
}

urgent_over : (q : ℕ) → eligible urgent_put q ≡ false
unfolding eligible put_proc put_mlq_proc enlist_running enqueue
urgent_over q = ground arith

leaves_ready_example :
    (cpu_turn memory 2 true urgent used_up
      ≡ some (leaves (put_sched urgent (idle_state urgent_put))))
    × Has 0 (contents ((idle_state urgent_put).mlq_ready_queue 0))
unfolding put_proc put_mlq_proc enlist_running enqueue
leaves_ready_example =
    leaves_ready memory 2 urgent 0 urgent_put urgent-IsValid refl refl (λ e. omega (arith, e))
      (λ q a b. urgent_over q) refl
