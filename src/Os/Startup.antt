-- ===== src/Os/Startup.antt =====
-- What `main` of src/os.c sets up before it creates the threads of the CPUs and of the loader.
pub mod Ready
use easter_egg.Common.{ℕ, zero, suc, ◌+◌, false, Option, none, List, update}
use easter_egg.Memphy.{Memphy, init_memphy}
use easter_egg.Sched.{initial, init_scheduler}
use easter_egg.Timer.{Timer, attach_event, start_timer}
use easter_egg.Process.{Machine, Pcb}

-- The variables of src/timer.c as the program is loaded.
abbrev pub unused_timer : Timer
unused_timer = record {
  devices = λ _. record { done = false; fsh = false };
  count = 0;
  time = 0;
  timer_started = false;
  timer_stop = false;
}

-- The loop that gives each CPU its device, from CPU `i` on: the `timer_id` of each.
unfoldable pub attach_loop : ℕ → ℕ → (ℕ → Option ℕ) → Timer → (ℕ → Option ℕ) × Timer
attach_loop zero i timer_id t = (timer_id, t)
attach_loop (suc rounds) i timer_id t =
    let (event, next) = attach_event t in attach_loop rounds (i + 1) (update timer_id i event) next

abbrev pub paging_max_mmswp : ℕ
paging_max_mmswp = 4

-- The loop that creates the swap devices from `sit` on.
unfoldable pub swap_loop : ℕ → ℕ → (ℕ → List ℕ) → (ℕ → ℕ) → (ℕ → Memphy) → ℕ → Memphy
swap_loop zero sit link memswpsz mswp = mswp
swap_loop (suc rounds) sit link memswpsz mswp =
    swap_loop rounds (sit + 1) link memswpsz
      (update mswp sit (init_memphy (link sit) (mswp sit) (memswpsz sit) 1))

-- The sizes that the configuration gives, and what the memory of the devices and of the processes
-- holds before.
pub record Config : Type 0 where
  pub num_cpus : ℕ
  pub memramsz : ℕ
  pub memswpsz : ℕ → ℕ
  pub raw_ram : Memphy
  pub raw_swap : ℕ → Memphy
  pub raw_pcb : ℕ → Pcb
  pub link_ram : List ℕ
  pub link_swap : ℕ → List ℕ

pub record Started : Type 0 where
  pub timer : Timer
  pub timer_id : ℕ → Option ℕ
  pub ld_event : Option ℕ
  pub machine : Machine

unfoldable pub start_up : Config → Started
start_up c =
    let (timer_id, cpus) = attach_loop c.num_cpus 0 (λ _. none) unused_timer in
    let (ld_event, all) = attach_event cpus in
    let mswp = swap_loop paging_max_mmswp 0 c.link_swap c.memswpsz c.raw_swap in
    record {
      timer = start_timer all;
      timer_id = timer_id;
      ld_event = ld_event;
      machine = record {
        pcb = c.raw_pcb;
        mram = init_memphy c.link_ram c.raw_ram c.memramsz 1;
        active_mswp = mswp 0;
        sched = init_scheduler initial;
      };
    }
