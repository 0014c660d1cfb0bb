-- ===== src/Os/Threads/Memory.antt =====
-- The memory of the processes while the threads run: the regions of each process, and the free
-- frames of RAM.
use mathlib.Core.Path.{subst}
use easter_egg.Common.{ℕ, ◌+◌, ◌<◌, ◌≡◌, refl, sym, ap, ◌∙◌, arith, some, [], ==_iff}
use easter_egg.Os.Threads.Safety.{load_process-pcb}
use easter_egg.Common.{>>=-eq-some, Bool-cases, inl, inr, ◌==◌, update}
use easter_egg.Memphy.Shape.{Shrinks, SameDevice, Shrinks-refl, Shrinks-trans, SameDevice-refl}
use easter_egg.Memphy.Shape.{SameDevice-trans}
use easter_egg.Sched.{add_proc}
use easter_egg.Vm.{Malloc, region, init_mm, enlist_vm_rg_node}
use easter_egg.Os.Threads.Calls.{AllPlain, LoadsLaidOut, StepLoads}
use easter_egg.Libmem.Layout.{LaidOut}
use easter_egg.Process.{Machine, Pcb}
use easter_egg.Cpu.Guards.{run-Guards}
use easter_egg.Os.{Loaded, load_process, prio_of, put_sched}
use easter_egg.Os.Threads.{
  World, Step, gets, finishes, puts, runs, loads, begin, Run, here, then_step,
}

-- An example of memory that is laid out when a process is loaded: the free list of an area is null
-- before it is set, and the table of regions of the process is zero.
pub record GivesZeros (malloc : Malloc) (loaded : Loaded) : Type 0 where
  pub freerg : malloc.freerg ≡ []
  pub regions : (i j : ℕ) → j < 30 → (loaded i).mm.symrgtbl j ≡ region 0 0

record Holds (m : Machine) (w : World) : Type 0 where
  ram : Shrinks m.mram w.machine.mram
  swap : SameDevice m.active_mswp w.machine.active_mswp

record AllLaidOut (w : World) : Type 0 where
  laid : (p : ℕ) → p < w.count → LaidOut (w.machine.pcb p).mm

pub init_mm-LaidOut :
    (malloc : Malloc) (loaded : Loaded) (i : ℕ)
    → GivesZeros malloc loaded
    → LaidOut (init_mm malloc (loaded i).mm).1
unfolding init_mm enlist_vm_rg_node
init_mm-LaidOut malloc loaded i zeros = (
  _,
  refl,
  record {
    below = rw zeros.freerg (omega arith, tt);
    named = λ j h. rw (zeros.regions i j h) (omega arith);
    apart = λ j k hj hk ne. rw (zeros.regions i j hj) (inl (omega arith));
  },
)

-- The other processes are as before.
loads-AllLaidOut :
    (malloc : Malloc) (loaded : Loaded) (w : World) (after : Machine)
    → load_process malloc loaded w.machine w.count ≡ some after
    → LaidOut (after.pcb w.count).mm
    → AllLaidOut w
    → AllLaidOut (record w { machine = after; count = w.count + 1 })
loads-AllLaidOut malloc loaded w after e new inv = record {
  laid = λ p h. elim (Bool-cases (w.count == p)) [
    | inl same ↦ subst (λ (x : ℕ). LaidOut (after.pcb x).mm) ((==_iff w.count p).0 same) new
    | inr old ↦
        (let kept : after.pcb p ≡ w.machine.pcb p =
            ap (λ (f : ℕ → Pcb). f p) (load_process-pcb malloc loaded w.machine after w.count e)
            ∙ rw old refl in
          subst (λ (x : Pcb). LaidOut x.mm) (sym kept) (inv.laid p (ground arith)))
  ];
}

loads-Holds :
    (malloc : Malloc) (loaded : Loaded) (m : Machine) (w : World) (after : Machine)
    → load_process malloc loaded w.machine w.count ≡ some after
    → Holds m w
    → Holds m (record w { machine = after; count = w.count + 1 })
unfolding load_process
loads-Holds malloc loaded m w after e inv =
    let n = w.count in
    let proc : Pcb = record (loaded n) { mm = (init_mm malloc (loaded n).mm).1 } in
    let stored : Machine = record (w.machine) { pcb = update w.machine.pcb n proc } in
    let (s, added, last) = >>=-eq-some (add_proc (prio_of stored) w.machine.sched n) _ e in
    let same : put_sched stored s ≡ after = cc in
    subst (λ (x : Machine). Holds m (record w { machine = x; count = n + 1 })) same
      (record { ram = inv.ram; swap = inv.swap })

Step-AllLaidOut :
    {malloc : Malloc} {loaded : Loaded} {w v : World} (st : Step malloc loaded w v)
    → StepLoads st
    → AllLaidOut w
    → AllLaidOut v
Step-AllLaidOut (gets i proc s free e) new inv = record { laid = inv.laid }
Step-AllLaidOut (finishes i p has over) new inv = record { laid = inv.laid }
Step-AllLaidOut (puts i p s has e) new inv = record { laid = inv.laid }
Step-AllLaidOut {malloc} {w = w} (runs i p stat after has e) new inv = record {
  laid = λ q h. (run-Guards malloc w.machine after p stat e).regions q (inv.laid q h);
}
Step-AllLaidOut {malloc} {loaded} {w} (loads after e) new inv =
    loads-AllLaidOut malloc loaded w after e new inv

Step-Holds :
    {malloc : Malloc} {loaded : Loaded} (m : Machine) {w v : World}
    → Step malloc loaded w v
    → Holds m w
    → Holds m v
Step-Holds m (gets i proc s free e) inv = record { ram = inv.ram; swap = inv.swap }
Step-Holds m (finishes i p has over) inv = record { ram = inv.ram; swap = inv.swap }
Step-Holds m (puts i p s has e) inv = record { ram = inv.ram; swap = inv.swap }
Step-Holds {malloc} m {w} (runs i p stat after has e) inv =
    let g = run-Guards malloc w.machine after p stat e in
    record { ram = Shrinks-trans inv.ram g.ram; swap = SameDevice-trans inv.swap g.swap }
Step-Holds {malloc} {loaded} m {w} (loads after e) inv = loads-Holds malloc loaded m w after e inv

Run-Holds :
    {malloc : Malloc} {loaded : Loaded} (m : Machine) {w : World}
    → Run malloc loaded (begin m) w
    → Holds m w
Run-Holds m here = record { ram = Shrinks-refl m.mram; swap = SameDevice-refl m.active_mswp }
Run-Holds m (then_step r st) = Step-Holds m st (Run-Holds m r)

-- In every world that the threads reach from the start, whatever the order of their steps, as long as
-- the memory of each process is laid out when the process is loaded, no instruction makes a system
-- call, and the size of each ALLOC, rounded up to pages, is an `int` that is not negative: each loaded
-- process has one area; its free and named regions lie below the break, and two of its named regions
-- share no byte.
pub regions_apart :
    (malloc : Malloc) (loaded : Loaded) (m : Machine) {w : World}
    (r : Run malloc loaded (begin m) w)
    → AllPlain r
    → LoadsLaidOut r
    → (p : ℕ) → p < w.count
    → LaidOut (w.machine.pcb p).mm
regions_apart malloc loaded m r plain new = (from r new).laid
  where
    from : {w : World} (r : Run malloc loaded (begin m) w) → LoadsLaidOut r → AllLaidOut w
    from here new = record { laid = λ p h. absurd (omega (arith, h)) }
    from (then_step r st) (new, last) = Step-AllLaidOut st last (from r new)

-- In every world that the threads reach from the start, whatever the order of their steps, as long as
-- no instruction makes a system call (`memmap` takes frames without a lock) and the size of each ALLOC,
-- rounded up to pages, is an `int` that is not negative: the list of free frames of RAM is what is left
-- of the list at the start behind some frames at its front, so no frame is given back, also not when a
-- process finishes. Size and kind of RAM and of the swap device stay.
pub frames_never_return :
    (malloc : Malloc) (loaded : Loaded) (m : Machine) {w : World}
    (r : Run malloc loaded (begin m) w)
    → AllPlain r
    → Shrinks m.mram w.machine.mram × SameDevice m.active_mswp w.machine.active_mswp
frames_never_return malloc loaded m r plain = let h = Run-Holds m r in (h.ram, h.swap)
