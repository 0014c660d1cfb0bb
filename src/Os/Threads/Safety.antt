-- ===== src/Os/Threads/Safety.antt =====
-- Which CPUs hold a process, and the order of each level, in the worlds that the threads of
-- Os/Threads reach.
use mathlib.Core.Path.{subst}
use mathlib.Core.Logic.{◌≢◌}
use easter_egg.Common.{ℕ, ◌+◌, ◌<◌, ◌≡◌, inl, inr, sym, ap, ◌∙◌, arith}
use easter_egg.Common.{Distinct, Option, none, some, ◌∷◌, All, All-implies, update, >>=-eq-some}
use easter_egg.Common.{ltb}
use easter_egg.Queue.{Queue, enqueue, dequeue}
use easter_egg.Queue.Refine.{contents, dequeue_fifo}
use easter_egg.Sched.{Sched, get_proc, put_proc, add_proc, max_prio}
use easter_egg.Sched.{get_mlq_proc, put_mlq_proc, add_mlq_proc, enlist_running}
use easter_egg.Sched.Call.{IsValid, Call, same_round, new_round, idle, get_mlq_proc-Call}
use easter_egg.Sched.Progress.{get_mlq_proc-IsValid, put_add-IsValid, some_if}
use easter_egg.Sched.Start.{init_scheduler-IsValid}
use easter_egg.Vm.{Malloc, init_mm}
use easter_egg.Process.{Machine, Pcb}
use easter_egg.Killall.Effects.{SameRound}
use easter_egg.Cpu.Effects.{run-Spares}
use easter_egg.Os.{Loaded, load_process, prio_of, put_sched}
use easter_egg.Os.Threads.{
  World, Step, gets, finishes, puts, runs, loads, begin, Run, here, then_step,
}
use easter_egg.Os.Threads.Calls.{NoKillall}
use easter_egg.Os.Threads.Placement.{Placement, get_mlq_proc-Gets, get_proc-Placement}
use easter_egg.Os.Threads.Placement.{free-Placement}
use easter_egg.Os.Threads.Moves.{put_proc-Placement, load_process-Placement, run-Placement}

record Inv (w : World) : Type 0 where
  valid : IsValid w.machine.sched
  places : Placement (prio_of w.machine) w.count w.held w.machine.sched.mlq_ready_queue

pub put_proc-levels :
    (prio : ℕ → ℕ) (s after : Sched) (p : ℕ)
    → put_proc prio s p ≡ some after
    → after.mlq_ready_queue
      ≡ update s.mlq_ready_queue (prio p) (enqueue (s.mlq_ready_queue (prio p)) p)
unfolding put_proc put_mlq_proc enlist_running
put_proc-levels prio s after p e =
    ap (λ (x : Sched). x.mlq_ready_queue) (some_if (ltb (prio p) max_prio) e)

add_proc-levels :
    (prio : ℕ → ℕ) (s after : Sched) (p : ℕ)
    → add_proc prio s p ≡ some after
    → after.mlq_ready_queue
      ≡ update s.mlq_ready_queue (prio p) (enqueue (s.mlq_ready_queue (prio p)) p)
unfolding add_proc add_mlq_proc enlist_running
add_proc-levels prio s after p e =
    ap (λ (x : Sched). x.mlq_ready_queue) (some_if (ltb (prio p) max_prio) e)

pub load_process-adds :
    (malloc : Malloc) (loaded : Loaded) (m after : Machine) (n : ℕ)
    → load_process malloc loaded m n ≡ some after
    → (prio : ℕ → ℕ) × (prio n ≡ (loaded n).prio) × (add_proc prio m.sched n ≡ some after.sched)
unfolding load_process
load_process-adds malloc loaded m after n e =
    let proc : Pcb = record (loaded n) { mm = (init_mm malloc (loaded n).mm).1 } in
    let stored : Machine = record m { pcb = update m.pcb n proc } in
    let (s, added, last) = >>=-eq-some (add_proc (prio_of stored) m.sched n) _ e in
    let same : after ≡ put_sched stored s = cc in (prio_of stored, ground arith, rw same added)

pub load_process-levels :
    (malloc : Malloc) (loaded : Loaded) (m after : Machine) (n : ℕ)
    → load_process malloc loaded m n ≡ some after
    → after.sched.mlq_ready_queue
      ≡ update m.sched.mlq_ready_queue
          (loaded n).prio
          (enqueue (m.sched.mlq_ready_queue (loaded n).prio) n)
load_process-levels malloc loaded m after n e =
    let (prio, same, added) = load_process-adds malloc loaded m after n e in
    rw same at (add_proc-levels prio m.sched after.sched n added)

pub load_process-pcb :
    (malloc : Malloc) (loaded : Loaded) (m after : Machine) (n : ℕ)
    → load_process malloc loaded m n ≡ some after
    → after.pcb ≡ update m.pcb n (record (loaded n) { mm = (init_mm malloc (loaded n).mm).1 })
unfolding load_process
load_process-pcb malloc loaded m after n e =
    let proc : Pcb = record (loaded n) { mm = (init_mm malloc (loaded n).mm).1 } in
    let stored : Machine = record m { pcb = update m.pcb n proc } in
    let (s, added, last) = >>=-eq-some (add_proc (prio_of stored) m.sched n) _ e in
    let same : after ≡ put_sched stored s = cc in ap (λ (x : Machine). x.pcb) same

SameRound-IsValid : (s after : Sched) → SameRound s after → IsValid s → IsValid after
SameRound-IsValid s after (slot, level, flag, count) v = record {
  level = rw level v.level;
  shares = λ p h. rw slot (v.shares p h);
  serving = λ e. count ∙ v.serving (sym flag ∙ e);
  fresh = λ e. level ∙ v.fresh (sym flag ∙ e);
}

load_process-Inv :
    (malloc : Malloc) (loaded : Loaded) (w : World) (after : Machine)
    → load_process malloc loaded w.machine w.count ≡ some after
    → Inv w
    → Inv (record w { machine = after; count = w.count + 1 })
unfolding load_process
load_process-Inv malloc loaded w after e inv =
    let m = w.machine in
    let n = w.count in
    let proc : Pcb = record (loaded n) { mm = (init_mm malloc (loaded n).mm).1 } in
    let stored : Machine = record m { pcb = update m.pcb n proc } in
    let (s, added, last) = >>=-eq-some (add_proc (prio_of stored) m.sched n) _ e in
    let same : put_sched stored s ≡ after = cc in
    subst (λ (x : Machine). Inv (record w { machine = x; count = n + 1 })) same
      (record {
        valid = put_add-IsValid (prio_of stored) m.sched s n inv.valid (inr added);
        places =
            subst (λ (mlq : ℕ → Queue). Placement (prio_of stored) (n + 1) w.held mlq)
              (sym (add_proc-levels (prio_of stored) m.sched s n added))
              (load_process-Placement (λ x ne. ground arith) inv.places);
      })

Step-Inv :
    {malloc : Malloc} {loaded : Loaded} {w v : World} → Step malloc loaded w v → Inv w → Inv v
unfolding get_proc
Step-Inv {w = w} (gets i proc s free e) inv = record {
  valid = get_mlq_proc-IsValid (prio_of w.machine) w.machine.sched s proc inv.valid e;
  places =
      get_proc-Placement i proc free
        (get_mlq_proc-Gets (prio_of w.machine) w.machine.sched s proc inv.valid e) inv.places;
}
Step-Inv (finishes i p has over) inv = record {
  valid = inv.valid;
  places = free-Placement i inv.places;
}
Step-Inv {w = w} (puts i p s has e) inv = record {
  valid = put_add-IsValid (prio_of w.machine) w.machine.sched s p inv.valid (inl e);
  places =
      subst (λ (mlq : ℕ → Queue). Placement (prio_of w.machine) w.count (update w.held i none) mlq)
        (sym (put_proc-levels (prio_of w.machine) w.machine.sched s p e))
        (put_proc-Placement i p has inv.places (free-Placement i inv.places));
}
Step-Inv {malloc} {w = w} (runs i p stat after has e) inv =
    let spared = run-Spares malloc w.machine after p stat e in
    record {
      valid = SameRound-IsValid w.machine.sched after.sched spared.round inv.valid;
      places = run-Placement spared.prio spared.levels inv.places;
    }
Step-Inv {malloc} {loaded} {w} (loads after e) inv = load_process-Inv malloc loaded w after e inv

begin-Inv : (m : Machine) → Inv (begin m)
begin-Inv m = record {
  valid = (init_scheduler-IsValid 0 (omega arith)).0;
  places = record {
    levels = λ q h. rw ((init_scheduler-IsValid q h).1) tt;
    once = λ q h. rw ((init_scheduler-IsValid q h).1) tt;
    known = λ i p e. cc;
    alone = λ i j p e f. cc;
  };
}

Run-Inv :
    {malloc : Malloc} {loaded : Loaded} (m : Machine) {w : World}
    → Run malloc loaded (begin m) w
    → Inv w
Run-Inv m here = begin-Inv m
Run-Inv m (then_step r st) = Step-Inv st (Run-Inv m r)

pub Run-IsValid :
    {malloc : Malloc} {loaded : Loaded} (m : Machine) {w : World}
    → Run malloc loaded (begin m) w
    → IsValid w.machine.sched
Run-IsValid m r = (Run-Inv m r).valid

pub Run-Placement :
    {malloc : Malloc} {loaded : Loaded} (m : Machine) {w : World}
    → Run malloc loaded (begin m) w
    → Placement (prio_of w.machine) w.count w.held w.machine.sched.mlq_ready_queue
Run-Placement m r = (Run-Inv m r).places

-- In every world that the threads reach from the start, whatever the order of their steps, as long as
-- no process calls `killall`, which takes no lock: no process is held by two CPUs.
pub never_shared :
    (malloc : Malloc) (loaded : Loaded) (m : Machine) {w : World}
    (r : Run malloc loaded (begin m) w)
    → NoKillall r
    → (i j p : ℕ) → w.held i ≡ some p
    → w.held j ≡ some p
    → i ≡ j
never_shared malloc loaded m r quiet i j p hi hj = (Run-Inv m r).places.alone i j p hi hj

-- In every world that the threads reach from the start, as long as no process calls `killall`, which
-- takes no lock: the processes of a level have its number as
-- their priority and are held by no CPU, and none is there twice; so a level that is not empty
-- serves its oldest process.
pub level_order :
    (malloc : Malloc) (loaded : Loaded) (m : Machine) {w : World}
    (r : Run malloc loaded (begin m) w)
    → NoKillall r
    → (q : ℕ) → q < 140
    → let level = w.machine.sched.mlq_ready_queue q in
      All (λ p. ((w.machine.pcb p).prio ≡ q) × ((i : ℕ) → w.held i ≢ some p)) (contents level)
      × Distinct (contents level)
      × (0 < level.size
          → (p : ℕ) × ((dequeue (prio_of w.machine) level).0 ≡ some p)
            × (contents level ≡ p ∷ contents (dequeue (prio_of w.machine) level).1))
level_order malloc loaded m {w} r quiet q h =
    let level = w.machine.sched.mlq_ready_queue q in
    let places = (Run-Inv m r).places in
    (
      All-implies (λ x a. (a.0, a.2)) (contents level) (places.levels q h),
      places.once q h,
      λ pos.
          dequeue_fifo (prio_of w.machine) q level
            (All-implies (λ x a. a.0) (contents level) (places.levels q h)) pos,
    )

-- In every world that the threads reach from the start, whatever the order of their steps, as long as
-- no process calls `killall`, which takes no lock: a call of `get_proc` returns, with a process or with
-- none.
pub get_proc_returns :
    (malloc : Malloc) (loaded : Loaded) (m : Machine) {w : World}
    (r : Run malloc loaded (begin m) w)
    → NoKillall r
    → (result : Option ℕ × Sched) × (get_proc (prio_of w.machine) w.machine.sched ≡ some result)
unfolding get_proc
get_proc_returns malloc loaded m {w} r quiet =
    from (get_mlq_proc-Call (prio_of w.machine) w.machine.sched (Run-Inv m r).valid)
  where
    from :
        Call (prio_of w.machine) w.machine.sched (get_mlq_proc (prio_of w.machine) w.machine.sched)
        → (result : Option ℕ × Sched) × (get_mlq_proc (prio_of w.machine) w.machine.sched
            ≡ some result)
    from (same_round p a b c d e) = (_, e)
    from (new_round p over n b c d e) = (_, e)
    from (idle over n e) = (_, e)
