-- ===== src/Sched.antt =====
-- The multi-level queue scheduler, src/sched.c with MLQ_SCHED. A call runs under `queue_lock`, so
-- it is one step on the static variables. `prio` gives the `prio` field of a process; an access
-- to `mlq_ready_queue` at MAX_PRIO or above is a fault, `none`.
pub mod Scan
pub mod Call
pub mod Progress
pub mod Waiting
pub mod Single
pub mod Start
mod Tests
use easter_egg.Common.{ℕ, zero, suc, ◌+◌, ◌-◌, Bool, true, false, ◌&&◌, not, Option, none, some}
use easter_egg.Common.{ltb, ◌==◌, if◌then◌else◌, update}
use easter_egg.Queue.{Queue, empty, enqueue, dequeue}

abbrev pub max_prio : ℕ
max_prio = 140

-- The static variables.
pub record Sched : Type 0 where
  pub ready_queue : Queue
  pub run_queue : Queue
  pub running_list : Queue
  pub mlq_ready_queue : ℕ → Queue
  pub slot : ℕ → ℕ
  pub marked_prior : ℕ
  pub flag : Bool
  pub count : ℕ

-- The loop of `queue_empty`, from level `prio` on: whether each level is empty.
unfoldable pub levels_empty : ℕ → (ℕ → Queue) → ℕ → Bool
levels_empty zero mlq prio = true
levels_empty (suc rounds) mlq prio =
    let rest = levels_empty rounds mlq (prio + 1) in if empty (mlq prio) then rest else false

-- `queue_empty` returns -1 when some level holds a process, and otherwise whether the two other
-- queues are empty.
pub data EmptyAnswer : Type 0 where
  some_level : EmptyAnswer
  others : Bool → EmptyAnswer

unfoldable pub queue_empty : Sched → EmptyAnswer
unfolding levels_empty
queue_empty s =
    if levels_empty max_prio s.mlq_ready_queue 0
    then others (empty s.ready_queue && empty s.run_queue)
    else some_level

-- The loop of `init_scheduler` from level `i` on, over the levels and the slots.
unfoldable pub init_loop : ℕ → ℕ → Sched → Sched
init_loop zero i s = s
init_loop (suc rounds) i s = init_loop rounds (i + 1) (record s {
  mlq_ready_queue = update s.mlq_ready_queue i (record (s.mlq_ready_queue i) { size = 0 });
  slot = update s.slot i (max_prio - i);
})

unfoldable pub init_scheduler : Sched → Sched
init_scheduler s =
    let levels = init_loop max_prio 0 s in
    record levels {
      ready_queue = record levels.ready_queue { size = 0 };
      run_queue = record levels.run_queue { size = 0 };
    }

-- The variables as the program is loaded: zero, but for the initialiser of `flag`.
abbrev pub empty_queue : Queue
empty_queue = record { proc = λ _. 0; size = 0 }

abbrev pub initial : Sched
initial = record {
  ready_queue = empty_queue;
  run_queue = empty_queue;
  running_list = empty_queue;
  mlq_ready_queue = λ _. empty_queue;
  slot = λ _. 0;
  marked_prior = 0;
  flag = true;
  count = 0;
}

-- The test that level `p` holds a process and has a slot left in this round.
unfoldable pub eligible : Sched → ℕ → Bool
eligible s p = not ((s.mlq_ready_queue p).size == 0) && ltb (s.slot p) (max_prio - p)

-- The `for` loop over `MarkedPrior`: whether it left by a level that passes the test.
unfoldable pub scan_loop : ℕ → Sched → Bool × Sched
scan_loop zero s = (false, s)
scan_loop (suc rounds) s =
    let next = record s { marked_prior = s.marked_prior + 1; count = s.count + 1 } in
    let rest = scan_loop rounds next in if eligible s s.marked_prior then (true, s) else rest

-- `for (j = 0; j < MAX_PRIO; j++) slot[j] = 0;` from `j` on.
unfoldable pub reset_loop : ℕ → ℕ → (ℕ → ℕ) → ℕ → ℕ
reset_loop zero j slot = slot
reset_loop (suc rounds) j slot = reset_loop rounds (j + 1) (update slot j 0)

-- `proc = dequeue(&mlq_ready_queue[MarkedPrior]); slot[MarkedPrior]++;`
unfoldable pub serve : (ℕ → ℕ) → Sched → Option ℕ × Sched
serve prio s =
    let m = s.marked_prior in
    let (proc, rest) = dequeue prio (s.mlq_ready_queue m) in
    (
      proc,
      record s {
        mlq_ready_queue = update s.mlq_ready_queue m rest;
        slot = update s.slot m (s.slot m + 1);
      },
    )

-- What follows `label:`, with fuel for the jumps back to it; `none` is fuel run out.
unfoldable pub label_loop : (ℕ → ℕ) → ℕ → Sched → Option (Option ℕ × Sched)
label_loop prio zero s = none
label_loop prio (suc jumps) s =
    if s.flag
    then (let (hit, stopped) = scan_loop (max_prio - s.marked_prior) s in
        let (proc, served) = serve prio stopped in
        let fresh = record stopped {
          slot = reset_loop max_prio 0 stopped.slot;
          marked_prior = 0;
          flag = true;
        } in
        let again = label_loop prio jumps (record fresh { count = 0 }) in
        if hit
        then some (proc, record served { flag = false; count = 0 })
        else if stopped.count == max_prio
        then some (none, fresh)
        else again)
    else (let again = label_loop prio jumps (record s { flag = true }) in
        if ltb (s.slot s.marked_prior) (max_prio - s.marked_prior)
          && not ((s.mlq_ready_queue s.marked_prior).size == 0)
        then some (serve prio s)
        else again)

-- Two jumps are the most that a call makes.
unfoldable pub get_mlq_proc : (ℕ → ℕ) → Sched → Option (Option ℕ × Sched)
get_mlq_proc prio s = label_loop prio 3 s

unfoldable pub put_mlq_proc : (ℕ → ℕ) → Sched → ℕ → Option Sched
put_mlq_proc prio s p =
    if ltb (prio p) max_prio
    then some (record s {
      mlq_ready_queue = update s.mlq_ready_queue (prio p) (enqueue (s.mlq_ready_queue (prio p)) p);
    })
    else none

unfoldable pub add_mlq_proc : (ℕ → ℕ) → Sched → ℕ → Option Sched
add_mlq_proc prio s p =
    if ltb (prio p) max_prio
    then some (record s {
      mlq_ready_queue = update s.mlq_ready_queue (prio p) (enqueue (s.mlq_ready_queue (prio p)) p);
    })
    else none

unfoldable pub get_proc : (ℕ → ℕ) → Sched → Option (Option ℕ × Sched)
get_proc prio s = get_mlq_proc prio s

-- The two take the lock twice, so that other calls may come between their two parts.
unfoldable pub enlist_running : Sched → ℕ → Sched
enlist_running s p = record s { running_list = enqueue s.running_list p }

unfoldable pub put_proc : (ℕ → ℕ) → Sched → ℕ → Option Sched
put_proc prio s p = put_mlq_proc prio (enlist_running s p) p

unfoldable pub add_proc : (ℕ → ℕ) → Sched → ℕ → Option Sched
add_proc prio s p = add_mlq_proc prio (enlist_running s p) p
