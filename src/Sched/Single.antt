-- ===== src/Sched/Single.antt =====
-- The branch of src/sched.c for a build without MLQ_SCHED: one queue for all processes. A process is
-- put on the running list only, since the calls that enqueue it in `ready_queue` are comments.
use easter_egg.Common.{ℕ, ◌≡◌, refl, Option, none}
use easter_egg.Common.{Bool, ◌&&◌, arith}
use easter_egg.Queue.{Queue, dequeue, empty}
use easter_egg.Sched.{Sched, enlist_running}

unfoldable pub init_scheduler : Sched → Sched
init_scheduler s = record s {
  ready_queue = record s.ready_queue { size = 0 };
  run_queue = record s.run_queue { size = 0 };
}

unfoldable pub queue_empty : Sched → Bool
queue_empty s = empty s.ready_queue && empty s.run_queue

unfoldable pub get_proc : (ℕ → ℕ) → Sched → Option ℕ × Sched
get_proc prio s =
    let (proc, rest) = dequeue prio s.ready_queue in (proc, record s { ready_queue = rest })

unfoldable pub put_proc : Sched → ℕ → Sched
put_proc s p = enlist_running s p

unfoldable pub add_proc : Sched → ℕ → Sched
add_proc s p = enlist_running s p

-- The states that calls lead to from `s`.
pub data Calls (prio : ℕ → ℕ) (s : Sched) : Sched → Type 0 where
  no_call : Calls prio s s
  then_get : {t : Sched} → Calls prio s t → Calls prio s (get_proc prio t).1
  then_put : {t : Sched} (p : ℕ) → Calls prio s t → Calls prio s (put_proc t p)
  then_add : {t : Sched} (p : ℕ) → Calls prio s t → Calls prio s (add_proc t p)

empty_gives_none : (prio : ℕ → ℕ) (q : Queue) → q.size ≡ 0 → dequeue prio q ≡ (none, q)
unfolding dequeue
empty_gives_none prio q e = ground arith

stays_empty :
    (prio : ℕ → ℕ) (s : Sched) {t : Sched}
    → Calls prio (init_scheduler s) t
    → t.ready_queue.size ≡ 0
unfolding init_scheduler get_proc put_proc add_proc enlist_running
stays_empty prio s no_call = refl
stays_empty prio s (then_get {t} c) =
    let e = stays_empty prio s c in rw (empty_gives_none prio t.ready_queue e) e
stays_empty prio s (then_put p c) = stays_empty prio s c
stays_empty prio s (then_add p c) = stays_empty prio s c

-- Without MLQ_SCHED, no call of `get_proc` ever gives a process, whatever is added or put back.
single_never_ready :
    (prio : ℕ → ℕ) (s : Sched) {t : Sched}
    → Calls prio (init_scheduler s) t
    → (get_proc prio t).0 ≡ none
unfolding get_proc
single_never_ready prio s {t} c =
    rw (empty_gives_none prio t.ready_queue (stays_empty prio s c)) refl
