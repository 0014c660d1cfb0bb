-- ===== src/Queue.antt =====
-- Process queues, src/queue.c. A `struct pcb_t *` is the number by which the process is known;
-- `prio` gives the `prio` field of the process that a pointer leads to. No caller passes a null
-- queue, so the tests of `q == NULL` are left out.
pub mod Window
pub mod Refine
mod Tests
use easter_egg.Common.{ℕ, zero, suc, ◌+◌, ◌-◌, Bool, Option, none, some}
use easter_egg.Common.{ltb, ◌==◌, if◌then◌else◌, update}

abbrev pub max_queue_size : ℕ
max_queue_size = 10

-- `struct queue_t`: an array of `max_queue_size` pointers, of which the first `size` count.
pub record Queue : Type 0 where
  pub proc : ℕ → ℕ
  pub size : ℕ

unfoldable pub empty : Queue → Bool
empty q = q.size == 0

unfoldable pub enqueue : Queue → ℕ → Queue
enqueue q p =
    if q.size == max_queue_size
    then q
    else record q { proc = update q.proc q.size p; size = q.size + 1 }

-- The first loop of `dequeue` from index `i` on: `highest_prio` and `index`.
unfoldable pub highest_loop : (ℕ → ℕ) → (ℕ → ℕ) → ℕ → ℕ → ℕ → ℕ → ℕ × ℕ
highest_loop prio proc zero i highest index = (highest, index)
highest_loop prio proc (suc rounds) i highest index =
    let better = ltb (prio highest) (prio (proc i)) in
    highest_loop prio proc rounds (i + 1) (if better then proc i else highest)
      (if better then i else index)

-- A loop `for (; j < …; j++) a[j] = a[j + 1];` with `rounds` rounds.
unfoldable pub shift_loop : ℕ → ℕ → (ℕ → ℕ) → ℕ → ℕ
shift_loop zero j proc = proc
shift_loop (suc rounds) j proc = shift_loop rounds (j + 1) (update proc j (proc (j + 1)))

unfoldable pub dequeue : (ℕ → ℕ) → Queue → Option ℕ × Queue
unfolding empty
dequeue prio q =
    if empty q
    then (none, q)
    else (let (highest, index) = highest_loop prio q.proc q.size 0 (q.proc 0) 0 in
        (
          some highest,
          record q { proc = shift_loop (q.size - 1 - index) index q.proc; size = q.size - 1 },
        ))
