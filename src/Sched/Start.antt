-- ===== src/Sched/Start.antt =====
-- The scheduler after `init_scheduler`, and its first call.
use mathlib.Core.Path.{fun_ext}
use easter_egg.Common.{ℕ, zero, suc, ◌+◌, ◌-◌, ◌<◌, ◌≡◌, refl, ◌∙◌, ap, ap₂, arith, inr}
use easter_egg.Common.{false, ltb, leb, ◌&&◌, if◌then◌else◌}
use easter_egg.Common.{none, some}
use easter_egg.Queue.{Queue}
use easter_egg.Sched.{Sched, max_prio, eligible, init_loop, init_scheduler, initial, get_proc}
use easter_egg.Sched.{get_mlq_proc, add_proc, add_mlq_proc, enlist_running}
use easter_egg.Sched.Call.{IsValid, Call, same_round, new_round, idle, idle_state}
use easter_egg.Sched.Call.{get_mlq_proc-Call}
use easter_egg.Sched.Progress.{put_add-IsValid, some_if}

-- The levels and slots that `rounds` rounds of the loop leave, from level `i` on.
abbrev emptied : ℕ → ℕ → (ℕ → Queue) → ℕ → Queue
emptied rounds i mlq j =
    if leb i j && ltb j (i + rounds) then record (mlq j) { size = 0 } else mlq j

abbrev used_up : ℕ → ℕ → (ℕ → ℕ) → ℕ → ℕ
used_up rounds i slot j = if leb i j && ltb j (i + rounds) then 140 - j else slot j

init_loop_lem :
    (rounds i : ℕ) (s : Sched)
    → init_loop rounds i s ≡ record s {
      mlq_ready_queue = emptied rounds i s.mlq_ready_queue;
      slot = used_up rounds i s.slot;
    }
unfolding init_loop
init_loop_lem zero i s =
    ap₂ (λ (m : ℕ → Queue) (l : ℕ → ℕ). record s { mlq_ready_queue = m; slot = l })
      (fun_ext λ j. ground arith) (fun_ext λ j. ground arith)
init_loop_lem (suc rounds) i s =
    init_loop_lem rounds (i + 1) _
    ∙ ap₂ (λ (m : ℕ → Queue) (l : ℕ → ℕ). record s { mlq_ready_queue = m; slot = l })
        (fun_ext λ j. ground arith) (fun_ext λ j. ground arith)

-- A state in which every level has used up its share of the round: no level passes the test.
none_eligible :
    (s : Sched)
    → ((p : ℕ) → p < 140 → s.slot p ≡ 140 - p)
    → (q : ℕ) → q < 140
    → eligible s q ≡ false
unfolding eligible
none_eligible s used q h = ground (arith, used q h)

started_slots : (s : Sched) (p : ℕ) → p < 140 → (init_scheduler s).slot p ≡ 140 - p
unfolding init_scheduler
started_slots s p h = rw (init_loop_lem max_prio 0 s) (ground arith)

-- `init_scheduler` on the variables as the program is loaded gives a valid state with no process
-- on any level.
pub init_scheduler-IsValid :
    (q : ℕ)
    → q < 140
    → IsValid (init_scheduler initial) × (((init_scheduler initial).mlq_ready_queue q).size ≡ 0)
init_scheduler-IsValid q h = (
  record {
    level = unfold init_scheduler in rw (init_loop_lem max_prio 0 initial) (omega arith);
    shares = λ p u. omega (arith, started_slots initial p u);
    serving = unfold init_scheduler in rw (init_loop_lem max_prio 0 initial) (λ u. cc);
    fresh = unfold init_scheduler in rw (init_loop_lem max_prio 0 initial) (λ u. refl);
  },
  unfold init_scheduler in rw (init_loop_lem max_prio 0 initial) (ground arith),
)

-- From a state at the start of a round with every share used up, a call gives no process.
first-Call :
    (prio : ℕ → ℕ) (s : Sched)
    → ((q : ℕ) → q < 140 → eligible s q ≡ false)
    → s.count ≡ s.marked_prior
    → Call prio s (get_mlq_proc prio s)
    → get_mlq_proc prio s ≡ some (none, idle_state s)
first-Call prio s none_left e (same_round p a b c d r) = cc (none_left p b)
first-Call prio s none_left e (new_round p over n b c d r) = absurd (n e)
first-Call prio s none_left e (idle over w r) = r

-- `add_proc` leaves the variables of the search alone.
added :
    (prio : ℕ → ℕ) (t s : Sched) (p : ℕ)
    → add_proc prio t p ≡ some s
    → (s.slot ≡ t.slot) × (s.marked_prior ≡ t.marked_prior) × (s.count ≡ t.count)
unfolding add_proc add_mlq_proc enlist_running
added prio t s p e =
    let same = some_if (ltb (prio p) max_prio) e in
    (
      ap (λ (u : Sched). u.slot) same,
      ap (λ (u : Sched). u.marked_prior) same,
      ap (λ (u : Sched). u.count) same,
    )

started_search : ((init_scheduler initial).marked_prior ≡ 0) × ((init_scheduler initial).count ≡ 0)
unfolding init_scheduler
started_search = rw (init_loop_lem max_prio 0 initial) (refl, refl)

-- The first call of `get_proc` after `init_scheduler` gives no process, also when a process `p`
-- has just been added by `add_proc` to a level of its own: all slots start used up.
first_get_proc_idle :
    (prio : ℕ → ℕ) (p : ℕ) (s : Sched)
    → add_proc prio (init_scheduler initial) p ≡ some s
    → get_proc prio s ≡ some (none, idle_state s)
unfolding get_proc
first_get_proc_idle prio p s e =
    let kept = added prio (init_scheduler initial) s p e in
    let valid =
      put_add-IsValid prio (init_scheduler initial) s p (init_scheduler-IsValid 0 (omega arith)).0
        (inr e) in
    first-Call prio s
      (none_eligible s
        λ q h. omega (arith, ap (λ (f : ℕ → ℕ). f q) kept.0, started_slots initial q h))
      (omega (arith, kept, started_search)) (get_mlq_proc-Call prio s valid)
