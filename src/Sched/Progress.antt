-- ===== src/Sched/Progress.antt =====
-- The invariant of the scheduler's variables, and when a call gives no process.
use mathlib.Core.Path.{subst}
use easter_egg.Common.{ℕ, ◌-◌, ◌≤◌, ◌<◌, ◌≡◌, ◌≢◌, refl, sym, arith, ◌⊎◌, inl, inr}
use easter_egg.Common.{Bool, true, false, ltb, if◌then◌else◌}
use easter_egg.Common.{Option, none, some}
use easter_egg.Queue.{dequeue}
use easter_egg.Queue.Refine.{Dequeues, nothing, first_highest, dequeue-Dequeues}
use easter_egg.Sched.{Sched, max_prio, eligible, serve}
use easter_egg.Sched.{get_mlq_proc, put_mlq_proc, add_mlq_proc, put_proc, add_proc, enlist_running}
use easter_egg.Sched.Call.{IsValid, Call, same_round, new_round, idle, at_level, next_round}
use easter_egg.Sched.Call.{idle_state, cleared, get_mlq_proc-Call}

-- Serving a level that has a slot left keeps the invariant.
serve-IsValid :
    (prio : ℕ → ℕ) (s : Sched)
    → s.marked_prior < 140
    → s.flag ≡ false
    → s.count ≡ 0
    → s.slot s.marked_prior < 140 - s.marked_prior
    → ((p : ℕ) → p < 140 → s.slot p ≤ 140 - p)
    → IsValid (serve prio s).1
unfolding serve
serve-IsValid prio s m f c one_left shares = record {
  level = m;
  shares = λ p h. ground (arith, shares p h);
  serving = λ e. c;
  fresh = λ e. cc;
}

-- A level that holds a process gives one.
serve_gives :
    (prio : ℕ → ℕ) (s : Sched)
    → (s.mlq_ready_queue s.marked_prior).size ≢ 0
    → (p : ℕ) × ((serve prio s).0 ≡ some p)
unfolding serve
serve_gives prio s h = from (dequeue-Dequeues prio (s.mlq_ready_queue s.marked_prior))
  where
    from :
        Dequeues prio
          (s.mlq_ready_queue s.marked_prior)
          (dequeue prio (s.mlq_ready_queue s.marked_prior))
        → (p : ℕ) × ((dequeue prio (s.mlq_ready_queue s.marked_prior)).0 ≡ some p)
    from (nothing e r) = absurd (h e)
    from (first_highest p e n t) = (p, e)

pub eligible_size : (s : Sched) (p : ℕ) → eligible s p ≡ true → (s.mlq_ready_queue p).size ≢ 0
unfolding eligible
eligible_size s p e = ground arith

eligible_slot : (s : Sched) (p : ℕ) → eligible s p ≡ true → s.slot p < 140 - p
unfolding eligible
eligible_slot s p e = ground arith

some_snd : {A B : Type 0} {r : Option (A × B)} {x y : A × B} → r ≡ some x → r ≡ some y → y.1 ≡ x.1
some_snd p q = cc

-- Every call of `get_mlq_proc` from a valid state leaves a valid state.
pub get_mlq_proc-IsValid :
    (prio : ℕ → ℕ) (s after : Sched) (proc : Option ℕ)
    → IsValid s
    → get_mlq_proc prio s ≡ some (proc, after)
    → IsValid after
get_mlq_proc-IsValid prio s after proc v e = from (get_mlq_proc-Call prio s v)
  where
    reset_shares : (p : ℕ) → p < 140 → cleared s.slot p ≤ 140 - p
    reset_shares p h = ground arith

    from : Call prio s (get_mlq_proc prio s) → IsValid after
    from (same_round p a b c d r) =
        subst IsValid (sym (some_snd r e))
          (serve-IsValid prio (at_level s p) b refl refl (eligible_slot s p c) v.shares)
    from (new_round p over n b c d r) =
        subst IsValid (sym (some_snd r e))
          (serve-IsValid prio (next_round s p) b refl refl (ground arith) reset_shares)
    from (idle over w r) = subst IsValid (sym (some_snd r e)) (record {
      level = omega arith;
      shares = reset_shares;
      serving = λ u. cc;
      fresh = λ u. refl;
    })

pub some_if : {A : Type 0} (b : Bool) {x y : A} → (if b then some x else none) ≡ some y → y ≡ x
some_if true e = cc
some_if false e = cc

-- Putting a process back by `put_proc`, or adding one by `add_proc`, keeps the state valid.
pub put_add-IsValid :
    (prio : ℕ → ℕ) (s after : Sched) (p : ℕ)
    → IsValid s
    → (put_proc prio s p ≡ some after) ⊎ (add_proc prio s p ≡ some after)
    → IsValid after
unfolding put_proc add_proc put_mlq_proc add_mlq_proc enlist_running
put_add-IsValid prio s after p v (inl e) =
    subst IsValid (sym (some_if (ltb (prio p) max_prio) e))
      (record { level = v.level; shares = v.shares; serving = v.serving; fresh = v.fresh })
put_add-IsValid prio s after p v (inr e) =
    subst IsValid (sym (some_if (ltb (prio p) max_prio) e))
      (record { level = v.level; shares = v.shares; serving = v.serving; fresh = v.fresh })

-- A call that serves a level which holds a process gives one.
gives_none :
    (prio : ℕ → ℕ) (t after : Sched) {r : Option (Option ℕ × Sched)}
    → (t.mlq_ready_queue t.marked_prior).size ≢ 0
    → r ≡ some (serve prio t)
    → r ≡ some (none, after)
    → ⊥
gives_none prio t after ne p q = from (serve_gives prio t ne)
  where
    from : (x : ℕ) × ((serve prio t).0 ≡ some x) → ⊥
    from (x, g) = cc

-- A search at the start of a round that finds no process to serve finds no process at all.
none_waiting :
    (prio : ℕ → ℕ) (s after : Sched)
    → Call prio s (get_mlq_proc prio s)
    → s.count ≢ s.marked_prior
    → get_mlq_proc prio s ≡ some (none, after)
    → (q : ℕ) → q < 140
    → (s.mlq_ready_queue q).size ≡ 0
none_waiting prio s after (same_round p a b c d r) ne e =
    absurd (gives_none prio (at_level s p) after (eligible_size s p c) r e)
none_waiting prio s after (new_round p over n b c d r) ne e =
    absurd (gives_none prio (next_round s p) after c r e)
none_waiting prio s after (idle over (inl w) r) ne e = absurd (ne w)
none_waiting prio s after (idle over (inr w) r) ne e = w

-- What a call that gives no process leaves behind.
none_leaves :
    (prio : ℕ → ℕ) (s after : Sched)
    → Call prio s (get_mlq_proc prio s)
    → get_mlq_proc prio s ≡ some (none, after)
    → after ≡ idle_state s
none_leaves prio s after (same_round p a b c d r) e =
    absurd (gives_none prio (at_level s p) after (eligible_size s p c) r e)
none_leaves prio s after (new_round p over n b c d r) e =
    absurd (gives_none prio (next_round s p) after c r e)
none_leaves prio s after (idle over w r) e = some_snd r e

-- If two calls of `get_mlq_proc` in a row, the first from a valid state, both give no process, then
-- no level holds a process.
pub two_calls_empty :
    (prio : ℕ → ℕ) (s between after : Sched)
    → IsValid s
    → get_mlq_proc prio s ≡ some (none, between)
    → get_mlq_proc prio between ≡ some (none, after)
    → (q : ℕ) → q < 140
    → (s.mlq_ready_queue q).size ≡ 0
two_calls_empty prio s between after v first second q h =
    let same : between ≡ idle_state s =
      none_leaves prio s between (get_mlq_proc-Call prio s v) first in
    let valid = get_mlq_proc-IsValid prio s between none v first in
    let empty_after : (between.mlq_ready_queue q).size ≡ 0 =
      none_waiting prio between after (get_mlq_proc-Call prio between valid)
        (subst (λ (t : Sched). t.count ≢ t.marked_prior) (sym same) (omega arith)) second q h in
    subst (λ (t : Sched). (t.mlq_ready_queue q).size ≡ 0) same empty_after
