-- ===== src/Sched/Waiting.antt =====
-- How many calls of `get_mlq_proc` a level with a process waits.
pub mod Budget
use mathlib.Core.Path.{subst}
use mathlib.Core.Logic.{◌≢◌}
use easter_egg.Common.{
  ℕ, zero, suc, ◌+◌, ◌-◌, ◌≤◌, ◌<◌, ◌≡◌, ◌⊎◌, inl, inr, refl, sym, ap, ap₂, ◌∙◌, arith,
}
use easter_egg.Common.{Bool, true, false, Bool-cases, ltb, leb, ◌&&◌, if◌then◌else◌, update, ◌==◌}
use easter_egg.Common.{Option, none, some, ==_iff}
use easter_egg.Queue.{Queue, enqueue, dequeue}
use easter_egg.Queue.Refine.{Dequeues, nothing, first_highest, dequeue-Dequeues}
use easter_egg.Sched.{Sched, max_prio, eligible, serve, get_mlq_proc, put_proc, add_proc}
use easter_egg.Sched.{put_mlq_proc, add_mlq_proc, enlist_running}
use easter_egg.Sched.Call.{IsValid, Call, same_round, new_round, idle, at_level, next_round}
use easter_egg.Sched.Call.{idle_state, cleared, get_mlq_proc-Call}
use easter_egg.Sched.Progress.{get_mlq_proc-IsValid, put_add-IsValid, some_if}
use easter_egg.Sched.Waiting.Budget.{budget, after_serve, in_turn_less, out_of_turn_less}
use easter_egg.Sched.Waiting.Budget.{new_round_less, idle_less, budget_bound}

-- The level waits while other calls take from other levels.
abbrev pub Nonempty : Sched → ℕ → Type 0
Nonempty s q = (s.mlq_ready_queue q).size ≢ 0

-- Calls of the scheduler, `n` of them calls of `get_mlq_proc`, none of which takes a process from
-- level `q`.
data Waits (q : ℕ) (s : Sched) : ℕ → Sched → Type 0 where
  no_call : Waits q s 0 s
  then_gets :
      {n : ℕ} {t u : Sched} (prio : ℕ → ℕ) (proc : Option ℕ)
      → Waits q s n t
      → get_mlq_proc prio t ≡ some (proc, u)
      → (u.mlq_ready_queue q).size ≡ (t.mlq_ready_queue q).size
      → Waits q s (suc n) u
  then_joins :
      {n : ℕ} {t u : Sched} (prio : ℕ → ℕ) (p : ℕ)
      → Waits q s n t
      → (put_proc prio t p ≡ some u) ⊎ (add_proc prio t p ≡ some u)
      → Waits q s n u

first : (p q : ℕ) → p ≢ q → (q < p → ⊥) → p < q
first p q ne h = ground (arith, h)

pub call_less :
    (prio : ℕ → ℕ) (s after : Sched) (proc : Option ℕ) (q : ℕ)
    → IsValid s
    → q < 140
    → Nonempty s q
    → get_mlq_proc prio s ≡ some (proc, after)
    → (after.mlq_ready_queue q).size ≡ (s.mlq_ready_queue q).size
    → budget after q + 1 ≤ budget s q
unfolding eligible
call_less prio s after proc q v small waits e same = from (get_mlq_proc-Call prio s v)
  where
    by :
        (r : Option ℕ × Sched)
        → get_mlq_proc prio s ≡ some r
        → (((r.1).mlq_ready_queue q).size ≡ (s.mlq_ready_queue q).size
            → budget r.1 q + 1 ≤ budget s q)
        → budget after q + 1 ≤ budget s q
    by r f less =
        let at : r ≡ (proc, after) = cc in
        subst
          (λ (x : Option ℕ × Sched).
            ((x.1).mlq_ready_queue q).size ≡ (s.mlq_ready_queue q).size
            → budget x.1 q + 1 ≤ budget s q)
          at less same

    over :
        ((p : ℕ) → s.marked_prior ≤ p → p < 140 → eligible s p ≡ false)
        → (140 - q ≤ s.slot q) ⊎ (q < s.marked_prior)
    over none_left = elim (Bool-cases (ltb q s.marked_prior)) [
      | inl past ↦ inr (ground arith)
      | inr ahead ↦
          inl (let none_here = none_left q (ground arith) small in ground (arith, none_here, waits))
    ]

    from : Call prio s (get_mlq_proc prio s) → budget after q + 1 ≤ budget s q
    from (same_round p a b c d r) = by _ r λ kept.
        let (ne, m, slot) =
          after_serve prio (at_level s p) p q refl (λ z. ground (arith, c, z)) kept in
        elim (Bool-cases (ltb (s.slot q) (140 - q) && leb s.marked_prior q)) [
          | inl turn ↦
              (let before : p < q = first p q ne λ past.
                  let none_here = d q (ground arith) past in
                  ground (arith, none_here, turn, waits) in
                in_turn_less prio s p q a before small (ground (arith, c)) (ground (arith, turn)))
          | inr not_turn ↦
              out_of_turn_less prio s p q a b ne (ground (arith, c)) (ground (arith, not_turn, a))
        ]
    from (new_round p none_left n b c d r) = by _ r λ kept.
        let (ne, m, slot) = after_serve prio (next_round s p) p q refl c kept in
        new_round_less prio s p q (first p q ne λ past. waits (d q past)) small (over none_left)
    from (idle none_left w r) = by _ r λ kept. idle_less s q small (over none_left)

pub joins_keep :
    (prio : ℕ → ℕ) (s after : Sched) (p q : ℕ)
    → (put_proc prio s p ≡ some after) ⊎ (add_proc prio s p ≡ some after)
    → ((after.mlq_ready_queue q).size ≡ 0 → (s.mlq_ready_queue q).size ≡ 0)
      × (budget after q ≡ budget s q)
unfolding put_proc add_proc put_mlq_proc add_mlq_proc enlist_running budget enqueue
joins_keep prio s after p q (inl e) =
    let same = some_if (ltb (prio p) max_prio) e in rw same (λ z. ground arith, refl)
joins_keep prio s after p q (inr e) =
    let same = some_if (ltb (prio p) max_prio) e in rw same (λ z. ground arith, refl)

Waits-budget :
    (q : ℕ) (s : Sched) {n : ℕ} {after : Sched}
    → IsValid s
    → q < 140
    → Nonempty s q
    → Waits q s n after
    → IsValid after × Nonempty after q × (n + budget after q ≤ budget s q)
Waits-budget q s v small some_left no_call = (v, some_left, omega arith)
Waits-budget q s {after = u} v small some_left (then_gets {n} {t} prio proc w e same) =
    let (valid, waits, less) = Waits-budget q s v small some_left w in
    let now = call_less prio t u proc q valid small waits e same in
    (get_mlq_proc-IsValid prio t u proc valid e, λ z. waits (sym same ∙ z), omega arith)
Waits-budget q s {after = u} v small some_left (then_joins {n} {t} prio p w e) =
    let (valid, waits, less) = Waits-budget q s v small some_left w in
    let (more, same) = joins_keep prio t u p q e in
    (put_add-IsValid prio t u p valid e, λ z. waits (more z), omega arith)

-- From a valid state, with a process on level `q`: among calls of `get_mlq_proc`, `put_proc` and
-- `add_proc` in any order of which none takes a process from level `q`, at most 19741 are calls of
-- `get_mlq_proc`; so every level that holds a process is served after a bounded number of calls,
-- whatever the others hold.
waiting_bounded :
    (q : ℕ) (s : Sched) {n : ℕ} {after : Sched}
    → IsValid s
    → q < 140
    → (s.mlq_ready_queue q).size ≢ 0
    → Waits q s n after
    → n ≤ 19741
waiting_bounded q s v small some_left w =
    let (valid, waits, less) = Waits-budget q s v small some_left w in
    let most = budget_bound s q v.level small in omega arith
