-- ===== src/Os/Threads/Placement.antt =====
-- Where a process is: on one level of the scheduler, or on one CPU.
use mathlib.Core.Path.{subst}
use mathlib.Core.Logic.{◌≢◌}
use easter_egg.Common.{ℕ, ◌<◌, ◌≡◌, ◌⊎◌, inl, inr, refl, sym, ◌∙◌, arith}
use easter_egg.Common.{
  Option, none, some, List, [], ◌∷◌, ◌++◌, All, update, ◌==◌, Bool-cases, ==_iff,
}
use easter_egg.Common.{Distinct, All-implies, All-without, Distinct-without}
use easter_egg.Queue.{Queue, enqueue, dequeue}
use easter_egg.Queue.Refine.{contents, TakesHighest, Dequeues, nothing, first_highest}
use easter_egg.Queue.Refine.{dequeue-Dequeues, window-set_end}
use easter_egg.Sched.{Sched, get_mlq_proc, serve}
use easter_egg.Sched.Call.{IsValid, Call, same_round, new_round, idle, get_mlq_proc-Call}
use easter_egg.Sched.Progress.{eligible_size}

-- Process `x`, found on level `q`, has the priority `q`, is one of the first `n` and on no CPU.
abbrev pub Placed : (ℕ → ℕ) → ℕ → (ℕ → Option ℕ) → ℕ → ℕ → Type 0
Placed prio n held q x = (prio x ≡ q) × (x < n) × ((i : ℕ) → held i ≢ some x)

-- Every process is in one place at most, and on the level of its priority.
pub record Placement (prio : ℕ → ℕ) (n : ℕ) (held : ℕ → Option ℕ) (mlq : ℕ → Queue) : Type 0 where
  pub levels : (q : ℕ) → q < 140 → All (Placed prio n held q) (contents (mlq q))
  pub once : (q : ℕ) → q < 140 → Distinct (contents (mlq q))
  pub known : (i p : ℕ) → held i ≡ some p → p < n
  pub alone : (i j p : ℕ) → held i ≡ some p → held j ≡ some p → i ≡ j

-- What a call of `get_mlq_proc` does to the levels.
pub data Gets (prio : ℕ → ℕ) (mlq : ℕ → Queue) : Option ℕ → (ℕ → Queue) → Type 0 where
  got_none : Gets prio mlq none mlq
  got :
      (q p : ℕ) (rest : Queue)
      → q < 140
      → TakesHighest prio (mlq q) rest p
      → Gets prio mlq (some p) (update mlq q rest)

served :
    (prio : ℕ → ℕ) (s : Sched)
    → s.marked_prior < 140
    → (s.mlq_ready_queue s.marked_prior).size ≢ 0
    → Gets prio s.mlq_ready_queue (serve prio s).0 ((serve prio s).1).mlq_ready_queue
unfolding serve
served prio s small some_left =
    let q = s.mlq_ready_queue s.marked_prior in from (dequeue prio q) (dequeue-Dequeues prio q)
  where
    from :
        (r : Option ℕ × Queue)
        → Dequeues prio (s.mlq_ready_queue s.marked_prior) r
        → Gets prio s.mlq_ready_queue r.0 (update s.mlq_ready_queue s.marked_prior r.1)
    from r (nothing e f) = absurd (some_left e)
    from r (first_highest p e size t) = rw e (got s.marked_prior p r.1 small t)

pub get_mlq_proc-Gets :
    (prio : ℕ → ℕ) (s after : Sched) (proc : Option ℕ)
    → IsValid s
    → get_mlq_proc prio s ≡ some (proc, after)
    → Gets prio s.mlq_ready_queue proc after.mlq_ready_queue
get_mlq_proc-Gets prio s after proc v e = from (get_mlq_proc-Call prio s v)
  where
    by :
        (r : Option ℕ × Sched)
        → get_mlq_proc prio s ≡ some r
        → Gets prio s.mlq_ready_queue r.0 (r.1).mlq_ready_queue
        → Gets prio s.mlq_ready_queue proc after.mlq_ready_queue
    by r f g =
        let same : r ≡ (proc, after) = cc in
        subst (λ (x : Option ℕ × Sched). Gets prio s.mlq_ready_queue x.0 (x.1).mlq_ready_queue) same
          g

    from :
        Call prio s (get_mlq_proc prio s) → Gets prio s.mlq_ready_queue proc after.mlq_ready_queue
    from (same_round p a b c d r) = by _ r (served prio _ b λ z. absurd (eligible_size s p c z))
    from (new_round p over n b c d r) = by _ r (served prio _ b c)
    from (idle over w r) = by _ r got_none

-- An entry joins a queue at its end, or is dropped.
pub enqueue_cases :
    (q : Queue) (p : ℕ)
    → (contents (enqueue q p) ≡ contents q) ⊎ (contents (enqueue q p) ≡ contents q ++ p ∷ [])
unfolding enqueue
enqueue_cases q p = elim (Bool-cases (q.size == 10)) [
  | inl full ↦ inl (rw full refl)
  | inr room ↦ inr (rw room (window-set_end q.proc q.size p))
]

held_cases :
    (held : ℕ → Option ℕ) (i : ℕ) (r : Option ℕ) (j x : ℕ)
    → update held i r j ≡ some x
    → ((i ≡ j) × (r ≡ some x)) ⊎ (held j ≡ some x)
held_cases held i r j x e = elim (Bool-cases (i == j)) [
  | inl same ↦ inl ((==_iff i j).0 same, rw same at e)
  | inr other ↦ inr (rw other at e)
]

-- A CPU without a process lets go of none.
pub free-Placement :
    {prio : ℕ → ℕ} {n : ℕ} {held : ℕ → Option ℕ} {mlq : ℕ → Queue} (i : ℕ)
    → Placement prio n held mlq
    → Placement prio n (update held i none) mlq
free-Placement {prio} {n} {held} {mlq} i pl = record {
  levels = λ q h.
      All-implies (λ x a. (a.0, a.1, λ j e. a.2 j (kept j x e))) (contents (mlq q)) (pl.levels q h);
  once = pl.once;
  known = λ j p e. pl.known j p (kept j p e);
  alone = λ j k p e f. pl.alone j k p (kept j p e) (kept k p f);
}
  where
    kept : (j p : ℕ) → update held i none j ≡ some p → held j ≡ some p
    kept j p e = elim (held_cases held i none j p e) [ inl (at, bad) ↦ cc | inr was ↦ was ]

-- A CPU without a process takes one from the scheduler.
pub get_proc-Placement :
    {prio : ℕ → ℕ} {n : ℕ} {held : ℕ → Option ℕ} {mlq after : ℕ → Queue} (i : ℕ) (proc : Option ℕ)
    → held i ≡ none
    → Gets prio mlq proc after
    → Placement prio n held mlq
    → Placement prio n (update held i proc) after
get_proc-Placement i none free got_none pl = free-Placement i pl
get_proc-Placement {prio} {n} {held} {mlq} i (some p) free (got q _ rest small t) pl =
    let (place, stay) =
      All-without (Placed prio n held q) t.front p t.back
        (subst (All (Placed prio n held q)) t.was (pl.levels q small)) in
    let (distinct, fresh) =
      Distinct-without t.front p t.back (subst Distinct t.was (pl.once q small)) in
    record {
      levels = λ k h. elim (Bool-cases (q == k)) [
        | inl same ↦
            (let e : q ≡ k = (==_iff q k).0 same in
              rw same (
                subst (λ l. All (Placed prio n (update held i (some p)) k) l) (sym t.is)
                  (rw (sym e) (both (t.front ++ t.back) stay fresh))))
        | inr other ↦ rw other (
            All-implies (λ x a. moved k x a λ e. ground (arith, place.0, a.0)) (contents (mlq k))
              (pl.levels k h))
      ];
      once = λ k h. elim (Bool-cases (q == k)) [
        | inl same ↦ rw same (subst Distinct (sym t.is) distinct)
        | inr other ↦ rw other (pl.once k h)
      ];
      known = λ j x e. elim (held_cases held i (some p) j x e) [
        | inl (at, is) ↦ (let same : p ≡ x = cc in rw (sym same) place.1)
        | inr was ↦ pl.known j x was
      ];
      alone = λ j k x e f. elim (held_cases held i (some p) j x e) [
        | inl (at, is) ↦ elim (held_cases held i (some p) k x f) [
          | inl (there, _) ↦ sym at ∙ there
          | inr was ↦ absurd (place.2 k (was ∙ sym is))
        ]
        | inr was ↦ elim (held_cases held i (some p) k x f) [
          | inl (there, is) ↦ absurd (place.2 j (was ∙ sym is))
          | inr too ↦ pl.alone j k x was too
        ]
      ];
    }
  where
    moved : (k x : ℕ) → Placed prio n held k x → x ≢ p → Placed prio n (update held i (some p)) k x
    moved k x a ne = (
      a.0,
      a.1,
      λ j e. elim (held_cases held i (some p) j x e) [
        | inl (at, is) ↦ ne (cc)
        | inr was ↦ a.2 j was
      ],
    )

    both :
        (l : List ℕ)
        → All (Placed prio n held q) l
        → All (λ x. x ≢ p) l
        → All (Placed prio n (update held i (some p)) q) l
    both [] a f = tt
    both (x ∷ l) a f = (moved q x a.0 f.0, both l a.1 f.1)
