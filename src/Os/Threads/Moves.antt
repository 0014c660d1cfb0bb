-- ===== src/Os/Threads/Moves.antt =====
-- The places of processes when one is put back or loaded, and when an instruction is executed.
use mathlib.Core.Path.{subst}
use mathlib.Core.Logic.{◌≢◌}
use easter_egg.Common.{ℕ, ◌+◌, ◌<◌, ◌≡◌, inl, inr, refl, sym, ap, ◌∙◌, arith}
use easter_egg.Common.{Option, none, some, [], ◌∷◌, All, update, ◌==◌, Bool-cases, ==_iff}
use easter_egg.Common.{Distinct, All-implies, All-drop, Distinct-drop, Distinct-end, All-append}
use easter_egg.Queue.{Queue, enqueue}
use easter_egg.Queue.Refine.{contents}
use easter_egg.Killall.Effects.{Shortens}
use easter_egg.Os.Threads.Placement.{Placed, Placement, enqueue_cases}

-- A process that is nowhere joins the level of its priority.
enqueue-Placement :
    {prio : ℕ → ℕ} {n : ℕ} {held : ℕ → Option ℕ} {mlq : ℕ → Queue} (p : ℕ)
    → Placed prio n held (prio p) p
    → (prio p < 140 → All (λ x. x ≢ p) (contents (mlq (prio p))))
    → Placement prio n held mlq
    → Placement prio n held (update mlq (prio p) (enqueue (mlq (prio p)) p))
enqueue-Placement {prio} {n} {held} {mlq} p place fresh pl = record {
  levels = λ k h. elim (Bool-cases (prio p == k)) [
    | inl same ↦
        (let e : prio p ≡ k = (==_iff (prio p) k).0 same in
          rw same
            (subst (λ j. All (Placed prio n held j) (contents joined)) e (here (rw (sym e) at h))))
    | inr other ↦ rw other (pl.levels k h)
  ];
  once = λ k h. elim (Bool-cases (prio p == k)) [
    | inl same ↦
        (let e : prio p ≡ k = (==_iff (prio p) k).0 same in rw same (single (rw (sym e) at h)))
    | inr other ↦ rw other (pl.once k h)
  ];
  known = pl.known;
  alone = pl.alone;
}
  where
    joined : Queue
    joined = enqueue (mlq (prio p)) p

    here : prio p < 140 → All (Placed prio n held (prio p)) (contents joined)
    here h = elim (enqueue_cases (mlq (prio p)) p) [
      | inl full ↦ rw full (pl.levels (prio p) h)
      | inr room ↦
          rw room
            (All-append (Placed prio n held (prio p)) _ (p ∷ []) (pl.levels (prio p) h) (place, tt))
    ]

    single : prio p < 140 → Distinct (contents joined)
    single h = elim (enqueue_cases (mlq (prio p)) p) [
      | inl full ↦ rw full (pl.once (prio p) h)
      | inr room ↦ rw room (Distinct-end _ p (pl.once (prio p) h) (fresh h))
    ]

-- What an instruction does to the levels loses processes at most.
pub run-Placement :
    {prio after_prio : ℕ → ℕ} {n : ℕ} {held : ℕ → Option ℕ} {mlq after : ℕ → Queue}
    → ((x : ℕ) → after_prio x ≡ prio x)
    → Shortens mlq after
    → Placement prio n held mlq
    → Placement after_prio n held after
run-Placement {prio} {after_prio} {n} {held} {mlq} same short pl = record {
  levels = λ q h.
      let (k, e) = short q in
      rw e (
        All-drop (Placed after_prio n held q) k (contents (mlq q))
          (All-implies (λ x a. (same x ∙ a.0, a.1, a.2)) (contents (mlq q)) (pl.levels q h)));
  once = λ q h. let (k, e) = short q in rw e (Distinct-drop k (contents (mlq q)) (pl.once q h));
  known = pl.known;
  alone = pl.alone;
}

-- A CPU puts its process back and holds none.
pub put_proc-Placement :
    {prio : ℕ → ℕ} {n : ℕ} {held : ℕ → Option ℕ} {mlq : ℕ → Queue} (i p : ℕ)
    → held i ≡ some p
    → Placement prio n held mlq
    → Placement prio n (update held i none) mlq
    → Placement prio n (update held i none) (update mlq (prio p) (enqueue (mlq (prio p)) p))
put_proc-Placement {prio} {n} {held} {mlq} i p has pl freed =
    enqueue-Placement p (refl, pl.known i p has, gone)
      (λ h.
        All-implies (λ x a e. a.2 i (has ∙ ap some (sym e))) (contents (mlq (prio p)))
          (pl.levels (prio p) h))
      freed
  where
    gone : (j : ℕ) → update held i none j ≢ some p
    gone j e = elim (Bool-cases (i == j)) [
      | inl same ↦ (let bad : none ≡ some p = rw same at e in cc)
      | inr other ↦
          (let was : held j ≡ some p = rw other at e in
            let at : i ≡ j = pl.alone i j p has was in ground arith)
    ]

-- A process with the next number joins.
pub load_process-Placement :
    {prio after_prio : ℕ → ℕ} {n : ℕ} {held : ℕ → Option ℕ} {mlq : ℕ → Queue}
    → ((x : ℕ) → x ≢ n → after_prio x ≡ prio x)
    → Placement prio n held mlq
    → Placement after_prio (n + 1) held (update mlq (after_prio n) (enqueue (mlq (after_prio n)) n))
load_process-Placement {prio} {after_prio} {n} {held} {mlq} same pl =
    enqueue-Placement n (refl, omega arith, λ i e. absurd (omega (arith, pl.known i n e)))
      (λ h.
        All-implies (λ x a e. omega (arith, a.1, e)) (contents (mlq (after_prio n)))
          (pl.levels (after_prio n) h))
      (record {
        levels = λ q h.
            All-implies
              (λ x a. (same x (λ e. omega (arith, a.1, e)) ∙ a.0, ground (arith, a.1), a.2))
              (contents (mlq q)) (pl.levels q h);
        once = pl.once;
        known = λ i p e. ground (arith, pl.known i p e);
        alone = pl.alone;
      })
