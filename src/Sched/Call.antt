-- ===== src/Sched/Call.antt =====
-- One call of `get_mlq_proc`: whether it ends, and which process it gives.
use mathlib.Core.Path.{fun_ext}
use easter_egg.Common.{ℕ, suc, ◌+◌, ◌-◌, ◌≤◌, ◌<◌, ◌≡◌, ◌≢◌, refl, ◌∙◌, ap, arith, ◌⊎◌, inl, inr}
use easter_egg.Common.{Bool, true, false, ltb, ◌==◌, ◌&&◌, not, if◌then◌else◌, Bool-cases}
use easter_egg.Common.{Option, none, some}
use easter_egg.Sched.{Sched, max_prio, eligible, scan_loop, reset_loop, serve, label_loop}
use easter_egg.Sched.{get_mlq_proc}
use easter_egg.Sched.Scan.{Scanned, hit, miss, scan_loop-Scanned, reset_loop_lem}

-- All slots of the levels 0, …, as a new round has them.
abbrev pub cleared : (ℕ → ℕ) → ℕ → ℕ
cleared slot j = if ltb j 140 then 0 else slot j

reset_all : (slot : ℕ → ℕ) → reset_loop max_prio 0 slot ≡ cleared slot
reset_all slot = reset_loop_lem max_prio 0 slot ∙ fun_ext λ j. ground arith

cleared_twice : (slot : ℕ → ℕ) → cleared (cleared slot) ≡ cleared slot
cleared_twice slot = fun_ext λ j. ground arith

-- The state in which level `p` is served, in the same round and at the start of the next one.
abbrev pub at_level : Sched → ℕ → Sched
at_level s p = record s { marked_prior = p; flag = false; count = 0 }

abbrev pub next_round : Sched → ℕ → Sched
next_round s p = record s { slot = cleared s.slot; marked_prior = p; flag = false; count = 0 }

abbrev pub idle_state : Sched → Sched
idle_state s = record s { slot = cleared s.slot; marked_prior = 0; flag = true; count = max_prio }

-- No level from `marked_prior` on has both a process and a slot left.
abbrev pub RoundOver : Sched → Type 0
RoundOver s = (q : ℕ) → s.marked_prior ≤ q → q < 140 → eligible s q ≡ false

-- What a call of `get_mlq_proc` returns.
pub data Call (prio : ℕ → ℕ) (s : Sched) (result : Option (Option ℕ × Sched)) : Type 0 where
  same_round :
      (p : ℕ)
      → s.marked_prior ≤ p
      → p < 140
      → eligible s p ≡ true
      → ((q : ℕ) → s.marked_prior ≤ q → q < p → eligible s q ≡ false)
      → result ≡ some (serve prio (at_level s p))
      → Call prio s result
  new_round :
      (p : ℕ)
      → RoundOver s
      → s.count ≢ s.marked_prior
      → p < 140
      → (s.mlq_ready_queue p).size ≢ 0
      → ((q : ℕ) → q < p → (s.mlq_ready_queue q).size ≡ 0)
      → result ≡ some (serve prio (next_round s p))
      → Call prio s result
  idle :
      RoundOver s
      → (s.count ≡ s.marked_prior) ⊎ ((q : ℕ) → q < 140 → (s.mlq_ready_queue q).size ≡ 0)
      → result ≡ some (none, idle_state s)
      → Call prio s result

label_hit :
    (prio : ℕ → ℕ) (jumps : ℕ) (s : Sched) (p c : ℕ)
    → s.flag ≡ true
    → scan_loop (max_prio - s.marked_prior) s ≡ (true, record s { marked_prior = p; count = c })
    → label_loop prio (suc jumps) s ≡ some (serve prio (at_level s p))
unfolding label_loop serve
label_hit prio jumps s p c f e = rw (e, f)

label_miss :
    (prio : ℕ → ℕ) (jumps : ℕ) (s : Sched) (m c : ℕ)
    → s.flag ≡ true
    → scan_loop (max_prio - s.marked_prior) s ≡ (false, record s { marked_prior = m; count = c })
    → label_loop prio (suc jumps) s ≡ (
        if c == max_prio
        then some
            (none, record s { slot = cleared s.slot; marked_prior = 0; flag = true; count = c })
        else label_loop prio jumps
            (record s { slot = cleared s.slot; marked_prior = 0; flag = true; count = 0 }))
unfolding label_loop
label_miss prio jumps s m c f e = rw (e, f, reset_all)

-- The scan of a round that has just begun.
round_start :
    (prio : ℕ → ℕ) (jumps : ℕ) (s : Sched)
    → RoundOver s
    → s.count ≢ s.marked_prior
    → Call prio s (
        label_loop prio
          (suc jumps)
          (record s { slot = cleared s.slot; marked_prior = 0; flag = true; count = 0 }))
unfolding eligible
round_start prio jumps s over ne = from (scan_loop-Scanned 140 r)
  where
    r : Sched
    r = record s { slot = cleared s.slot; marked_prior = 0; flag = true; count = 0 }

    from : Scanned r 140 (scan_loop 140 r) → Call prio s (label_loop prio (suc jumps) r)
    from (hit p a b c d e) =
        new_round p over ne (omega arith) (ground arith) (λ q u. ground (arith, d q))
          (label_hit prio jumps r p (0 + (p - 0)) refl e)
    from (miss d e) = idle over (inr λ q u. ground (arith, d q)) (
        label_miss prio jumps r (0 + 140) (0 + 140) refl e
        ∙ ap
            (λ (f : ℕ → ℕ).
              some (none, record s { slot = f; marked_prior = 0; flag = true; count = 140 }))
            (cleared_twice s.slot))

-- The scan from `marked_prior` on, and the next round if it finds nothing.
searching :
    (prio : ℕ → ℕ) (jumps : ℕ) (s : Sched)
    → s.flag ≡ true
    → s.marked_prior < 140
    → Call prio s (label_loop prio (suc (suc jumps)) s)
searching prio jumps s f m = from (scan_loop-Scanned (max_prio - s.marked_prior) s)
  where
    total : ℕ
    total = s.count + (max_prio - s.marked_prior)

    over :
        RoundOver s
        → label_loop prio (suc (suc jumps)) s ≡ (
            if total == max_prio
            then some (
              none,
              record s { slot = cleared s.slot; marked_prior = 0; flag = true; count = total },
            )
            else label_loop prio
                (suc jumps)
                (record s { slot = cleared s.slot; marked_prior = 0; flag = true; count = 0 }))
        → Call prio s (label_loop prio (suc (suc jumps)) s)
    over none_left e = elim (Bool-cases (total == max_prio)) [
      | inl full ↦ idle none_left (inl (ground arith)) (
          e
          ∙ rw full (
              ap
                (λ (k : ℕ). some (
                  none,
                  record s { slot = cleared s.slot; marked_prior = 0; flag = true; count = k },
                ))
                (ground arith)))
      | inr short ↦ rw (e, short) (round_start prio jumps s none_left (ground arith))
    ]

    from :
        Scanned s (max_prio - s.marked_prior) (scan_loop (max_prio - s.marked_prior) s)
        → Call prio s (label_loop prio (suc (suc jumps)) s)
    from (hit p a b c d e) = same_round p a (omega arith) c d (label_hit prio (suc jumps) s p _ f e)
    from (miss d e) = over (λ q a b. d q a (omega arith)) (label_miss prio (suc jumps) s _ _ f e)

-- The flag does not matter to what a call returns.
Call-flag :
    {prio : ℕ → ℕ} {s : Sched} {result : Option (Option ℕ × Sched)}
    → Call prio (record s { flag = true }) result
    → Call prio s result
unfolding eligible
Call-flag (same_round p a b c d r) = same_round p a b c d r
Call-flag (new_round p over ne b c d r) = new_round p over ne b c d r
Call-flag (idle over e r) = idle over e r

-- What holds between two calls: the level in hand exists, no level has had more than its share
-- of the round, and a search that is to begin has counted nothing or all levels.
pub record IsValid (s : Sched) : Type 0 where
  pub level : s.marked_prior < 140
  pub shares : (p : ℕ) → p < 140 → s.slot p ≤ 140 - p
  pub serving : s.flag ≡ false → s.count ≡ 0
  pub fresh : s.flag ≡ true → s.marked_prior ≡ 0

-- The test of the level in hand has its two parts in the other order.
other_order :
    (s : Sched) {b : Bool}
    → eligible s s.marked_prior ≡ b
    → (ltb (s.slot s.marked_prior) (max_prio - s.marked_prior)
        && not ((s.mlq_ready_queue s.marked_prior).size == 0))
      ≡ b
unfolding eligible
other_order s {b} e = ground arith

-- The level in hand is served again.
same_level :
    (prio : ℕ → ℕ) (jumps : ℕ) (s : Sched)
    → s.flag ≡ false
    → s.count ≡ 0
    → s.marked_prior < 140
    → eligible s s.marked_prior ≡ true
    → Call prio s (label_loop prio (suc jumps) s)
same_level prio jumps s f c m e =
    same_round s.marked_prior (omega arith) m e (λ q a b. absurd (omega arith))
      (unfold label_loop in rw (other_order s e, f, c))

-- It has no process or no share left: the search goes on behind `label`.
next_level :
    (prio : ℕ → ℕ) (jumps : ℕ) (s : Sched)
    → s.flag ≡ false
    → eligible s s.marked_prior ≡ false
    → label_loop prio (suc jumps) s ≡ label_loop prio jumps (record s { flag = true })
unfolding label_loop eligible
next_level prio jumps s f e = rw (other_order s e, f)

-- From a valid state `get_mlq_proc` returns, and it does one of three things. It
-- serves the first level from `MarkedPrior` on that has both a process and a slot left. Or there is
-- none, `count` is not `MarkedPrior`, and it serves the first level that has a process, in a new
-- round with all slots 0. Or there is none and it gives no process and starts a new round; then
-- `count` is `MarkedPrior`, or no level has a process.
pub get_mlq_proc-Call : (prio : ℕ → ℕ) (s : Sched) → IsValid s → Call prio s (get_mlq_proc prio s)
unfolding get_mlq_proc
get_mlq_proc-Call prio s v = elim (Bool-cases s.flag) [
  | inl up ↦ searching prio 1 s up v.level
  | inr down ↦ elim (Bool-cases (eligible s s.marked_prior)) [
    | inl e ↦ same_level prio 2 s down (v.serving down) v.level e
    | inr e ↦
        rw (next_level prio 2 s down e)
          (Call-flag (searching prio 0 (record s { flag = true }) refl v.level))
  ]
]
