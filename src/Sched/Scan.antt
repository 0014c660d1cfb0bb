-- ===== src/Sched/Scan.antt =====
-- The two loops of `get_mlq_proc`: the scan over `MarkedPrior`, and the reset of the slots.
use mathlib.Core.Path.{fun_ext, subst}
use easter_egg.Common.{ℕ, zero, suc, ◌+◌, ◌-◌, ◌≤◌, ◌<◌, ◌≡◌, ◌∙◌, ap, ap₂, arith}
use easter_egg.Common.{Bool, true, false, ltb, leb, ◌==◌, ◌&&◌, if◌then◌else◌, update, Bool-cases}
use easter_egg.Common.{inl, inr}
use easter_egg.Sched.{Sched, eligible, scan_loop, reset_loop}

-- How the scan ends: at the first level from `marked_prior` on that passes the test, or behind
-- the last of `rounds` levels.
pub data Scanned (s : Sched) (rounds : ℕ) (result : Bool × Sched) : Type 0 where
  hit :
      (p : ℕ)
      → s.marked_prior ≤ p
      → p < s.marked_prior + rounds
      → eligible s p ≡ true
      → ((q : ℕ) → s.marked_prior ≤ q → q < p → eligible s q ≡ false)
      → result ≡ (true, record s { marked_prior = p; count = s.count + (p - s.marked_prior) })
      → Scanned s rounds result
  miss :
      ((q : ℕ) → s.marked_prior ≤ q → q < s.marked_prior + rounds → eligible s q ≡ false)
      → result
        ≡ (false, record s { marked_prior = s.marked_prior + rounds; count = s.count + rounds })
      → Scanned s rounds result

-- One more level in front that does not pass.
none_before :
    (s : Sched) (end : ℕ)
    → eligible s s.marked_prior ≡ false
    → ((q : ℕ) → s.marked_prior + 1 ≤ q → q < end → eligible s q ≡ false)
    → (q : ℕ) → s.marked_prior ≤ q
    → q < end
    → eligible s q ≡ false
none_before s end e d q a b = elim (Bool-cases (s.marked_prior == q)) [
  | inl same ↦ let eq : s.marked_prior ≡ q = ground arith in subst (λ k. eligible s k ≡ false) eq e
  | inr other ↦ d q (ground arith) b
]

Scanned-cons :
    {s : Sched} {rounds : ℕ} {result : Bool × Sched}
    → eligible s s.marked_prior ≡ false
    → Scanned (record s { marked_prior = s.marked_prior + 1; count = s.count + 1 }) rounds result
    → Scanned s (suc rounds) result
unfolding eligible
Scanned-cons {s} {rounds} e (hit p a b c d r) =
    hit p (omega arith) (omega arith) c (none_before s p e d)
      (r ∙ ap (λ (k : ℕ). (true, record s { marked_prior = p; count = k })) (omega arith))
Scanned-cons {s} {rounds} e (miss d r) =
    let behind : s.marked_prior + 1 + rounds ≡ s.marked_prior + suc rounds = omega arith in
    miss (none_before s (s.marked_prior + suc rounds) e (rw behind at d)) (
      r ∙ ap₂ (λ (m c : ℕ). (false, record s { marked_prior = m; count = c })) behind (omega arith))

pub scan_loop-Scanned : (rounds : ℕ) (s : Sched) → Scanned s rounds (scan_loop rounds s)
unfolding scan_loop
scan_loop-Scanned zero s = miss (λ q a b. absurd (omega arith)) (ground arith)
scan_loop-Scanned (suc rounds) s = elim (Bool-cases (eligible s s.marked_prior)) [
  | inl e ↦ rw e (
      hit s.marked_prior (omega arith) (omega arith) e (λ q a b. absurd (omega arith))
        (ground arith))
  | inr e ↦ rw e (Scanned-cons e (scan_loop-Scanned rounds _))
]

-- The slots after `slot[j] = 0` for every `j` from `from` to `from + rounds - 1`.
pub reset_loop_lem :
    (rounds from : ℕ) (slot : ℕ → ℕ)
    → reset_loop rounds from slot ≡ (λ j. if leb from j && ltb j (from + rounds) then 0 else slot j)
unfolding reset_loop
reset_loop_lem zero from slot = fun_ext λ j. ground arith
reset_loop_lem (suc n) from slot =
    reset_loop_lem n (from + 1) (update slot from 0) ∙ fun_ext λ j. ground arith
