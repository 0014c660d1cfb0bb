-- ===== src/Timer/Progress.antt =====
-- When the threads of Timer/System wait for each other.
use mathlib.Core.Logic.{◌≢◌}
use easter_egg.Common.{ℕ, zero, suc, ◌<◌, ◌≡◌, ◌⊎◌, inl, inr, true, false, arith, refl}
use easter_egg.Common.{Bool-cases, ◌==◌}
use easter_egg.Timer.{has_reported}
use easter_egg.Timer.System.{System, TimerPc, head, watching, releasing, ended}
use easter_egg.Timer.System.{DevicePc, working, waiting, gone, Step, Reach}
use easter_egg.Timer.System.{begin_round, stop_round, look, tick, release, end_round, resume}
use easter_egg.Timer.Barrier.{Reach-Inv}
use easter_egg.Timer.Barrier.Places.{Local, Inv}
use easter_egg.Timer.Barrier.Steps.{Places-at, Counts-at}

-- The timer has moved on, or a thread has returned from `next_slot`.
abbrev pub Advances : System → System → Type 0
Advances s t =
    (s.timer_pc ≢ t.timer_pc)
    ⊎ ((i : ℕ) × (m : ℕ) × (s.pc i ≡ waiting m) × (t.pc i ≡ working (suc m)))

abbrev pub AtWork : ℕ → System → Type 0
AtWork n s = (i : ℕ) × (m : ℕ) × (i < n) × (s.pc i ≡ working m)

abbrev Goes : ℕ → System → Type 0
Goes n s = AtWork n s ⊎ ((t : System) × Step n s t × Advances s t)

self-== : (i : ℕ) → (i == i) ≡ true
self-== i = ground arith

unreported :
    (n : ℕ) (s : System) (j f e : ℕ) (p : DevicePc)
    → s.pc j ≡ p
    → j < n
    → (s.timer.devices j).done ≡ false
    → (s.timer.devices j).fsh ≡ false
    → Local (watching (suc j) f e) s.timer.time j p (s.timer.devices j)
    → Goes n s
unreported n s j f e (working m) ep hj nd nf h = inl (j, m, hj, ep)
unreported n s j f e (waiting m) ep hj nd nf h =
    inr (_, resume j m hj ep nd, inr (j, m, ep, rw (self-== j) refl))
unreported n s j f e (gone m) ep hj nd nf h = absurd (ground arith)

timer-Goes :
    (n : ℕ) (s : System) → Inv n s → (tp : TimerPc) → s.timer_pc ≡ tp → tp ≢ ended → Goes n s
unfolding has_reported
timer-Goes n s inv head e ne = elim (Bool-cases s.timer.timer_stop) [
  | inl set ↦ inr (_, stop_round e set, inl (λ x. cc))
  | inr clear ↦ inr (_, begin_round e clear, inl (λ x. cc))
]
timer-Goes n s inv (watching zero f ev) e ne = inr (_, tick f ev e, inl (λ x. cc))
timer-Goes n s inv (watching (suc j) f ev) e ne =
    let hj : j < n = omega (arith, (Counts-at n s (watching (suc j) f ev) e inv).0) in
    elim (Bool-cases (has_reported s.timer j)) [
      | inl seen ↦ inr (_, look j f ev e seen, inl (λ x. ground arith))
      | inr unseen ↦
          unreported n s j f ev (s.pc j) refl hj (ground arith) (ground arith)
            (Places-at n s (watching (suc j) f ev) e inv j hj)
    ]
timer-Goes n s inv (releasing zero f ev) e ne = inr (_, end_round f ev e, inl (λ x. ground arith))
timer-Goes n s inv (releasing (suc j) f ev) e ne =
    inr (_, release j f ev e, inl (λ x. ground arith))
timer-Goes n s inv ended e ne = absurd (ne refl)

-- In every reachable state in which the timer has not ended, some thread is at work, or a step can
-- be taken with which the timer moves on or a thread returns from `next_slot`.
pub no_deadlock :
    (n : ℕ) {s : System}
    → Reach n s
    → s.timer_pc ≢ ended
    → AtWork n s ⊎ ((t : System) × Step n s t × Advances s t)
no_deadlock n {s} r ne = timer-Goes n s (Reach-Inv n r) s.timer_pc refl ne
