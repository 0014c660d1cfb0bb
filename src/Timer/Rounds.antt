-- ===== src/Timer/Rounds.antt =====
-- A whole round of `timer_routine`, from its head to the end of the loop.
use easter_egg.Common.{ℕ, zero, suc, ◌+◌, ◌≤◌, ◌<◌, ◌≡◌, ◌⊎◌, inl, inr, true, false, arith, refl}
use easter_egg.Common.{Bool-cases, update, ◌==◌}
use easter_egg.Timer.{Device, has_reported, next_time, let_continue}
use easter_egg.Timer.System.{System, TimerPc, head, watching, releasing, ended, Step}
use easter_egg.Timer.System.{begin_round, look, tick, release, end_round}

-- Steps in a row.
pub data Run (n : ℕ) (s : System) : System → Type 0 where
  here : Run n s s
  then_step : {t u : System} → Run n s t → Step n t u → Run n s u

abbrev at_pc : System → TimerPc → System
at_pc s p = record s { timer_pc = p }

abbrev Reported : ℕ → System → Type 0
Reported n s = (i : ℕ) → i < n → has_reported s.timer i ≡ true

watch_all :
    (n k : ℕ) (s o : System) (f e : ℕ)
    → Reported n s
    → k ≤ n
    → Run n o (at_pc s (watching k f e))
    → (f' : ℕ) × (e' : ℕ) × Run n o (at_pc s (watching 0 f' e'))
watch_all n zero s o f e all h r = (f, e, r)
watch_all n (suc k) s o f e all h r =
    watch_all n k s o _ _ all (omega arith) (then_step r (look k f e refl (all k (omega arith))))

-- The devices after the second loop.
abbrev let_all : ℕ → (ℕ → Device) → ℕ → Device
let_all zero devices = devices
let_all (suc k) devices = let_all k (update devices k (record (devices k) { done = false }))

let_all-done :
    (k : ℕ) (devices : ℕ → Device) (i : ℕ)
    → (i < k) ⊎ ((devices i).done ≡ false)
    → (let_all k devices i).done ≡ false
let_all-done zero devices i (inl h) = absurd (omega arith)
let_all-done zero devices i (inr h) = h
let_all-done (suc k) devices i h =
    let_all-done k (update devices k (record (devices k) { done = false })) i
      (elim (Bool-cases (k == i)) [
        | inl same ↦ inr (rw same refl)
        | inr other ↦ elim h [ inl low ↦ inl (ground arith) | inr clear ↦ inr (rw other clear) ]
      ])

release_all :
    (n k : ℕ) (s o : System) (f e : ℕ)
    → Run n o (at_pc s (releasing k f e))
    → Run n o (record s {
      timer = record (s.timer) { devices = let_all k s.timer.devices };
      timer_pc = releasing 0 f e;
    })
unfolding let_continue
release_all n zero s o f e r = r
release_all n (suc k) s o f e r =
    release_all n k
      (record s {
        timer = record (s.timer) {
          devices = update s.timer.devices k (record (s.timer.devices k) { done = false });
        };
      })
      o f e (then_step r (release k f e refl))

-- When the timer is at the head of its loop, `timer_stop` is not set, and every device has reported,
-- the timer can complete its round alone: it then has counted one slot more, every device is let
-- on, and no thread that uses the timer has moved.
pub round_completes :
    (n : ℕ) (s : System)
    → s.timer_pc ≡ head
    → s.timer.timer_stop ≡ false
    → ((i : ℕ) → i < n → has_reported s.timer i ≡ true)
    → (t : System) × Run n s t
      × ((t.timer_pc ≡ head) ⊎ (t.timer_pc ≡ ended))
      × (t.timer.time ≡ s.timer.time + 1)
      × (t.pc ≡ s.pc)
      × ((i : ℕ) → i < n → (t.timer.devices i).done ≡ false)
unfolding next_time
round_completes n s e clear all =
    let (f, ev, watched) =
      watch_all n n s s 0 0 all (omega arith) (then_step here (begin_round e clear)) in
    let released =
      release_all n n (record s { timer = record (s.timer) { time = s.timer.time + 1 } }) s f ev
        (then_step watched (tick f ev refl)) in
    (
      _,
      then_step released (end_round f ev refl),
      elim (Bool-cases (f == ev)) [
        | inl same ↦ rw same (inr refl)
        | inr other ↦ rw other (inl refl)
      ],
      refl,
      refl,
      λ i hi. let_all-done n s.timer.devices i (inl hi),
    )
