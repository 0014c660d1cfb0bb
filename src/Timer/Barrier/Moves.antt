-- ===== src/Timer/Barrier/Moves.antt =====
-- The steps of Timer/System, the places of the threads and the counters.
use mathlib.Core.Path.{subst}
use easter_egg.Common.{ℕ, suc, ◌+◌, ◌≡◌, inl, inr, true, false, arith}
use easter_egg.Common.{◌||◌, ◌==◌, update, Bool-cases, refl, ==_iff}
use easter_egg.Timer.{Device}
use easter_egg.Timer.System.{TimerPc, head, watching, releasing, ended, init}
use easter_egg.Timer.System.{DevicePc, working, waiting, gone, IsGone}
use easter_egg.Timer.Barrier.Places.{Free, Held, HeldBack, Local, Counts, Inv}

pub init-Inv : (n : ℕ) → Inv n (init n)
init-Inv n = record { places = λ i h. (refl, refl, refl); counts = tt; stopped = λ e. cc }

-- The routines of the devices, as they change the place of one.
pub told :
    (tp : TimerPc) (t i m : ℕ) (d : Device)
    → Local tp t i (working m) d
    → Local tp t i (waiting m) (record d { done = true })
told head t i m d h = (h.1, inl (refl, h.2))
told (watching k f e) t i m d (inl h) = inl (h.0, (h.1.1, inl (refl, h.1.2)))
told (watching k f e) t i m d (inr h) = absurd h.1
told (releasing k f e) t i m d (inl h) = absurd h.1
told (releasing k f e) t i m d (inr h) = inr (h.0, (h.1.1, inl (refl, h.1.2)))
told ended t i m d h = absurd h.0

pub resumed :
    (tp : TimerPc) (t i m : ℕ) (d : Device)
    → Local tp t i (waiting m) d
    → d.done ≡ false
    → Local tp t i (working (suc m)) d
resumed head t i m d h e = ground arith
resumed (watching k f ev) t i m d h e = ground arith
resumed (releasing k f ev) t i m d h e = ground arith
resumed ended t i m d h e = absurd h.0

pub detached :
    (tp : TimerPc) (t i m : ℕ) (d : Device)
    → Local tp t i (working m) d
    → Local tp t i (gone m) (record d { fsh = true })
detached head t i m d h = refl
detached (watching k f e) t i m d (inl h) = inl (h.0, refl)
detached (watching k f e) t i m d (inr h) = absurd h.1
detached (releasing k f e) t i m d (inl h) = absurd h.1
detached (releasing k f e) t i m d (inr h) = inr (h.0, refl)
detached ended t i m d h = absurd h.0

-- A device that is looked at and has reported is held.
pub looked :
    (t : ℕ) (p : DevicePc) (d : Device) → Free t p d → (d.done || d.fsh) ≡ true → Held t p d
looked t (working m) d h e = ground arith
looked t (waiting m) d h e = ground arith
looked t (gone m) d h e = h

pub counted_on : (t : ℕ) (p : DevicePc) (d : Device) → Held t p d → HeldBack (t + 1) p d
counted_on t (working m) d h = absurd h
counted_on t (waiting m) d h = (h.0, h.1, omega arith)
counted_on t (gone m) d h = h

pub let_on :
    (t : ℕ) (p : DevicePc) (d : Device) → HeldBack t p d → Free t p (record d { done = false })
let_on t (working m) d h = absurd h
let_on t (waiting m) d h = (h.0, inr (refl, h.2))
let_on t (gone m) d h = h

pub left : (t : ℕ) (p : DevicePc) (d : Device) → Free t p d → d.fsh ≡ true → IsGone p
left t (working m) d h e = cc
left t (waiting m) d h e = cc
left t (gone m) d h e = tt

pub gone_reported : (t : ℕ) (p : DevicePc) (d : Device) → Free t p d → IsGone p → d.fsh ≡ true
gone_reported t (working m) d h g = absurd g
gone_reported t (waiting m) d h g = absurd g
gone_reported t (gone m) d h g = h

pub working-IsGone : (p : DevicePc) {m : ℕ} → p ≡ working m → IsGone p → ⊥
working-IsGone p e g = rw e at g

pub waiting-IsGone : (p : DevicePc) {m : ℕ} → p ≡ waiting m → IsGone p → ⊥
waiting-IsGone p e g = rw e at g

-- A change at index `i` of the threads and of the devices.
pub at_update :
    (P : ℕ → DevicePc → Device → Type 0) (pc : ℕ → DevicePc) (devices : ℕ → Device) (i : ℕ)
    (p : DevicePc) (d : Device)
    → P i p d
    → (j : ℕ) → P j (pc j) (devices j)
    → P j (update pc i p j) (update devices i d j)
at_update P pc devices i p d here j there = elim (Bool-cases (i == j)) [
  | inl e ↦ rw e (subst (λ k. P k p d) ((==_iff i j).0 e) here)
  | inr e ↦ rw e there
]

pub at_pc :
    (P : ℕ → DevicePc → Device → Type 0) (pc : ℕ → DevicePc) (devices : ℕ → Device) (i : ℕ)
    (p : DevicePc)
    → P i p (devices i)
    → (j : ℕ) → P j (pc j) (devices j)
    → P j (update pc i p j) (devices j)
at_pc P pc devices i p here j there = elim (Bool-cases (i == j)) [
  | inl e ↦ rw e (subst (λ k. P k p (devices k)) ((==_iff i j).0 e) here)
  | inr e ↦ rw e there
]

-- The counters stay right if no device takes its `fsh` back.
pub Counts-update :
    (n : ℕ) (tp : TimerPc) (devices : ℕ → Device) (i : ℕ) (d : Device)
    → ((devices i).fsh ≡ true → d.fsh ≡ true)
    → Counts n tp devices
    → Counts n tp (update devices i d)
Counts-update n head devices i d kept c = tt
Counts-update n (watching k f e) devices i d kept c =
    (c.0, c.1, λ eq j low high. ground (arith, c.2 eq j))
Counts-update n (releasing k f e) devices i d kept c = λ eq j high. ground (arith, c eq j)
Counts-update n ended devices i d kept c = tt
