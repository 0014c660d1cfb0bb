-- ===== src/Timer/Barrier/Places.antt =====
-- Where each thread stands, seen from where the timer stands.
use easter_egg.Common.{ℕ, suc, ◌+◌, ◌≤◌, ◌<◌, ◌≡◌, ◌⊎◌, inl, inr, true, false, arith}
use easter_egg.Timer.{Device}
use easter_egg.Timer.System.{System, TimerPc, head, watching, releasing, ended}
use easter_egg.Timer.System.{DevicePc, working, waiting, gone, IsGone}

abbrev pub slots : DevicePc → ℕ
slots (working m) = m
slots (waiting m) = m
slots (gone m) = m

-- A thread that may go on in slot `t`: it is at work there, or has done its work there, or has
-- done that of the slot before and has been let on.
abbrev pub Free : ℕ → DevicePc → Device → Type 0
Free t (working m) d = (d.done ≡ false) × (d.fsh ≡ false) × (m ≡ t)
Free t (waiting m) d =
    (d.fsh ≡ false) × (((d.done ≡ true) × (m ≡ t)) ⊎ ((d.done ≡ false) × (suc m ≡ t)))
Free t (gone m) d = d.fsh ≡ true

-- A thread that has done its work in slot `t` and is not let on yet.
abbrev pub Held : ℕ → DevicePc → Device → Type 0
Held t (working m) d = ⊥
Held t (waiting m) d = (d.fsh ≡ false) × (d.done ≡ true) × (m ≡ t)
Held t (gone m) d = d.fsh ≡ true

-- The same when the timer has counted on.
abbrev pub HeldBack : ℕ → DevicePc → Device → Type 0
HeldBack t (working m) d = ⊥
HeldBack t (waiting m) d = (d.fsh ≡ false) × (d.done ≡ true) × (suc m ≡ t)
HeldBack t (gone m) d = d.fsh ≡ true

abbrev pub Local : TimerPc → ℕ → ℕ → DevicePc → Device → Type 0
Local head t i p d = Free t p d
Local (watching k f e) t i p d = ((i < k) × Free t p d) ⊎ ((k ≤ i) × Held t p d)
Local (releasing k f e) t i p d = ((i < k) × HeldBack t p d) ⊎ ((k ≤ i) × Free t p d)
Local ended t i p d = IsGone p × (d.fsh ≡ true)

-- What the counters of `timer_routine` say about the devices that it has looked at.
abbrev pub Counts : ℕ → TimerPc → (ℕ → Device) → Type 0
Counts n head devices = Unit
Counts n (watching k f e) devices =
    (k ≤ n) × (f ≤ e) × (f ≡ e → (i : ℕ) → k ≤ i → i < n → (devices i).fsh ≡ true)
Counts n (releasing k f e) devices = f ≡ e → (i : ℕ) → i < n → (devices i).fsh ≡ true
Counts n ended devices = Unit

pub record Inv (n : ℕ) (s : System) : Type 0 where
  pub places : (i : ℕ) → i < n → Local s.timer_pc s.timer.time i (s.pc i) (s.timer.devices i)
  pub counts : Counts n s.timer_pc s.timer.devices
  pub stopped : s.timer.timer_stop ≡ true → (i : ℕ) → i < n → IsGone (s.pc i)

pub Local-working :
    (tp : TimerPc) (t i : ℕ) {m : ℕ} (d : Device) → Local tp t i (working m) d → m ≡ t
Local-working head t i d h = h.2
Local-working (watching k f e) t i d (inl h) = h.1.2
Local-working (watching k f e) t i d (inr h) = absurd h.1
Local-working (releasing k f e) t i d (inl h) = absurd h.1
Local-working (releasing k f e) t i d (inr h) = h.1.2
Local-working ended t i d h = absurd h.0

pub Local-slots :
    (tp : TimerPc) (t i : ℕ) (p : DevicePc) (d : Device)
    → Local tp t i p d
    → (IsGone p → ⊥)
    → (slots p ≤ t) × (t ≤ slots p + 1)
Local-slots tp t i (gone m) d h live = absurd (live tt)
Local-slots head t i (working m) d h live = ground arith
Local-slots head t i (waiting m) d h live = ground arith
Local-slots (watching k f e) t i (working m) d h live = ground arith
Local-slots (watching k f e) t i (waiting m) d h live = ground arith
Local-slots (releasing k f e) t i (working m) d h live = ground arith
Local-slots (releasing k f e) t i (waiting m) d h live = ground arith
Local-slots ended t i (working m) d h live = absurd h.0
Local-slots ended t i (waiting m) d h live = absurd h.0
