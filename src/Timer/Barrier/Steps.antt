-- ===== src/Timer/Barrier/Steps.antt =====
-- The steps of Timer/System and the invariant of the barrier.
use mathlib.Core.Path.{subst}
use easter_egg.Common.{ℕ, suc, ◌+◌, ◌<◌, ◌≡◌, inl, inr, true, false, arith}
use easter_egg.Common.{◌||◌, ◌==◌, if◌then◌else◌, update, Bool-cases, refl, ==_iff, sym}
use easter_egg.Timer.{tell_done, detach_event, has_reported, next_time}
use easter_egg.Timer.{let_continue, stop_timer, free_devices}
use easter_egg.Timer.System.{System, TimerPc, head, watching, releasing, ended}
use easter_egg.Timer.System.{working, waiting, gone, Step}
use easter_egg.Timer.System.{
  begin_round, stop_round, look, tick, release, end_round, finish_slot, resume, detach, stop,
  discard,
}
use easter_egg.Timer.Barrier.Places.{Free, Local, Counts, Inv}
use easter_egg.Timer.Barrier.Moves.{told, resumed, detached, looked, counted_on, let_on, left}
use easter_egg.Timer.Barrier.Moves.{at_update, at_pc, Counts-update, gone_reported}
use easter_egg.Timer.Barrier.Moves.{working-IsGone, waiting-IsGone}

-- The invariant with the position of the timer given.
abbrev pub Places : ℕ → TimerPc → System → Type 0
Places n tp s = (i : ℕ) → i < n → Local tp s.timer.time i (s.pc i) (s.timer.devices i)

pub Places-at : (n : ℕ) (s : System) (tp : TimerPc) → s.timer_pc ≡ tp → Inv n s → Places n tp s
Places-at n s tp e inv = subst (λ x. Places n x s) e inv.places

pub Counts-at :
    (n : ℕ) (s : System) (tp : TimerPc) → s.timer_pc ≡ tp → Inv n s → Counts n tp s.timer.devices
Counts-at n s tp e inv = subst (λ x. Counts n x s.timer.devices) e inv.counts

look-Places :
    (n : ℕ) (s : System) (j f e : ℕ)
    → has_reported s.timer j ≡ true
    → Places n (watching (suc j) f e) s
    → (f' e' : ℕ) → Places n (watching j f' e') s
unfolding has_reported
look-Places n s j f e seen h f' e' i hi = elim (h i hi) [
  | inl free ↦ elim (Bool-cases (i == j)) [
    | inl same ↦ inr (
      ground arith,
      looked s.timer.time (s.pc i) (s.timer.devices i) free.1 (
          subst (λ k. ((s.timer.devices k).done || (s.timer.devices k).fsh) ≡ true)
            (sym ((==_iff i j).0 same)) seen),
    )
    | inr other ↦ inl (ground arith, free.1)
  ]
  | inr held ↦ inr (omega arith, held.1)
]

look-Counts :
    (n : ℕ) (s : System) (j f e : ℕ)
    → Counts n (watching (suc j) f e) s.timer.devices
    → Counts n (watching j (if (s.timer.devices j).fsh then f + 1 else f) (e + 1)) s.timer.devices
look-Counts n s j f e c = (
  omega (arith, c.0),
  ground (arith, c.1),
  λ eq i low high. elim (Bool-cases (i == j)) [
    | inl same ↦ ground (arith, c.1)
    | inr other ↦ ground (arith, c.1, λ (p : f ≡ e). c.2 p i (ground arith) high)
  ],
)

tick-Places :
    (n : ℕ) (s : System) (f e : ℕ)
    → Places n (watching 0 f e) s
    → (i : ℕ) → i < n
    → Local (releasing n f e) (s.timer.time + 1) i (s.pc i) (s.timer.devices i)
tick-Places n s f e h i hi = elim (h i hi) [
  | inl low ↦ absurd (omega arith)
  | inr held ↦ inl (hi, counted_on s.timer.time (s.pc i) (s.timer.devices i) held.1)
]

release-Places :
    (n : ℕ) (s : System) (j f e : ℕ)
    → Places n (releasing (suc j) f e) s
    → (i : ℕ) → i < n
    → Local
        (releasing j f e)
        s.timer.time
        i
        (s.pc i)
        (update s.timer.devices j (record (s.timer.devices j) { done = false }) i)
release-Places n s j f e h i hi = elim (Bool-cases (j == i)) [
  | inl same ↦ rw same (elim (h i hi) [
    | inl back ↦ inr (
      ground arith,
      subst (λ k. Free s.timer.time (s.pc i) (record (s.timer.devices k) { done = false }))
          (sym ((==_iff j i).0 same)) (let_on s.timer.time (s.pc i) (s.timer.devices i) back.1),
    )
    | inr free ↦ absurd (ground arith)
  ])
  | inr other ↦ rw other (elim (h i hi) [
    | inl back ↦ inl (ground arith, back.1)
    | inr free ↦ inr (ground arith, free.1)
  ])
]

end-Places :
    (n : ℕ) (s : System) (f e : ℕ)
    → Places n (releasing 0 f e) s
    → Counts n (releasing 0 f e) s.timer.devices
    → Places n (if f == e then ended else head) s
end-Places n s f e h c i hi = elim (h i hi) [
  | inl low ↦ absurd (omega arith)
  | inr free ↦ elim (Bool-cases (f == e)) [
    | inl all ↦
        (let fsh = c ((==_iff f e).0 all) i hi in
          rw all (left s.timer.time (s.pc i) (s.timer.devices i) free.1 fsh, fsh))
    | inr some_left ↦ rw some_left free.1
  ]
]

pub Step-Inv : (n : ℕ) {s t : System} → Inv n s → Step n s t → Inv n t
unfolding next_time let_continue stop_timer free_devices tell_done detach_event
Step-Inv n {s} inv (begin_round e go) =
    let here = Places-at n s head e inv in
    record {
      places = λ i hi. inl (hi, here i hi);
      counts = (omega arith, omega arith, λ eq i low high. absurd (omega arith));
      stopped = inv.stopped;
    }
Step-Inv n {s} inv (stop_round e go) =
    let here = Places-at n s head e inv in
    record {
      places = λ i hi.
          let done = inv.stopped go i hi in
          (done, gone_reported s.timer.time (s.pc i) (s.timer.devices i) (here i hi) done);
      counts = tt;
      stopped = inv.stopped;
    }
Step-Inv n {s} inv (look j f ev e seen) = record {
  places = look-Places n s j f ev seen (Places-at n s (watching (suc j) f ev) e inv) 0 0;
  counts = look-Counts n s j f ev (Counts-at n s (watching (suc j) f ev) e inv);
  stopped = inv.stopped;
}
Step-Inv n {s} inv (tick f ev e) = record {
  places = tick-Places n s f ev (Places-at n s (watching 0 f ev) e inv);
  counts = λ eq i hi. (Counts-at n s (watching 0 f ev) e inv).2 eq i (omega arith) hi;
  stopped = inv.stopped;
}
Step-Inv n {s} inv (release j f ev e) = record {
  places = release-Places n s j f ev (Places-at n s (releasing (suc j) f ev) e inv);
  counts =
      Counts-update n (releasing j f ev) s.timer.devices j _ (λ h. h)
        (Counts-at n s (releasing (suc j) f ev) e inv);
  stopped = inv.stopped;
}
Step-Inv n {s} inv (end_round f ev e) = record {
  places =
      end-Places n s f ev (Places-at n s (releasing 0 f ev) e inv)
        (Counts-at n s (releasing 0 f ev) e inv);
  counts = elim (Bool-cases (f == ev)) [ inl all ↦ rw all tt | inr some_left ↦ rw some_left tt ];
  stopped = inv.stopped;
}
Step-Inv n {s} inv (finish_slot i m hi e) = record {
  places = λ j hj.
      at_update (Local s.timer_pc s.timer.time) s.pc s.timer.devices i (waiting m) _
        (told s.timer_pc s.timer.time i m (s.timer.devices i) (rw e at (inv.places i hi))) j
        (inv.places j hj);
  counts = Counts-update n s.timer_pc s.timer.devices i _ (λ h. h) inv.counts;
  stopped = λ set. absurd (working-IsGone (s.pc i) e (inv.stopped set i hi));
}
Step-Inv n {s} inv (resume i m hi e free) = record {
  places = λ j hj.
      at_pc (Local s.timer_pc s.timer.time) s.pc s.timer.devices i (working (suc m))
        (resumed s.timer_pc s.timer.time i m (s.timer.devices i) (rw e at (inv.places i hi)) free) j
        (inv.places j hj);
  counts = inv.counts;
  stopped = λ set. absurd (waiting-IsGone (s.pc i) e (inv.stopped set i hi));
}
Step-Inv n {s} inv (detach i m hi e) = record {
  places = λ j hj.
      at_update (Local s.timer_pc s.timer.time) s.pc s.timer.devices i (gone m) _
        (detached s.timer_pc s.timer.time i m (s.timer.devices i) (rw e at (inv.places i hi))) j
        (inv.places j hj);
  counts = Counts-update n s.timer_pc s.timer.devices i _ (λ _. refl) inv.counts;
  stopped = λ set. absurd (working-IsGone (s.pc i) e (inv.stopped set i hi));
}
Step-Inv n {s} inv (stop all) = record {
  places = inv.places;
  counts = inv.counts;
  stopped = λ _. all;
}
Step-Inv n {s} inv (discard e set) = record {
  places = inv.places;
  counts = inv.counts;
  stopped = inv.stopped;
}
