-- ===== src/Killall/Lists.antt =====
-- What the two loops of `__sys_killall` leave in a queue.
use easter_egg.Common.{
  ℕ, zero, suc, ◌+◌, ◌-◌, ◌≤◌, ◌<◌, ◌≡◌, refl, sym, ap, ap₂, ◌∙◌, arith, Bool, true, false,
}
use mathlib.Core.List.{append_assoc, append-nil}
use easter_egg.Common.{
  List, [], ◌∷◌, ◌++◌, length, drop, if◌then◌else◌, Bool-cases, inl, inr, lt→ltb,
}
use easter_egg.Queue.{Queue, shift_loop}
use easter_egg.Queue.Window.{window, window-append, window_ext, shift_loop_lem}
use easter_egg.Queue.Refine.{contents}
use easter_egg.Killall.{run_list_loop, level_loop}

-- The processes of a list that pass a test, in their order.
abbrev pub only : (ℕ → Bool) → List ℕ → List ℕ
only named [] = []
only named (p ∷ ps) = if named p then p ∷ only named ps else only named ps

abbrev pub others : (ℕ → Bool) → List ℕ → List ℕ
others named [] = []
others named (p ∷ ps) = if named p then others named ps else p ∷ others named ps

-- The list without its entry `i`, and one with its first entry dropped.
abbrev pub without : Queue → ℕ → Queue
without q i = record q { proc = shift_loop (q.size - 1 - i) i q.proc; size = q.size - 1 }

abbrev pub without_first : Queue → Queue
without_first q = record q { proc = shift_loop (q.size - 1) 0 q.proc; size = q.size - 1 }

run_hit :
    (named : ℕ → Bool) (rounds i : ℕ) (q : Queue) (killed : List ℕ)
    → i < q.size
    → named (q.proc i) ≡ true
    → run_list_loop named (suc rounds) i q killed
      ≡ run_list_loop named rounds i (without q i) (killed ++ q.proc i ∷ [])
unfolding run_list_loop
run_hit named rounds i q killed inside hit = rw (lt→ltb i q.size inside, hit) refl

run_miss :
    (named : ℕ → Bool) (rounds i : ℕ) (q : Queue) (killed : List ℕ)
    → i < q.size
    → named (q.proc i) ≡ false
    → run_list_loop named (suc rounds) i q killed ≡ run_list_loop named rounds (i + 1) q killed
unfolding run_list_loop
run_miss named rounds i q killed inside miss = rw (lt→ltb i q.size inside, miss) refl

without_front : (q : Queue) (i n : ℕ) → n ≤ i → window (without q i).proc 0 n ≡ window q.proc 0 n
without_front q i n h =
    window_ext (without q i).proc q.proc 0 0 n
      λ j p. ap (λ (f : ℕ → ℕ). f (0 + j)) (shift_loop_lem (q.size - 1 - i) i q.proc) ∙ ground arith

without_rest :
    (q : Queue) (i n : ℕ)
    → i + suc n ≡ q.size
    → window (without q i).proc i n ≡ window q.proc (i + 1) n
without_rest q i n e =
    window_ext (without q i).proc q.proc i (i + 1) n
      λ j p. ap (λ (f : ℕ → ℕ). f (i + j)) (shift_loop_lem (q.size - 1 - i) i q.proc) ∙ ground arith

window_snoc : (f : ℕ → ℕ) (i : ℕ) → window f 0 (i + 1) ≡ window f 0 i ++ f i ∷ []
window_snoc f i = window-append f 0 i 1 (i + 1) i refl (omega arith)

-- The kept front, and the part that is not looked at yet.
run_list_loop_lem :
    (named : ℕ → Bool) (rounds i : ℕ) (q : Queue) (killed : List ℕ)
    → i + rounds ≡ q.size
    → (contents (run_list_loop named rounds i q killed).0
        ≡ window q.proc 0 i ++ others named (window q.proc i rounds))
      × ((run_list_loop named rounds i q killed).1 ≡ killed ++ only named (window q.proc i rounds))
run_list_loop_lem named zero i q killed e =
    let size : q.size ≡ i = omega arith in
    unfold run_list_loop in (rw size (sym (append-nil _)), sym (append-nil _))
run_list_loop_lem named (suc rounds) i q killed e = elim (Bool-cases (named (q.proc i))) [
  | inl hit ↦
      (let (kept, found) =
          run_list_loop_lem named rounds i (without q i) (killed ++ q.proc i ∷ []) (omega arith) in
        rw (run_hit named rounds i q killed (omega arith) hit) (
          kept
              ∙ ap₂ (λ (a b : List ℕ). a ++ others named b) (without_front q i i (omega arith))
                  (without_rest q i rounds e)
              ∙ rw hit refl,
          found
              ∙ ap (λ (b : List ℕ). (killed ++ q.proc i ∷ []) ++ only named b)
                  (without_rest q i rounds e)
              ∙ append_assoc killed (q.proc i ∷ []) _
              ∙ rw hit refl,
        ))
  | inr miss ↦
      (let (kept, found) = run_list_loop_lem named rounds (i + 1) q killed (omega arith) in
        rw (run_miss named rounds i q killed (omega arith) miss) (
          kept
              ∙ ap (λ (a : List ℕ). a ++ others named (window q.proc (i + 1) rounds))
                  (window_snoc q.proc i)
              ∙ append_assoc (window q.proc 0 i) (q.proc i ∷ []) _
              ∙ rw miss refl,
          found ∙ rw miss refl,
        ))
]

-- The loop over the running list removes exactly the processes that are named, keeps the others in
-- their order, and adds the removed ones, in their order, to those to kill.
pub run_list_loop-contents :
    (named : ℕ → Bool) (q : Queue) (killed : List ℕ)
    → (contents (run_list_loop named q.size 0 q killed).0 ≡ others named (contents q))
      × ((run_list_loop named q.size 0 q killed).1 ≡ killed ++ only named (contents q))
run_list_loop-contents named q killed = run_list_loop_lem named q.size 0 q killed (omega arith)

level_hit :
    (named : ℕ → Bool) (rounds j : ℕ) (q : Queue) (killed : List ℕ)
    → j < q.size
    → named (q.proc j) ≡ true
    → level_loop named (suc rounds) j q killed
      ≡ level_loop named rounds j (without_first q) (killed ++ q.proc j ∷ [])
unfolding level_loop
level_hit named rounds j q killed inside hit = rw (lt→ltb j q.size inside, hit) refl

level_miss :
    (named : ℕ → Bool) (rounds j : ℕ) (q : Queue) (killed : List ℕ)
    → j < q.size
    → named (q.proc j) ≡ false
    → level_loop named (suc rounds) j q killed ≡ level_loop named rounds (j + 1) q killed
unfolding level_loop
level_miss named rounds j q killed inside miss = rw (lt→ltb j q.size inside, miss) refl

window-without_first :
    (q : Queue) (i n : ℕ)
    → i + suc n ≤ q.size
    → window (without_first q).proc i n ≡ window q.proc (i + 1) n
window-without_first q i n e =
    window_ext (without_first q).proc q.proc i (i + 1) n
      λ j p. ap (λ (f : ℕ → ℕ). f (i + j)) (shift_loop_lem (q.size - 1) 0 q.proc) ∙ ground arith

window_cons : (f : ℕ → ℕ) (n m : ℕ) → n ≡ suc m → window f 0 n ≡ f 0 ∷ window f 1 m
window_cons f n m e = rw e refl

drop-without_first :
    (q : Queue) (k : ℕ)
    → 0 < q.size
    → drop k (contents (without_first q)) ≡ drop (suc k) (contents q)
drop-without_first q k some_left =
    ap (λ (l : List ℕ). drop k l) (window-without_first q 0 (q.size - 1) (omega arith))
    ∙ sym
        (ap (λ (l : List ℕ). drop (suc k) l) (window_cons q.proc q.size (q.size - 1) (omega arith)))

level_loop_lem :
    (named : ℕ → Bool) (rounds j : ℕ) (q : Queue) (killed : List ℕ)
    → j + rounds ≡ q.size
    → (contents (level_loop named rounds j q killed).0
        ≡ drop (length (only named (window q.proc j rounds))) (contents q))
      × ((level_loop named rounds j q killed).1 ≡ killed ++ only named (window q.proc j rounds))
level_loop_lem named zero j q killed e = unfold level_loop in (refl, sym (append-nil _))
level_loop_lem named (suc rounds) j q killed e = elim (Bool-cases (named (q.proc j))) [
  | inl hit ↦
      (let (kept, found) =
          level_loop_lem named rounds j (without_first q) (killed ++ q.proc j ∷ []) (omega arith) in
        rw (level_hit named rounds j q killed (omega arith) hit) (
          kept
              ∙ ap (λ (a : List ℕ). drop (length (only named a)) (contents (without_first q)))
                  (window-without_first q j rounds (omega arith))
              ∙ drop-without_first q _ (omega arith)
              ∙ rw hit refl,
          found
              ∙ ap (λ (b : List ℕ). (killed ++ q.proc j ∷ []) ++ only named b)
                  (window-without_first q j rounds (omega arith))
              ∙ append_assoc killed (q.proc j ∷ []) _
              ∙ rw hit refl,
        ))
  | inr miss ↦
      (let (kept, found) = level_loop_lem named rounds (j + 1) q killed (omega arith) in
        rw (level_miss named rounds j q killed (omega arith) miss)
          (kept ∙ rw miss refl, found ∙ rw miss refl))
]

-- The loop over a level adds the processes that are named, in their order, to those to kill, but
-- takes as many processes from the front of the level, whichever they are: it removes the right
-- ones only where these stand in front.
pub level_loop-contents :
    (named : ℕ → Bool) (q : Queue) (killed : List ℕ)
    → (contents (level_loop named q.size 0 q killed).0
        ≡ drop (length (only named (contents q))) (contents q))
      × ((level_loop named q.size 0 q killed).1 ≡ killed ++ only named (contents q))
level_loop-contents named q killed = level_loop_lem named q.size 0 q killed (omega arith)
