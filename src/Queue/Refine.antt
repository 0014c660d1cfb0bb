-- ===== src/Queue/Refine.antt =====
-- A queue as the list of its first `size` pointers, and `enqueue` and `dequeue` of src/queue.c on it.
use mathlib.Core.Path.{subst}
use easter_egg.Common.{ℕ, zero, suc, ◌+◌, ◌-◌, ◌≤◌, ◌<◌, ◌≡◌, ap, ap₂, refl, sym, ◌∙◌, arith}
use easter_egg.Common.{List, [], ◌∷◌, ◌++◌, All, length, update, ltb, ◌==◌, if◌then◌else◌}
use easter_egg.Common.{Option, none, some, Bool-cases, inl, inr}
use easter_egg.Queue.{Queue, max_queue_size, enqueue, highest_loop, shift_loop, dequeue}
use easter_egg.Queue.Window.{window, length-window, window-append, window_ext, All-window}
use easter_egg.Queue.Window.{shifted, shift_loop_lem}

abbrev pub contents : Queue → List ℕ
contents q = window q.proc 0 q.size

-- Entry `index` is the first of the highest `prio` among the first `i` entries.
record IsHighest (prio proc : ℕ → ℕ) (size i : ℕ) (highest index : ℕ) : Type 0 where
  entry : highest ≡ proc index
  inside : index < size
  before : (j : ℕ) → j < index → prio (proc j) < prio highest
  after : (j : ℕ) → index ≤ j → j < i → prio (proc j) ≤ prio highest

IsHighest-step :
    {prio proc : ℕ → ℕ} {size i highest index : ℕ}
    → i < size
    → index ≤ i
    → IsHighest prio proc size i highest index
    → let better = ltb (prio highest) (prio (proc i)) in
      IsHighest prio proc size
        (i + 1)
        (if better then proc i else highest)
        (if better then i else index)
IsHighest-step {prio} {proc} {size} {i} {highest} {index} small le h =
    elim (Bool-cases (ltb (prio highest) (prio (proc i)))) [
      | inl e ↦ rw e (record {
        entry = refl;
        inside = small;
        before = λ j p. ground (arith, h.before j, h.after j);
        after = λ j p q. let same : j ≡ i = omega arith in rw same (omega arith);
      })
      | inr e ↦ rw e (record {
        entry = h.entry;
        inside = h.inside;
        before = h.before;
        after = λ j p q. ground (arith, h.after j);
      })
    ]

highest_loop-IsHighest :
    {prio proc : ℕ → ℕ} {size : ℕ} (rounds i highest index : ℕ)
    → i + rounds ≡ size
    → index ≤ i
    → IsHighest prio proc size i highest index
    → let (top, at) = highest_loop prio proc rounds i highest index in
      IsHighest prio proc size size top at
unfolding highest_loop
highest_loop-IsHighest {prio} {proc} {size} zero i highest index e le h =
    let done : i ≡ size = omega arith in rw done at h
highest_loop-IsHighest {prio} {proc} {size} (suc rounds) i highest index e le h =
    highest_loop-IsHighest rounds (i + 1) _ _ (omega arith) (ground arith)
      (IsHighest-step (omega arith) le h)

-- `q` had `p` as the first of its entries with the highest `prio`; `after` has the others, in
-- the same order.
pub record TakesHighest (prio : ℕ → ℕ) (q after : Queue) (p : ℕ) : Type 0 where
  pub front : List ℕ
  pub back : List ℕ
  pub was : contents q ≡ front ++ p ∷ back
  pub is : contents after ≡ front ++ back
  pub lower : All (λ x. prio x < prio p) front
  pub at_most : All (λ x. prio x ≤ prio p) back

without_entry :
    (f : ℕ → ℕ) (size index : ℕ)
    → index < size
    → window (shift_loop (size - 1 - index) index f) 0 (size - 1)
      ≡ window f 0 index ++ window f (index + 1) (size - 1 - index)
without_entry f size index h =
    let rest = size - 1 - index in
    let g = shifted rest index f in
    rw (shift_loop_lem rest index f) (
      window-append g 0 index rest (size - 1) index (omega arith) (omega arith)
      ∙ ap₂ ◌++◌ (window_ext g f 0 0 index λ j p. ground arith) (
          window_ext g f index (index + 1) rest
            λ j p. let e : index + 1 + j ≡ index + j + 1 = omega arith in rw e (ground arith)))

taken :
    (prio : ℕ → ℕ) (q : Queue) (highest index : ℕ)
    → IsHighest prio q.proc q.size q.size highest index
    → TakesHighest prio q
        (record q { proc = shift_loop (q.size - 1 - index) index q.proc; size = q.size - 1 })
        highest
taken prio q highest index h = record {
  front = window q.proc 0 index;
  back = window q.proc (index + 1) (q.size - 1 - index);
  was = rw h.entry (
      window-append q.proc 0 index (suc (q.size - 1 - index)) q.size index (omega arith)
        (omega arith));
  is = without_entry q.proc q.size index h.inside;
  lower = All-window (λ x. prio x < prio highest) q.proc 0 index λ j a b. h.before j (omega arith);
  at_most =
      All-window (λ x. prio x ≤ prio highest) q.proc (index + 1) (q.size - 1 - index)
        λ j a b. h.after j (omega arith) (omega arith);
}

-- What `dequeue` does: an empty queue gives no process and is left alone; otherwise it gives the
-- first process of the highest `prio`, and leaves the others in order, one fewer.
pub data Dequeues (prio : ℕ → ℕ) (q : Queue) (result : Option ℕ × Queue) : Type 0 where
  nothing : q.size ≡ 0 → result ≡ (none, q) → Dequeues prio q result
  first_highest :
      (p : ℕ)
      → result.0 ≡ some p
      → result.1.size + 1 ≡ q.size
      → TakesHighest prio q result.1 p
      → Dequeues prio q result

-- `dequeue` of an empty queue gives no process and leaves it alone; of any other queue it gives
-- the first process of the highest `prio`, and leaves exactly the others, in their order.
pub dequeue-Dequeues : (prio : ℕ → ℕ) (q : Queue) → Dequeues prio q (dequeue prio q)
unfolding dequeue
dequeue-Dequeues prio q = elim (Bool-cases (q.size == 0)) [
  | inl e ↦ rw e (nothing (ground arith) refl)
  | inr e ↦ rw e (
      first_highest _ refl (ground arith) (
        taken prio q _ _ (
          highest_loop-IsHighest q.size 0 (q.proc 0) 0 (omega arith) (omega arith) (record {
            entry = refl;
            inside = ground arith;
            before = λ j p. absurd (omega arith);
            after = λ j p k. absurd (omega arith);
          }))))
]

pub window-set_end :
    (f : ℕ → ℕ) (n p : ℕ) → window (update f n p) 0 (n + 1) ≡ window f 0 n ++ p ∷ []
window-set_end f n p =
    window-append (update f n p) 0 n 1 (n + 1) n (omega arith) (omega arith)
    ∙ ap₂ ◌++◌ (window_ext (update f n p) f 0 0 n λ j h. ground arith) (ground arith)

-- `enqueue` appends the process while the queue holds fewer than ten; a full queue drops it
-- without a sign. It keeps the bound of ten.
enqueue_lem :
    (q : Queue) (p : ℕ)
    → q.size ≤ max_queue_size
    → (contents (enqueue q p)
        ≡ (if length (contents q) == 10 then contents q else contents q ++ p ∷ []))
      × ((enqueue q p).size ≤ max_queue_size)
unfolding enqueue
enqueue_lem q p h = ground (arith, length-window q.proc 0 q.size, window-set_end q.proc q.size p)

no_lower :
    (prio : ℕ → ℕ) (c p : ℕ) (front back : List ℕ)
    → All (λ x. prio x ≡ c) (front ++ p ∷ back)
    → All (λ x. prio x < prio p) front
    → front ≡ []
no_lower prio c p [] back same lower = refl
no_lower prio c p (x ∷ front) back same lower =
    let e : prio p ≡ c = All-middle front same.1 in absurd (omega (arith, same.0, lower.0))
  where
    All-middle : (l : List ℕ) → All (λ x. prio x ≡ c) (l ++ p ∷ back) → prio p ≡ c
    All-middle [] h = h.0
    All-middle (y ∷ l) h = All-middle l h.1

fifo_of_cases :
    (prio : ℕ → ℕ) (c : ℕ) (q : Queue) (result : Option ℕ × Queue)
    → All (λ x. prio x ≡ c) (contents q)
    → Dequeues prio q result
    → 0 < q.size
    → (p : ℕ) × (result.0 ≡ some p) × (contents q ≡ p ∷ contents result.1)
fifo_of_cases prio c q result same (nothing e f) pos = absurd (omega arith)
fifo_of_cases prio c q result same (first_highest p e size t) pos =
    let none_before : t.front ≡ [] =
      no_lower prio c p t.front t.back (subst (λ l. All (λ x. prio x ≡ c) l) t.was same) t.lower in
    (p, e, t.was ∙ ap (λ l. l ++ p ∷ t.back) none_before ∙ ap (λ l. p ∷ l) (sym (rest none_before)))
  where
    rest : t.front ≡ [] → contents result.1 ≡ t.back
    rest e = t.is ∙ ap (λ l. l ++ t.back) e

-- In a queue whose processes all have the same `prio`, as each level of the scheduler has,
-- `dequeue` gives the oldest process and leaves the rest.
pub dequeue_fifo :
    (prio : ℕ → ℕ) (c : ℕ) (q : Queue)
    → All (λ x. prio x ≡ c) (contents q)
    → 0 < q.size
    → (p : ℕ) × ((dequeue prio q).0 ≡ some p) × (contents q ≡ p ∷ contents (dequeue prio q).1)
dequeue_fifo prio c q same pos =
    fifo_of_cases prio c q (dequeue prio q) same (dequeue-Dequeues prio q) pos
