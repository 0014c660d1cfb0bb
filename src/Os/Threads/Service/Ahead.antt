-- ===== src/Os/Threads/Service/Ahead.antt =====
-- The wait of one process on a level: what one call or one step makes of it.
use mathlib.Core.Path.{subst}
use easter_egg.Common.{ℕ, suc, ◌+◌, ◌*◌, ◌≤◌, ◌<◌, ◌≡◌, ◌≢◌, inl, inr, refl, sym, ap, ◌∙◌}
use easter_egg.Common.{arith, Option, some, List, [], ◌∷◌, ◌++◌, length, All, Distinct, update}
use easter_egg.Common.{Bool-cases, ◌==◌, ==_iff}
use easter_egg.Queue.{Queue, enqueue}
use easter_egg.Queue.Refine.{contents, TakesHighest}
use easter_egg.Sched.{Sched, get_mlq_proc}
use easter_egg.Sched.Call.{IsValid}
use easter_egg.Sched.Progress.{get_mlq_proc-IsValid}
use easter_egg.Sched.Waiting.{call_less}
use easter_egg.Sched.Waiting.Budget.{budget, budget_bound}
use easter_egg.Os.Threads.{}
use easter_egg.Os.Threads.Placement.{Gets, got_none, got, get_mlq_proc-Gets}
use easter_egg.Os.Threads.Presence.{Has}
use mathlib.Core.List.{append_assoc}
use easter_egg.Os.Threads.Placement.{enqueue_cases}

Has-not : (x : ℕ) (l : List ℕ) → All (λ y. x ≢ y) l → Has x l → ⊥
Has-not x [] a h = h
Has-not x (y ∷ l) a (inl e) = a.0 e
Has-not x (y ∷ l) a (inr h) = Has-not x l a.1 h

-- The first of the entries with the highest priority, where all have the same, is the first.
no_lower :
    (prio : ℕ → ℕ) (q p : ℕ) (front back : List ℕ)
    → All (λ x. prio x ≡ q) (front ++ p ∷ back)
    → All (λ x. prio x < prio p) front
    → front ≡ []
no_lower prio q p [] back a l = refl
no_lower prio q p (y ∷ front) back a l =
    let same = at_end front a.1 in absurd (omega (arith, a.0, l.0, same))
  where
    at_end : (front : List ℕ) → All (λ x. prio x ≡ q) (front ++ p ∷ back) → prio p ≡ q
    at_end [] b = b.0
    at_end (z ∷ rest) b = at_end rest b.1

-- The first entry is taken, and it is not `x`, which is behind it.
one_nearer :
    (x p : ℕ) (front back rest : List ℕ)
    → front ++ x ∷ back ≡ p ∷ rest
    → Distinct (p ∷ rest)
    → Has x rest
    → (ahead : List ℕ) × (front ≡ p ∷ ahead) × (rest ≡ ahead ++ x ∷ back)
one_nearer x p [] back rest e d h =
    let same : x ≡ p = cc in absurd (Has-not p rest d.0 (rw same at h))
one_nearer x p (y ∷ ahead) back rest e d h = (ahead, ap (λ (z : ℕ). z ∷ ahead) (first e), behind e)
  where
    first : y ∷ (ahead ++ x ∷ back) ≡ p ∷ rest → y ≡ p
    first f = cc

    behind : y ∷ (ahead ++ x ∷ back) ≡ p ∷ rest → rest ≡ ahead ++ x ∷ back
    behind f = cc

pub Has-split :
    (x : ℕ) (l : List ℕ)
    → Has x l
    → (front : List ℕ) × (back : List ℕ) × (l ≡ front ++ x ∷ back) × (length front < length l)
Has-split x [] h = elim h [ ]
Has-split x (y ∷ l) (inl e) = ([], l, ap (λ (z : ℕ). z ∷ l) (sym e), omega arith)
Has-split x (y ∷ l) (inr h) =
    let (front, back, e, less) = Has-split x l h in
    (y ∷ front, back, ap (λ (k : List ℕ). y ∷ k) e, omega arith)

nonempty : (l : Queue) (x : ℕ) → Has x (contents l) → l.size ≢ 0
nonempty l x h z = let bad : Has x [] = rw z at h in bad

-- What is left of the wait of `x`: the entries before it, and the calls that level `q` waits.
abbrev pub Left : Sched → ℕ → ℕ → ℕ → Type 0
Left s q x most =
    (front : List ℕ) × (back : List ℕ) × (contents (s.mlq_ready_queue q) ≡ front ++ x ∷ back)
    × (length front * 19742 + budget s q ≤ most)

abbrev pub Shorter : Sched → Sched → ℕ → ℕ → ℕ → Type 0
Shorter s after q x ahead =
    (most : ℕ) × Left after q x most × (most + 1 ≤ ahead * 19742 + budget s q)

-- Level `q` itself is served.
served_shortens :
    (prio : ℕ → ℕ) (s after : Sched) (q p x : ℕ) (front back : List ℕ)
    → q < 140
    → IsValid after
    → TakesHighest prio (s.mlq_ready_queue q) (after.mlq_ready_queue q) p
    → All (λ y. prio y ≡ q) (contents (s.mlq_ready_queue q))
    → Distinct (contents (s.mlq_ready_queue q))
    → contents (s.mlq_ready_queue q) ≡ front ++ x ∷ back
    → Has x (contents (after.mlq_ready_queue q))
    → Shorter s after q x (length front)
served_shortens prio s after q p x front back small valid t level once at still =
    let none_before : t.front ≡ [] =
      no_lower prio q p t.front t.back (subst (All (λ y. prio y ≡ q)) t.was level) t.lower in
    let was : contents (s.mlq_ready_queue q) ≡ p ∷ t.back =
      t.was ∙ ap (λ (l : List ℕ). l ++ p ∷ t.back) none_before in
    let is : contents (after.mlq_ready_queue q) ≡ t.back =
      t.is ∙ ap (λ (l : List ℕ). l ++ t.back) none_before in
    let (ahead, one_more, there) =
      one_nearer x p front back t.back (sym at ∙ was) (subst Distinct was once)
        (subst (Has x) is still) in
    let longer : length front ≡ suc (length ahead) = ap (λ (l : List ℕ). length l) one_more in
    let most = budget_bound after q valid.level small in
    (length ahead * 19742 + budget after q, (ahead, back, is ∙ there, omega arith), omega arith)

-- A call of `get_mlq_proc` that leaves `x` on its level shortens its wait.
pub gets_shortens :
    (prio : ℕ → ℕ) (s after : Sched) (proc : Option ℕ) (q x : ℕ) (front back : List ℕ)
    → IsValid s
    → q < 140
    → All (λ y. prio y ≡ q) (contents (s.mlq_ready_queue q))
    → Distinct (contents (s.mlq_ready_queue q))
    → contents (s.mlq_ready_queue q) ≡ front ++ x ∷ back
    → Has x (contents (s.mlq_ready_queue q))
    → get_mlq_proc prio s ≡ some (proc, after)
    → Has x (contents (after.mlq_ready_queue q))
    → Shorter s after q x (length front)
gets_shortens prio s after proc q x front back v small level once at before e still =
    from proc after.mlq_ready_queue (get_mlq_proc-Gets prio s after proc v e) refl
  where
    unserved : after.mlq_ready_queue q ≡ s.mlq_ready_queue q → Shorter s after q x (length front)
    unserved same =
        let less =
          call_less prio s after proc q v small (nonempty (s.mlq_ready_queue q) x before) e
            (ap (λ (l : Queue). l.size) same) in
        (
          length front * 19742 + budget after q,
          (front, back, ap contents same ∙ at, omega arith),
          omega arith,
        )

    from :
        (r : Option ℕ) (mlq : ℕ → Queue)
        → Gets prio s.mlq_ready_queue r mlq
        → mlq ≡ after.mlq_ready_queue
        → Shorter s after q x (length front)
    from r mlq got_none same = unserved (ap (λ (f : ℕ → Queue). f q) (sym same))
    from r mlq (got k p rest low t) same = elim (Bool-cases (k == q)) [
      | inr other ↦ unserved (ap (λ (f : ℕ → Queue). f q) (sym same) ∙ rw other refl)
      | inl it ↦
          (let level_is : k ≡ q = (==_iff k q).0 it in
            let taken : rest ≡ after.mlq_ready_queue q =
              rw it at (ap (λ (f : ℕ → Queue). f q) same) in
            let t1 : TakesHighest prio (s.mlq_ready_queue q) rest p =
              subst (λ (j : ℕ). TakesHighest prio (s.mlq_ready_queue j) rest p) level_is t in
            served_shortens prio s after q p x front back small
              (get_mlq_proc-IsValid prio s after proc v e)
              (subst (λ (l : Queue). TakesHighest prio (s.mlq_ready_queue q) l p) taken t1) level
              once at still)
    ]

pub joined_Left :
    (s after : Sched) (k p q x most : ℕ)
    → after.mlq_ready_queue ≡ update s.mlq_ready_queue k (enqueue (s.mlq_ready_queue k) p)
    → budget after q ≡ budget s q
    → Left s q x most
    → Left after q x most
joined_Left s after k p q x most levels same (front, back, at, bound) =
    let now : after.mlq_ready_queue q
        ≡ update s.mlq_ready_queue k (enqueue (s.mlq_ready_queue k) p) q =
      ap (λ (f : ℕ → Queue). f q) levels in
    elim (Bool-cases (k == q)) [
      | inr other ↦ (front, back, ap contents (now ∙ rw other refl) ∙ at, omega arith)
      | inl it ↦
          (let level_is : k ≡ q = (==_iff k q).0 it in
            let joins : after.mlq_ready_queue q ≡ enqueue (s.mlq_ready_queue q) p =
              now ∙ rw it (ap (λ (j : ℕ). enqueue (s.mlq_ready_queue j) p) level_is) in
            elim (enqueue_cases (s.mlq_ready_queue q) p) [
              | inl full ↦ (front, back, ap contents joins ∙ full ∙ at, omega arith)
              | inr room ↦ (
                front,
                back ++ p ∷ [],
                ap contents joins
                    ∙ room
                    ∙ ap (λ (l : List ℕ). l ++ p ∷ []) at
                    ∙ append_assoc front (x ∷ back) (p ∷ []),
                omega arith,
              )
            ])
    ]

pub same_Left : (s after : Sched) (q x most : ℕ) → after ≡ s → Left s q x most → Left after q x most
same_Left s after q x most same l = subst (λ (t : Sched). Left t q x most) (sym same) l

pub still_there :
    (s : Sched) (q x most : ℕ) → Left s q x most → Has x (contents (s.mlq_ready_queue q))
still_there s q x most (front, back, at, bound) = subst (Has x) (sym at) (middle front)
  where
    middle : (front : List ℕ) → Has x (front ++ x ∷ back)
    middle [] = inl refl
    middle (y ∷ rest) = inr (middle rest)
