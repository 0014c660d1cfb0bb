-- ===== src/Sched/Waiting/Budget.antt =====
-- How many calls may pass before a level is served.
use mathlib.Core.Path.{subst}
use mathlib.Core.Logic.{◌≢◌}
use easter_egg.Common.{ℕ, zero, suc, ◌+◌, ◌-◌, ◌≤◌, ◌<◌, ◌≡◌, ◌⊎◌, refl, ap, ap₂, ◌∙◌, arith}
use easter_egg.Common.{ltb, leb, ◌&&◌, if◌then◌else◌, update}
use easter_egg.Common.{Option}
use easter_egg.Queue.{Queue, dequeue}
use easter_egg.Queue.Refine.{Dequeues, nothing, first_highest, dequeue-Dequeues}
use easter_egg.Sched.{Sched, serve}
use easter_egg.Sched.Call.{at_level, next_round}
use easter_egg.Sched.Call.{idle_state, cleared}

-- The slots that are left on the levels from `p` to `p + rounds - 1`.
unfoldable pub left : (ℕ → ℕ) → ℕ → ℕ → ℕ
left slot p zero = 0
left slot p (suc rounds) = (140 - p - slot p) + left slot (p + 1) rounds

left-update :
    (rounds p : ℕ) (slot : ℕ → ℕ) (k v : ℕ)
    → k < p
    → left (update slot k v) p rounds ≡ left slot p rounds
unfolding left
left-update zero p slot k v h = refl
left-update (suc rounds) p slot k v h =
    let here : update slot k v p ≡ slot p = ground arith in
    rw (here, left-update rounds (p + 1) slot k v (omega arith)) refl

-- A slot of level `p` is used.
left_used :
    (rounds p : ℕ) (slot : ℕ → ℕ)
    → slot p < 140 - p
    → left (update slot p (slot p + 1)) p (suc rounds) + 1 ≡ left slot p (suc rounds)
unfolding left
left_used rounds p slot h =
    let here : update slot p (slot p + 1) p ≡ slot p + 1 = ground arith in
    rw (here, left-update rounds (p + 1) slot p (slot p + 1) (omega arith)) (omega arith)

left_skip : (d p rounds : ℕ) (slot : ℕ → ℕ) → left slot (d + p) rounds ≤ left slot p (d + rounds)
unfolding left
left_skip zero p rounds slot =
    let same : left slot (zero + p) rounds ≡ left slot p (zero + rounds) =
      ap₂ (λ (a b : ℕ). left slot a b) (omega arith) (omega arith) in
    omega arith
left_skip (suc d) p rounds slot =
    let more = left_skip d (p + 1) rounds slot in
    let same : d + (p + 1) ≡ suc d + p = omega arith in
    let moved : left slot (suc d + p) rounds ≤ left slot (p + 1) (d + rounds) =
      subst (λ (x : ℕ). left slot x rounds ≤ left slot (p + 1) (d + rounds)) same more in
    let e : suc d + rounds ≡ suc (d + rounds) = omega arith in rw e (omega arith)

left_less : (rounds p : ℕ) (f g : ℕ → ℕ) → ((j : ℕ) → f j ≤ g j) → left g p rounds ≤ left f p rounds
unfolding left
left_less zero p f g h = omega arith
left_less (suc rounds) p f g h =
    let more = left_less rounds (p + 1) f g h in let here = h p in omega arith

triangle : ℕ → ℕ
triangle zero = 0
triangle (suc n) = suc n + triangle n

triangle_mono : (d n : ℕ) → triangle n ≤ triangle (d + n)
unfolding triangle
triangle_mono zero n =
    let same : triangle (zero + n) ≡ triangle n = ap triangle (omega arith) in omega arith
triangle_mono (suc d) n =
    let more = triangle_mono d n in
    let e : suc d + n ≡ suc (d + n) = omega arith in rw e (omega arith)

left_bound :
    (rounds p d : ℕ) (slot : ℕ → ℕ) → d + p ≡ 140 → rounds ≤ d → left slot p rounds ≤ triangle d
unfolding left triangle
left_bound zero p d slot e h = omega arith
left_bound (suc rounds) p zero slot e h = absurd (omega arith)
left_bound (suc rounds) p (suc d) slot e h =
    let more = left_bound rounds (p + 1) d slot (omega arith) (omega arith) in omega arith

-- How many calls may pass before level `q` is served: while it has a slot left in this round, those
-- that the levels before it take; otherwise the rest of the round, and what they take in the next.
unfoldable pub budget : Sched → ℕ → ℕ
budget s q =
    if ltb (s.slot q) (140 - q) && leb s.marked_prior q
    then left s.slot s.marked_prior (q - s.marked_prior)
    else left s.slot s.marked_prior (140 - s.marked_prior) + 1 + left (λ _. 0) 0 q

in_turn :
    (s : Sched) (q : ℕ)
    → s.slot q < 140 - q
    → s.marked_prior ≤ q
    → budget s q ≡ left s.slot s.marked_prior (q - s.marked_prior)
unfolding budget
in_turn s q a b = ground arith

out_of_turn :
    (s : Sched) (q : ℕ)
    → (140 - q ≤ s.slot q) ⊎ (q < s.marked_prior)
    → budget s q ≡ left s.slot s.marked_prior (140 - s.marked_prior) + 1 + left (λ _. 0) 0 q
unfolding budget
out_of_turn s q h = ground arith

-- The slots of the levels up to `e` after level `p` has been served, the first from `k` on.
served_less :
    (slot : ℕ → ℕ) (k p e : ℕ)
    → k ≤ p
    → p < e
    → slot p < 140 - p
    → left (update slot p (slot p + 1)) p (e - p) + 1 ≤ left slot k (e - k)
served_less slot k p e a b h =
    let used = left_used (e - p - 1) p slot h in
    let here : suc (e - p - 1) ≡ e - p = omega arith in
    let now : left (update slot p (slot p + 1)) p (e - p) + 1 ≡ left slot p (e - p) =
      subst (λ (r : ℕ). left (update slot p (slot p + 1)) p r + 1 ≡ left slot p r) here used in
    let skip = left_skip (p - k) k (e - p) slot in
    let at : left slot (p - k + k) (e - p) ≡ left slot p (e - p) =
      ap (λ (x : ℕ). left slot x (e - p)) (omega arith) in
    let whole : left slot k (p - k + (e - p)) ≡ left slot k (e - k) =
      ap (λ (x : ℕ). left slot k x) (omega arith) in
    omega arith

-- What serving level `p` leaves.
pub after_serve :
    (prio : ℕ → ℕ) (s : Sched) (p q : ℕ)
    → s.marked_prior ≡ p
    → (s.mlq_ready_queue p).size ≢ 0
    → (((serve prio s).1).mlq_ready_queue q).size ≡ (s.mlq_ready_queue q).size
    → (p ≢ q)
      × (((serve prio s).1).marked_prior ≡ p)
      × (((serve prio s).1).slot ≡ update s.slot p (s.slot p + 1))
unfolding serve
after_serve prio s p q m some_left same = (
  λ e.
      from (dequeue prio (s.mlq_ready_queue p)) (dequeue-Dequeues prio (s.mlq_ready_queue p)) refl
        e,
  m,
  ap (λ (k : ℕ). update s.slot k (s.slot k + 1)) m,
)
  where
    from :
        (r : Option ℕ × Queue)
        → Dequeues prio (s.mlq_ready_queue p) r
        → dequeue prio (s.mlq_ready_queue p) ≡ r
        → p ≡ q
        → ⊥
    from r (nothing e f) at is = some_left e
    from r (first_highest x e size t) at is =
        let here : (update s.mlq_ready_queue p (dequeue prio (s.mlq_ready_queue p)).1 q).size
            ≡ (s.mlq_ready_queue q).size =
          rw m at same in
        let took : ((dequeue prio (s.mlq_ready_queue q)).1).size ≡ (s.mlq_ready_queue q).size =
          ground (arith, here, is) in
        let now : (r.1).size + 1 ≡ (s.mlq_ready_queue q).size = rw is at size in
        let given : dequeue prio (s.mlq_ready_queue q) ≡ r = rw is at at in
        let gone : ((dequeue prio (s.mlq_ready_queue q)).1).size ≡ (r.1).size =
          ap (λ (x : Option ℕ × Queue). (x.1).size) given in
        omega arith

pub in_turn_less :
    (prio : ℕ → ℕ) (s : Sched) (p q : ℕ)
    → s.marked_prior ≤ p
    → p < q
    → q < 140
    → s.slot p < 140 - p
    → s.slot q < 140 - q
    → budget (serve prio (at_level s p)).1 q + 1 ≤ budget s q
unfolding serve
in_turn_less prio s p q from before small used free =
    let u : Sched = (serve prio (at_level s p)).1 in
    let kept : update s.slot p (s.slot p + 1) q < 140 - q = ground arith in
    let less = served_less s.slot s.marked_prior p q from before used in
    let new : budget u q ≡ left u.slot p (q - p) = in_turn u q kept (omega arith) in
    let old = in_turn s q free (omega arith) in omega arith

pub out_of_turn_less :
    (prio : ℕ → ℕ) (s : Sched) (p q : ℕ)
    → s.marked_prior ≤ p
    → p < 140
    → p ≢ q
    → s.slot p < 140 - p
    → (140 - q ≤ s.slot q) ⊎ ((q < s.marked_prior) × (q < p))
    → budget (serve prio (at_level s p)).1 q + 1 ≤ budget s q
unfolding serve
out_of_turn_less prio s p q from small ne used over =
    let u : Sched = (serve prio (at_level s p)).1 in
    let still : (140 - q ≤ update s.slot p (s.slot p + 1) q) ⊎ (q < p) = ground arith in
    let less = served_less s.slot s.marked_prior p 140 from small used in
    let new : budget u q ≡ left u.slot p (140 - p) + 1 + left (λ _. 0) 0 q =
      out_of_turn u q still in
    let old = out_of_turn s q (ground arith) in omega arith

-- The first call of a round, whatever it does, leaves level `q` in turn.
fresh_bound : (slot : ℕ → ℕ) (q : ℕ) → left (cleared slot) 0 (q - 0) ≤ left (λ _. 0) 0 q
fresh_bound slot q =
    let all = left_less q 0 (λ _. 0) (cleared slot) λ j. omega arith in
    let same : left (cleared slot) 0 (q - 0) ≡ left (cleared slot) 0 q =
      ap (λ (x : ℕ). left (cleared slot) 0 x) (omega arith) in
    omega arith

pub new_round_less :
    (prio : ℕ → ℕ) (s : Sched) (p q : ℕ)
    → p < q
    → q < 140
    → (140 - q ≤ s.slot q) ⊎ (q < s.marked_prior)
    → budget (serve prio (next_round s p)).1 q + 1 ≤ budget s q
unfolding serve
new_round_less prio s p q before small over =
    let u : Sched = (serve prio (next_round s p)).1 in
    let clear : cleared s.slot p ≡ 0 = ground arith in
    let kept : update (cleared s.slot) p (cleared s.slot p + 1) q < 140 - q = ground arith in
    let less = served_less (cleared s.slot) 0 p q (omega arith) before (omega arith) in
    let all = fresh_bound s.slot q in
    let new : budget u q ≡ left u.slot p (q - p) = in_turn u q kept (omega arith) in
    let old = out_of_turn s q over in omega arith

pub idle_less :
    (s : Sched) (q : ℕ)
    → q < 140
    → (140 - q ≤ s.slot q) ⊎ (q < s.marked_prior)
    → budget (idle_state s) q + 1 ≤ budget s q
idle_less s q small over =
    let all = fresh_bound s.slot q in
    let new : budget (idle_state s) q ≡ left (cleared s.slot) 0 (q - 0) =
      in_turn (idle_state s) q (ground arith) (omega arith) in
    let old = out_of_turn s q over in omega arith

whole_triangle : triangle 140 ≡ 9870
unfolding triangle
whole_triangle = refl

pub budget_bound : (s : Sched) (q : ℕ) → s.marked_prior < 140 → q < 140 → budget s q ≤ 19741
unfolding budget
budget_bound s q level small =
    let k = s.marked_prior in
    let one_round = left_bound (140 - k) k (140 - k) s.slot (omega arith) (omega arith) in
    let in_hand = left_bound (q - k) k (140 - k) s.slot (omega arith) (omega arith) in
    let next = left_bound q 0 140 (λ _. 0) (omega arith) (omega arith) in
    let more = triangle_mono k (140 - k) in
    let whole : triangle (k + (140 - k)) ≡ 9870 = ap triangle (omega arith) ∙ whole_triangle in
    ground arith
