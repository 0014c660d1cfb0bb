-- ===== src/Os/Threads/Presence.antt =====
-- How a process comes to be lost: which steps of the threads take a process from the levels and from
-- the CPUs.
use mathlib.Core.Path.{subst}
use easter_egg.Common.{ℕ, ◌+◌, ◌<◌, ◌≡◌, ◌≢◌, ◌⊎◌, inl, inr, refl, sym, ap, ◌∙◌, arith}
use easter_egg.Common.{Option, none, some, List, [], ◌∷◌, ◌++◌, ltb, update, ◌==◌}
use easter_egg.Common.{Bool-cases, ==_iff}
use easter_egg.Queue.{Queue, enqueue}
use easter_egg.Queue.Refine.{contents, window-set_end}
use easter_egg.Sched.{
  Sched, get_proc, put_proc, add_proc, put_mlq_proc, add_mlq_proc, enlist_running, max_prio,
}
use easter_egg.Vm.{Malloc}
use easter_egg.Process.{Machine, code_size}
use easter_egg.Cpu.Kills.{run-sched}
use easter_egg.Os.Threads.Calls.{NoKillall, StepSpares}
use easter_egg.Os.{Loaded, load_process, prio_of, put_sched}
use easter_egg.Os.Threads.{World, Step, gets, finishes, puts, runs, loads, begin, Run}
use easter_egg.Os.Threads.Placement.{Gets, got_none, got, get_mlq_proc-Gets}
use easter_egg.Os.Threads.Safety.{Run-IsValid, put_proc-levels, load_process-levels}

abbrev pub Has : ℕ → List ℕ → Type 0
Has x [] = ⊥
Has x (y ∷ l) = (x ≡ y) ⊎ Has x l

Has-left : (x : ℕ) (l m : List ℕ) → Has x l → Has x (l ++ m)
Has-left x [] m h = elim h [ ]
Has-left x (y ∷ l) m (inl e) = inl e
Has-left x (y ∷ l) m (inr h) = inr (Has-left x l m h)

Has-end : (x : ℕ) (l : List ℕ) → Has x (l ++ x ∷ [])
Has-end x [] = inl refl
Has-end x (y ∷ l) = inr (Has-end x l)

Has-without :
    (x p : ℕ) (front back : List ℕ) → Has x (front ++ p ∷ back) → (x ≡ p) ⊎ Has x (front ++ back)
Has-without x p [] back (inl e) = inl e
Has-without x p [] back (inr h) = inr h
Has-without x p (y ∷ front) back (inl e) = inr (inl e)
Has-without x p (y ∷ front) back (inr h) = elim (Has-without x p front back h) [
  | inl e ↦ inl e
  | inr k ↦ inr (inr k)
]

-- A process waits on a level, or a CPU holds it.
abbrev pub OnLevel : (ℕ → Queue) → ℕ → Type 0
OnLevel mlq x = (q : ℕ) × (q < 140) × Has x (contents (mlq q))

abbrev pub Present : World → ℕ → Type 0
Present w x = OnLevel w.machine.sched.mlq_ready_queue x ⊎ ((i : ℕ) × (w.held i ≡ some x))

-- How a step that is no call of `killall` ends the presence of process `x`: the CPU finds its process
-- behind the last instruction, or puts it back on a level that holds ten, or the loader adds it to a
-- level that holds ten.
abbrev pub Vanishes :
    {malloc : Malloc} {loaded : Loaded} {w v : World} → Step malloc loaded w v → ℕ → Type 0
Vanishes (gets i proc s free e) x = ⊥
Vanishes {w = w} (finishes i p has over) x =
    (x ≡ p) × ((w.machine.pcb p).pc ≡ code_size w.machine p)
Vanishes {w = w} (puts i p s has e) x =
    (x ≡ p) × ((w.machine.sched.mlq_ready_queue (w.machine.pcb p).prio).size ≡ 10)
Vanishes (runs i p stat after has e) x = ⊥
Vanishes {loaded = loaded} {w} (loads after e) x =
    (x ≡ w.count) × ((w.machine.sched.mlq_ready_queue (loaded w.count).prio).size ≡ 10)

enqueue_keeps : (q : Queue) (p x : ℕ) → Has x (contents q) → Has x (contents (enqueue q p))
unfolding enqueue
enqueue_keeps q p x h = elim (Bool-cases (q.size == 10)) [
  | inl full ↦ rw full h
  | inr room ↦ rw (room, window-set_end q.proc q.size p) (Has-left x (contents q) (p ∷ []) h)
]

enqueue_takes : (q : Queue) (p : ℕ) → (q.size ≡ 10) ⊎ Has p (contents (enqueue q p))
unfolding enqueue
enqueue_takes q p = elim (Bool-cases (q.size == 10)) [
  | inl full ↦ inl ((==_iff q.size 10).0 full)
  | inr room ↦ inr (rw (room, window-set_end q.proc q.size p) (Has-end p (contents q)))
]

-- The levels after a process has joined level `k`.
joined_keeps :
    (mlq : ℕ → Queue) (k p x : ℕ) → OnLevel mlq x → OnLevel (update mlq k (enqueue (mlq k) p)) x
joined_keeps mlq k p x (q, small, h) = elim (Bool-cases (k == q)) [
  | inl same ↦
      (let e : k ≡ q = (==_iff k q).0 same in
        (q, small, rw same (enqueue_keeps (mlq k) p x (rw e h))))
  | inr other ↦ (q, small, rw other h)
]

-- A process that one CPU has, when CPU `i` lets go of `p`.
released_keeps :
    (held : ℕ → Option ℕ) (i p j x : ℕ)
    → held i ≡ some p
    → held j ≡ some x
    → (x ≡ p) ⊎ (update held i none j ≡ some x)
released_keeps held i p j x has h = elim (Bool-cases (i == j)) [
  | inl same ↦ (let e : i ≡ j = (==_iff i j).0 same in inl (cc))
  | inr other ↦ inr (rw other h)
]

taken_keeps :
    (prio : ℕ → ℕ) (mlq after : ℕ → Queue) (held : ℕ → Option ℕ) (proc : Option ℕ) (i x : ℕ)
    → held i ≡ none
    → Gets prio mlq proc after
    → OnLevel mlq x ⊎ ((j : ℕ) × (held j ≡ some x))
    → OnLevel after x ⊎ ((j : ℕ) × (update held i proc j ≡ some x))
taken_keeps prio mlq after held proc i x free g (inr (j, h)) = inr (
  j,
  elim (Bool-cases (i == j)) [
    | inl same ↦ (let e : i ≡ j = (==_iff i j).0 same in let bad : none ≡ some x = cc in cc)
    | inr other ↦ rw other h
  ],
)
taken_keeps prio mlq after held proc i x free got_none (inl at) = inl at
taken_keeps prio mlq after held proc i x free (got q p rest small t) (inl (k, low, h)) =
    elim (Bool-cases (q == k)) [
      | inr other ↦ inl (k, low, rw other h)
      | inl same ↦
          (let e : q ≡ k = (==_iff q k).0 same in
            let was : Has x (t.front ++ p ∷ t.back) = subst (Has x) t.was (rw e h) in
            elim (Has-without x p t.front t.back was) [
              | inl it ↦ inr (i, ground arith)
              | inr more ↦ inl (k, low, rw same (subst (Has x) (sym t.is) more))
            ])
    ]

put_proc_bound :
    (prio : ℕ → ℕ) (s after : Sched) (p : ℕ) → put_proc prio s p ≡ some after → prio p < 140
unfolding put_proc put_mlq_proc enlist_running
put_proc_bound prio s after p e = elim (Bool-cases (ltb (prio p) max_prio)) [
  | inl small ↦ ground arith
  | inr large ↦ (let bad : none ≡ some after = rw large at e in cc)
]

pub put_proc-Has :
    (prio : ℕ → ℕ) (s after : Sched) (p : ℕ)
    → (s.mlq_ready_queue (prio p)).size ≢ 10
    → put_proc prio s p ≡ some after
    → Has p (contents (after.mlq_ready_queue (prio p)))
put_proc-Has prio s after p room e =
    let at : after.mlq_ready_queue (prio p) ≡ enqueue (s.mlq_ready_queue (prio p)) p =
      ap (λ (f : ℕ → Queue). f (prio p)) (put_proc-levels prio s after p e) ∙ ground arith in
    elim (enqueue_takes (s.mlq_ready_queue (prio p)) p) [
      | inl full ↦ absurd (room full)
      | inr joins ↦ rw at joins
    ]

puts_keeps :
    (w : World) (s : Sched) (i p x : ℕ)
    → w.held i ≡ some p
    → put_proc (prio_of w.machine) w.machine.sched p ≡ some s
    → Present w x
    → Present (record w { machine = put_sched w.machine s; held = update w.held i none }) x
      ⊎ ((x ≡ p) × ((w.machine.sched.mlq_ready_queue (w.machine.pcb p).prio).size ≡ 10))
puts_keeps w s i p x has e (inl at) = inl (
    inl (
      subst (λ (mlq : ℕ → Queue). OnLevel mlq x)
        (sym (put_proc-levels (prio_of w.machine) w.machine.sched s p e))
        (joined_keeps w.machine.sched.mlq_ready_queue (prio_of w.machine p) p x at)))
puts_keeps w s i p x has e (inr (j, h)) = elim (released_keeps w.held i p j x has h) [
  | inr still ↦ inl (inr (j, still))
  | inl it ↦ elim (enqueue_takes (w.machine.sched.mlq_ready_queue (prio_of w.machine p)) p) [
    | inl full ↦ inr (it, full)
    | inr joins ↦ inl (
        inl (
          prio_of w.machine p,
          put_proc_bound (prio_of w.machine) w.machine.sched s p e,
          subst (λ (mlq : ℕ → Queue). Has x (contents (mlq (prio_of w.machine p))))
              (sym (put_proc-levels (prio_of w.machine) w.machine.sched s p e))
              (rw it (ground (arith, joins))),
        ))
  ]
]

stays_unless :
    (malloc : Malloc) (loaded : Loaded) (m : Machine) {w v : World}
    → Run malloc loaded (begin m) w
    → (st : Step malloc loaded w v) → StepSpares st
    → (x : ℕ) → Present w x
    → Present v x ⊎ Vanishes st x
unfolding get_proc
stays_unless malloc loaded m {w} r (gets i proc s free e) spares x at = inl (
    taken_keeps (prio_of w.machine) w.machine.sched.mlq_ready_queue s.mlq_ready_queue w.held proc i
      x free (get_mlq_proc-Gets (prio_of w.machine) w.machine.sched s proc (Run-IsValid m r) e) at)
stays_unless malloc loaded m {w} r (finishes i p has over) spares x (inl at) = inl (inl at)
stays_unless malloc loaded m {w} r (finishes i p has over) spares x (inr (j, h)) =
    elim (released_keeps w.held i p j x has h) [
      | inr still ↦ inl (inr (j, still))
      | inl it ↦ inr (it, (==_iff _ _).0 over)
    ]
stays_unless malloc loaded m {w} r (puts i p s has e) spares x at = puts_keeps w s i p x has e at
stays_unless malloc loaded m {w} r (runs i p stat after has e) spares x at =
    elim (run-sched malloc w.machine after p stat e) [
      | inr kills ↦ absurd (spares kills)
      | inl same ↦ inl (elim at [
        | inl waits ↦ inl (subst (λ (s : Sched). OnLevel s.mlq_ready_queue x) (sym same) waits)
        | inr holds ↦ inr holds
      ])
    ]
stays_unless malloc loaded m {w} r (loads after e) spares x (inl at) = inl (
    inl (
      subst (λ (mlq : ℕ → Queue). OnLevel mlq x)
        (sym (load_process-levels malloc loaded w.machine after w.count e))
        (joined_keeps w.machine.sched.mlq_ready_queue (loaded w.count).prio w.count x at)))
stays_unless malloc loaded m {w} r (loads after e) spares x (inr holds) = inl (inr holds)

load_process_bound :
    (malloc : Malloc) (loaded : Loaded) (m after : Machine) (n : ℕ)
    → load_process malloc loaded m n ≡ some after
    → (loaded n).prio < 140
unfolding load_process add_proc add_mlq_proc enlist_running
load_process_bound malloc loaded m after n e = elim (Bool-cases (ltb (loaded n).prio max_prio)) [
  | inl small ↦ ground arith
  | inr large ↦ (let bad : none ≡ some after = ground (arith, e) in cc)
]

new_kept :
    (malloc : Malloc) (loaded : Loaded) {w v : World} (st : Step malloc loaded w v)
    → v.count ≡ w.count + 1
    → Present v w.count ⊎ Vanishes st w.count
new_kept malloc loaded (gets i proc s free e) more = absurd (omega (arith, more))
new_kept malloc loaded (finishes i p has over) more = absurd (omega (arith, more))
new_kept malloc loaded (puts i p s has e) more = absurd (omega (arith, more))
new_kept malloc loaded (runs i p stat after has e) more = absurd (omega (arith, more))
new_kept malloc loaded {w} (loads after e) more =
    let k = (loaded w.count).prio in
    elim (enqueue_takes (w.machine.sched.mlq_ready_queue k) w.count) [
      | inl full ↦ inr (refl, full)
      | inr joins ↦ inl (
          inl (
            k,
            load_process_bound malloc loaded w.machine after w.count e,
            subst (λ (mlq : ℕ → Queue). Has w.count (contents (mlq k)))
                (sym (load_process-levels malloc loaded w.machine after w.count e))
                (ground (arith, joins)),
          ))
    ]

-- In every world that the threads reach from the start without a call of `killall`, when a step that is
-- none either is made: every process that waited on a level or was held by a CPU does so after the
-- step, and one that the step has loaded too, but for these: the step is that of a CPU that finds this
-- process, which it holds, behind its last instruction; or of a CPU that puts this process back, on a
-- level that holds ten; or of the loader that loads this process, to a level that holds ten.
pub never_lost :
    (malloc : Malloc) (loaded : Loaded) (m : Machine) {w v : World}
    (r : Run malloc loaded (begin m) w)
    → NoKillall r
    → (st : Step malloc loaded w v) → StepSpares st
    → (x : ℕ) → Present w x ⊎ ((x ≡ w.count) × (v.count ≡ w.count + 1))
    → Present v x ⊎ Vanishes st x
never_lost malloc loaded m r quiet st spares x (inl at) =
    stays_unless malloc loaded m r st spares x at
never_lost malloc loaded m {w} {v} r quiet st spares x (inr (new, more)) =
    subst (λ (y : ℕ). Present v y ⊎ Vanishes st y) (sym new) (new_kept malloc loaded st more)
