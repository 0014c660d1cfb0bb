-- ===== src/Os/Threads/Accounts.antt =====
-- Where each loaded process is, about sequences of the steps of Os/Threads.
use easter_egg.Common.{ℕ, zero, suc, ◌+◌, ◌<◌, ◌≡◌, ◌≢◌, ◌⊎◌, inl, inr, refl, sym, ap, ◌∙◌, arith}
use easter_egg.Common.{
  ltb, none, some, List, [], ◌∷◌, get_elem?, length, update, ◌==◌, Bool-cases, ==_iff,
}
use easter_egg.Vm.{Malloc}
use easter_egg.Process.{Machine, Pcb, Inst, code_size}
use easter_egg.Cpu.Kills.{Kills, Advances, at_end, executed_one, run-Advances}
use easter_egg.Os.{Loaded}
use easter_egg.Os.Threads.{
  World, Step, gets, finishes, puts, runs, loads, begin, Run, here, then_step,
}
use easter_egg.Os.Threads.Presence.{Present, Vanishes, never_lost}
use easter_egg.Os.Threads.Safety.{load_process-pcb}
use easter_egg.Os.Threads.Calls.{NoKillall, StepSpares}

-- No level holds ten, and no process on a CPU is about to call `killall`.
pub record IsCalm (w : World) : Type 0 where
  pub room : (q : ℕ) → (w.machine.sched.mlq_ready_queue q).size ≢ 10
  pub no_killall : (i p : ℕ) → w.held i ≡ some p → Kills w.machine p → ⊥

-- So it is in every world that is passed.
abbrev pub AllCalm :
    {malloc : Malloc} {loaded : Loaded} {w v : World} → Run malloc loaded w v → Type 0
AllCalm {v = v} here = IsCalm v
AllCalm {v = v} (then_step r st) = AllCalm r × IsCalm v

last-IsCalm :
    {malloc : Malloc} {loaded : Loaded} {w v : World} (r : Run malloc loaded w v)
    → AllCalm r
    → IsCalm v
last-IsCalm here c = c
last-IsCalm (then_step r st) c = c.1

abbrev pub AtEnd : Machine → ℕ → Type 0
AtEnd m p = (m.pcb p).pc ≡ code_size m p

none_behind : (l : List Inst) (n : ℕ) → n ≡ length l → get_elem? l n ≡ none
none_behind [] n e = refl
none_behind (x ∷ l) zero e = absurd (omega (arith, e))
none_behind (x ∷ l) (suc n) e = none_behind l n (omega (arith, e))

same-AtEnd :
    (m after : Machine) (p : ℕ)
    → (after.pcb p).pc ≡ (m.pcb p).pc
    → (after.pcb p).code ≡ (m.pcb p).code
    → AtEnd m p
    → AtEnd after p
same-AtEnd m after p pc code e = pc ∙ e ∙ sym (ap (λ (l : List Inst). length l) code)

run-AtEnd : (m after : Machine) (p q : ℕ) → Advances m after q → AtEnd m p → AtEnd after p
run-AtEnd m after p q (at_end none_left pc code) e = same-AtEnd m after p (pc p) (code p) e
run-AtEnd m after p q (executed_one ins found pc others code) e = elim (Bool-cases (q == p)) [
  | inr other ↦ same-AtEnd m after p (others p (λ z. ground arith)) (code p) e
  | inl it ↦
      (let same : q ≡ p = (==_iff q p).0 it in
        let ended = none_behind (m.pcb p).code (m.pcb p).pc e in
        let bad : get_elem? (m.pcb p).code (m.pcb p).pc ≡ some ins = rw same at found in cc)
]

Step-AtEnd :
    {malloc : Malloc} {loaded : Loaded} {w v : World} (p : ℕ)
    → IsCalm w
    → Step malloc loaded w v
    → p < w.count
    → AtEnd w.machine p
    → AtEnd v.machine p
Step-AtEnd p calm (gets i proc s free e) k h = h
Step-AtEnd p calm (finishes i q has over) k h = h
Step-AtEnd p calm (puts i q s has e) k h = h
Step-AtEnd {malloc} {w = w} p calm (runs i q stat after has e) k h =
    run-AtEnd w.machine after p q
      (run-Advances malloc w.machine after q stat (calm.no_killall i q has) e) h
Step-AtEnd {malloc} {loaded} {w} p calm (loads after e) k h =
    let pcb = load_process-pcb malloc loaded w.machine after w.count e in
    let kept : after.pcb p ≡ w.machine.pcb p =
      ap (λ (f : ℕ → Pcb). f p) pcb ∙ untouched w.machine.pcb w.count p _ k in
    same-AtEnd w.machine after p (ap (λ (x : Pcb). x.pc) kept) (ap (λ (x : Pcb). x.code) kept) h
  where
    untouched : (f : ℕ → Pcb) (n q : ℕ) (new : Pcb) → q < n → update f n new q ≡ f q
    untouched f n q new less = ground arith

calm-StepSpares :
    {malloc : Malloc} {loaded : Loaded} {w v : World} (st : Step malloc loaded w v)
    → IsCalm w
    → StepSpares st
calm-StepSpares (gets i proc s free e) calm = tt
calm-StepSpares (finishes i q has over) calm = tt
calm-StepSpares (puts i q s has e) calm = tt
calm-StepSpares (runs i q stat after has e) calm = calm.no_killall i q has
calm-StepSpares (loads after e) calm = tt

calm-NoKillall :
    {malloc : Malloc} {loaded : Loaded} {w v : World} (r : Run malloc loaded w v)
    → AllCalm r
    → NoKillall r
calm-NoKillall here calm = tt
calm-NoKillall (then_step r st) calm =
    (calm-NoKillall r calm.0, calm-StepSpares st (last-IsCalm r calm.0))

-- A calm step that ends the presence of a process finds it at its end.
Vanishes-AtEnd :
    {malloc : Malloc} {loaded : Loaded} {w v : World} (x : ℕ)
    → IsCalm w
    → (st : Step malloc loaded w v) → Vanishes st x
    → AtEnd v.machine x
Vanishes-AtEnd x calm (gets i proc s free e) lost = elim lost [ ]
Vanishes-AtEnd x calm (finishes i q has over) (it, at) = rw it at
Vanishes-AtEnd x calm (puts i q s has e) (it, full) = absurd (calm.room _ full)
Vanishes-AtEnd x calm (runs i q stat after has e) lost = elim lost [ ]
Vanishes-AtEnd x calm (loads after e) (it, full) = absurd (calm.room _ full)

stays_or_ends :
    {malloc : Malloc} {loaded : Loaded} {w v : World} (x : ℕ)
    → IsCalm w
    → (st : Step malloc loaded w v) → Present v x ⊎ Vanishes st x
    → Present v x ⊎ AtEnd v.machine x
stays_or_ends x calm st (inl at) = inl at
stays_or_ends x calm st (inr lost) = inr (Vanishes-AtEnd x calm st lost)

Step-count :
    {malloc : Malloc} {loaded : Loaded} {w v : World}
    → Step malloc loaded w v
    → (v.count ≡ w.count) ⊎ (v.count ≡ w.count + 1)
Step-count (gets i proc s free e) = inl refl
Step-count (finishes i q has over) = inl refl
Step-count (puts i q s has e) = inl refl
Step-count (runs i q stat after has e) = inl refl
Step-count (loads after e) = inr refl

-- In every sequence of steps of the threads from the start during which no level holds ten processes
-- and no process on a CPU is about to call `killall`, every process that has been loaded waits on a
-- level, or is held by a CPU, or is behind its last instruction.
pub accounted :
    (malloc : Malloc) (loaded : Loaded) (m : Machine) {w : World}
    (r : Run malloc loaded (begin m) w)
    → AllCalm r
    → (x : ℕ) → x < w.count
    → Present w x ⊎ AtEnd w.machine x
accounted malloc loaded m here calm x k = absurd (omega (arith, k))
accounted malloc loaded m {w} (then_step {u} r st) calm x k =
    let before = last-IsCalm r calm.0 in
    let kept =
      never_lost malloc loaded m r (calm-NoKillall r calm.0) st (calm-StepSpares st before) x in
    elim (Bool-cases (ltb x u.count)) [
      | inl old ↦ elim (accounted malloc loaded m r calm.0 x (ground arith)) [
        | inl at ↦ stays_or_ends x before st (kept (inl at))
        | inr over ↦ inr (Step-AtEnd x before st (ground arith) over)
      ]
      | inr new ↦ elim (Step-count st) [
        | inl same ↦ absurd (ground arith)
        | inr more ↦ stays_or_ends x before st (kept (inr (ground arith, more)))
      ]
    ]
