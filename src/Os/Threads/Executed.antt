-- ===== src/Os/Threads/Executed.antt =====
-- What the steps of Os/Threads execute of a process.
use mathlib.Core.Path.{subst}
use easter_egg.Common.{ℕ, ◌+◌, ◌≡◌, refl, arith}
use easter_egg.Common.{Option, none, some, List, [], ◌∷◌, ◌++◌, get_elem?}
use easter_egg.Common.{Status, one, ◌≢◌, Bool-cases, inl, inr, ◌==◌, ==_iff, if◌then◌else◌}
use easter_egg.Vm.{Malloc}
use easter_egg.Process.{Machine, Inst, put_pc}
use easter_egg.Cpu.{run, execute}
use easter_egg.Os.{Loaded}
use easter_egg.Os.Threads.{World, Step, gets, finishes, puts, runs, loads, Run, here, then_step}

-- The instruction that process `p` executes next.
abbrev pub next_inst : Machine → ℕ → List Inst
next_inst m p = elim (get_elem? (m.pcb p).code (m.pcb p).pc) [ none ↦ [] | some ins ↦ ins ∷ [] ]

-- The instructions of process `p` that a step executes, and those that a sequence of steps does.
abbrev pub step_executes :
    {malloc : Malloc} {loaded : Loaded} {w v : World} → ℕ → Step malloc loaded w v → List Inst
step_executes p (gets i proc s free e) = []
step_executes p (finishes i q has over) = []
step_executes p (puts i q s has e) = []
step_executes {w = w} p (runs i q stat after has e) = if q == p then next_inst w.machine p else []
step_executes p (loads after e) = []

abbrev pub executed :
    {malloc : Malloc} {loaded : Loaded} {w v : World} → ℕ → Run malloc loaded w v → List Inst
executed p here = []
executed p (then_step r st) = executed p r ++ step_executes p st

-- What CPU time given to process `q` executes of process `p`: an instruction of `p` that is executed on
-- the machine with the counter moved on and leaves the machine `after`, or nothing.
pub data Executes (malloc : Malloc) (m after : Machine) (stat : Status) (p q : ℕ)
    : List Inst → Type 0 where
  not_this : q ≢ p → Executes malloc m after stat p q []
  none_behind :
      q ≡ p
      → get_elem? (m.pcb q).code (m.pcb q).pc ≡ none
      → after ≡ m
      → Executes malloc m after stat p q []
  this_one :
      (ins : Inst)
      → q ≡ p
      → get_elem? (m.pcb q).code (m.pcb q).pc ≡ some ins
      → execute malloc (put_pc m q ((m.pcb q).pc + 1)) q ins ≡ some (stat, after)
      → Executes malloc m after stat p q (ins ∷ [])

-- The list `l` is what a step executes of process `p`, and what a sequence of steps does.
abbrev pub StepDoes :
    {malloc : Malloc} {loaded : Loaded} {w v : World}
    → ℕ
    → Step malloc loaded w v
    → List Inst
    → Type 0
StepDoes p (gets i proc s free e) l = l ≡ []
StepDoes p (finishes i q has over) l = l ≡ []
StepDoes p (puts i q s has e) l = l ≡ []
StepDoes {malloc} {w = w} p (runs i q stat after has e) l =
    Executes malloc w.machine after stat p q l
StepDoes p (loads after e) l = l ≡ []

abbrev pub Does :
    {malloc : Malloc} {loaded : Loaded} {w v : World}
    → ℕ
    → Run malloc loaded w v
    → List Inst
    → Type 0
Does p here l = l ≡ []
Does p (then_step r st) l =
    (before now : List Inst) × Does p r before × StepDoes p st now × (l ≡ before ++ now)

run-Executes :
    (malloc : Malloc) (m after : Machine) (p q : ℕ) (stat : Status)
    → run malloc m q ≡ some (stat, after)
    → Executes malloc m after stat p q (if q == p then next_inst m p else [])
unfolding run
run-Executes malloc m after p q stat e = elim (Bool-cases (q == p)) [
  | inr other ↦ rw other (not_this (λ h. ground arith))
  | inl it ↦
      (let same : q ≡ p = (==_iff q p).0 it in
        rw it (subst (λ (x : ℕ). Executes malloc m after stat p q (next_inst m x)) same (own same)))
]
  where
    inst : Option Inst → List Inst
    inst o = elim o [ none ↦ [] | some ins ↦ ins ∷ [] ]

    from :
        (found : Option Inst)
        → q ≡ p
        → get_elem? (m.pcb q).code (m.pcb q).pc ≡ found
        → ◌≡◌ {A = Option (Status × Machine)}
            (elim found [
              | none ↦ some (one, m)
              | some ins ↦ execute malloc (put_pc m q ((m.pcb q).pc + 1)) q ins
            ])
            (some (stat, after))
        → Executes malloc m after stat p q (inst found)
    from none same is h = let there : after ≡ m = cc in none_behind same is there
    from (some ins) same is h = this_one ins same is h

    own : q ≡ p → Executes malloc m after stat p q (next_inst m q)
    own same = from (get_elem? (m.pcb q).code (m.pcb q).pc) same refl e

pub executed-Does :
    {malloc : Malloc} {loaded : Loaded} {w v : World} (p : ℕ) (r : Run malloc loaded w v)
    → Does p r (executed p r)
executed-Does p here = refl
executed-Does p (then_step r (gets i proc s free e)) = (_, _, executed-Does p r, refl, refl)
executed-Does p (then_step r (finishes i q has over)) = (_, _, executed-Does p r, refl, refl)
executed-Does p (then_step r (puts i q s has e)) = (_, _, executed-Does p r, refl, refl)
executed-Does p (then_step r (loads after e)) = (_, _, executed-Does p r, refl, refl)
executed-Does {malloc} p (then_step {u} r (runs i q stat after has e)) =
    (_, _, executed-Does p r, run-Executes malloc u.machine after p q stat e, refl)
