-- ===== src/Os/Threads/Service.antt =====
-- How long a process that waits on a level waits for `get_proc`, in the steps of Os/Threads.
pub mod Ahead
use mathlib.Core.Path.{subst}
use easter_egg.Common.{ℕ, suc, ◌+◌, ◌*◌, ◌≤◌, ◌<◌, ◌≡◌, ◌≢◌, ◌⊎◌, inl, inr, refl, sym, ap, ◌∙◌}
use easter_egg.Common.{
  arith, Option, none, some, List, [], ◌∷◌, ◌++◌, length, All, Distinct, update,
}
use easter_egg.Common.{Bool-cases, ◌==◌, ==_iff, All-implies}
use easter_egg.Queue.{Queue, enqueue}
use easter_egg.Queue.Refine.{contents, TakesHighest, window-set_end}
use easter_egg.Sched.{Sched, get_proc, get_mlq_proc}
use easter_egg.Sched.Call.{IsValid}
use easter_egg.Sched.Progress.{get_mlq_proc-IsValid}
use easter_egg.Sched.Waiting.{call_less, joins_keep}
use easter_egg.Sched.Waiting.Budget.{budget, budget_bound}
use easter_egg.Vm.{Malloc}
use easter_egg.Process.{Machine}
use easter_egg.Cpu.Kills.{Kills, run-sched}
use easter_egg.Os.{Loaded, prio_of, put_sched}
use easter_egg.Os.Threads.{
  World, Step, gets, finishes, puts, runs, loads, begin, Run, here, then_step,
}
use easter_egg.Os.Threads.Placement.{Placement, Gets, got_none, got, get_mlq_proc-Gets}
use easter_egg.Os.Threads.Presence.{Has}
use easter_egg.Os.Threads.Safety.{Run-IsValid, Run-Placement, put_proc-levels, load_process-levels}
use easter_egg.Os.Threads.Safety.{load_process-adds}
use mathlib.Core.List.{append_assoc}
use easter_egg.Queue.Window.{length-window}
use easter_egg.Os.Threads.Placement.{enqueue_cases}
use easter_egg.Os.Threads.Service.Ahead.{Left, Shorter, Has-split, gets_shortens, joined_Left}
use easter_egg.Os.Threads.Service.Ahead.{same_Left, still_there}

-- The step is not a call of `get_proc`, and not `killall`.
abbrev pub IsOther :
    {malloc : Malloc} {loaded : Loaded} {w v : World} → Step malloc loaded w v → Type 0
IsOther (gets i proc s free e) = ⊥
IsOther (finishes i p has over) = Unit
IsOther (puts i p s has e) = Unit
IsOther {w = w} (runs i p stat after has e) = Kills w.machine p → ⊥
IsOther (loads after e) = Unit

-- Steps, `n` of them calls of `get_proc`, after none of which `x` has left level `q`.
pub data Waiting (malloc : Malloc) (loaded : Loaded) (q x : ℕ) (w : World)
    : ℕ → World → Type 0 where
  begins : Waiting malloc loaded q x w 0 w
  then_gets :
      {n : ℕ} {u : World} (i : ℕ) (proc : Option ℕ) (s : Sched)
      → Waiting malloc loaded q x w n u
      → u.held i ≡ none
      → get_proc (prio_of u.machine) u.machine.sched ≡ some (proc, s)
      → Has x (contents (s.mlq_ready_queue q))
      → Waiting malloc loaded q x w
          (suc n)
          (record u { machine = put_sched u.machine s; held = update u.held i proc })
  then_other :
      {n : ℕ} {u v : World}
      → Waiting malloc loaded q x w n u
      → (st : Step malloc loaded u v) → IsOther st
      → Waiting malloc loaded q x w n v

other_Left :
    {malloc : Malloc} {loaded : Loaded} {w v : World} (q x most : ℕ)
    → (st : Step malloc loaded w v) → IsOther st
    → Left w.machine.sched q x most
    → Left v.machine.sched q x most
other_Left q x most (gets i proc s free e) o l = elim o [ ]
other_Left q x most (finishes i p has over) o l = l
other_Left {w = w} q x most (puts i p s has e) o l =
    joined_Left w.machine.sched s (prio_of w.machine p) p q x most
      (put_proc-levels (prio_of w.machine) w.machine.sched s p e)
      (joins_keep (prio_of w.machine) w.machine.sched s p q (inl e)).1 l
other_Left {malloc} {w = w} q x most (runs i p stat after has e) o l =
    elim (run-sched malloc w.machine after p stat e) [
      | inl same ↦ same_Left w.machine.sched after.sched q x most same l
      | inr kills ↦ absurd (o kills)
    ]
other_Left {malloc} {loaded} {w} q x most (loads after e) o l =
    let (prio, is, added) = load_process-adds malloc loaded w.machine after w.count e in
    joined_Left w.machine.sched after.sched (loaded w.count).prio w.count q x most
      (load_process-levels malloc loaded w.machine after w.count e)
      (joins_keep prio w.machine.sched after.sched w.count q (inr added)).1 l

Waiting-Left :
    (malloc : Malloc) (loaded : Loaded) (m : Machine) (q x most : ℕ) {w v : World} {n : ℕ}
    → Run malloc loaded (begin m) w
    → q < 140
    → Left w.machine.sched q x most
    → Waiting malloc loaded q x w n v
    → Run malloc loaded (begin m) v × (now : ℕ) × Left v.machine.sched q x now × (n + now ≤ most)
unfolding get_proc
Waiting-Left malloc loaded m q x most r small l begins = (r, most, l, omega arith)
Waiting-Left malloc loaded m q x most r small l (then_other {n} {u} {v} wait st o) =
    let (reached, now, left, sum) = Waiting-Left malloc loaded m q x most r small l wait in
    (then_step reached st, now, other_Left q x now st o left, sum)
Waiting-Left malloc loaded m q x most r small l (then_gets {n} {u} i proc s wait free e still) =
    let (reached, now, left, sum) = Waiting-Left malloc loaded m q x most r small l wait in
    let (front, back, at, bound) = left in
    let places = Run-Placement m reached in
    let (most_after, left_after, less) =
      gets_shortens (prio_of u.machine) u.machine.sched s proc q x front back
        (Run-IsValid m reached) small
        (All-implies (λ y a. a.0) (contents (u.machine.sched.mlq_ready_queue q))
          (places.levels q small))
        (places.once q small) at (still_there u.machine.sched q x now left) e still in
    (then_step reached (gets i proc s free e), most_after, left_after, omega arith)

-- In every world that the threads reach from the start: a process that waits on a level of `size`
-- entries leaves it before there have been 19742 times `size` calls of `get_proc`, whatever the order
-- of the steps and whatever processes join meanwhile, as long as no process calls `killall`.
pub served_in_time :
    (malloc : Malloc) (loaded : Loaded) (m : Machine) (q x : ℕ) {w v : World} {n : ℕ}
    → Run malloc loaded (begin m) w
    → q < 140
    → Has x (contents (w.machine.sched.mlq_ready_queue q))
    → Waiting malloc loaded q x w n v
    → n < (w.machine.sched.mlq_ready_queue q).size * 19742
served_in_time malloc loaded m q x {w} r small waits wait =
    let level = w.machine.sched.mlq_ready_queue q in
    let (front, back, at, less) = Has-split x (contents level) waits in
    let size = length-window level.proc 0 level.size in
    let most = budget_bound w.machine.sched q (Run-IsValid m r).level small in
    let (reached, now, left, sum) =
      Waiting-Left malloc loaded m q x (length front * 19742 + budget w.machine.sched q) r small
        (front, back, at, omega arith) wait in
    omega arith
