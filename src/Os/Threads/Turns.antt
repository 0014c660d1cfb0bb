-- ===== src/Os/Threads/Turns.antt =====
-- A turn of a CPU, and one of the loader, as steps of the threads.
use mathlib.Core.Path.{subst}
use mathlib.Core.Logic.{◌≢◌}
use easter_egg.Common.{ℕ, ◌+◌, ◌≡◌, refl, ap, ◌∙◌, arith, Bool, true, false, inl, inr}
use easter_egg.Common.{
  Option, none, some, update, Bool-cases, ◌==◌, >>=-eq-some, ltb, ◌>>=◌, if◌then◌else◌,
}
use easter_egg.Sched.{get_proc, put_proc}
use easter_egg.Vm.{Malloc}
use easter_egg.Process.{Machine, code_size}
use easter_egg.Cpu
use easter_egg.Os.{CpuState, Outcome, next_slot, leaves, fetch, check_status, run_process, cpu_turn}
use easter_egg.Os.{Loaded, load_process, ld_turn, prio_of, put_sched}
use easter_egg.Os.Threads.{World, Step, gets, finishes, puts, runs, loads, Run, here, then_step}

-- `w` leads to a world with the machine `m`, in which CPU `i` holds `proc`, and every other one what
-- it held.
abbrev pub LeadsTo : Malloc → Loaded → ℕ → World → Machine → Option ℕ → Type 0
LeadsTo malloc loaded i w m proc =
    (v : World) × Run malloc loaded w v
    × (v.machine ≡ m)
    × (v.held i ≡ proc)
    × ((j : ℕ) → j ≢ i → v.held j ≡ w.held j)
    × (v.count ≡ w.count)

-- The machine and the process that a turn ends with; a CPU that leaves has none.
abbrev pub machine_of : {S : Type 0} → Outcome S → Machine
machine_of (next_slot c m) = m
machine_of (leaves m) = m

abbrev pub proc_of : Outcome CpuState → Option ℕ
proc_of (next_slot c m) = c.proc
proc_of (leaves m) = none

module _ (malloc : Malloc) (loaded : Loaded) (i : ℕ) where
  set_other : (held : ℕ → Option ℕ) (r : Option ℕ) (j : ℕ) → j ≢ i → update held i r j ≡ held j
  set_other held r j ne = ground arith

  -- A call of `fetch` by a CPU without a process.
  fetch_leads :
      (w : World) (t : ℕ) (c : CpuState) (m : Machine)
      → w.held i ≡ none
      → fetch w.machine t ≡ some (c, m)
      → LeadsTo malloc loaded i w m c.proc
  unfolding fetch
  fetch_leads w t c m free e =
      let (r, got, last) = >>=-eq-some (get_proc (prio_of w.machine) w.machine.sched) _ e in
      let machine : put_sched w.machine r.1 ≡ m = cc in
      let proc : r.0 ≡ c.proc =
        ap (λ (o : Option (CpuState × Machine)). elim o [ none ↦ none | some x ↦ (x.0).proc ])
          last in
      (
        record w { machine = put_sched w.machine r.1; held = update w.held i r.0 },
        then_step here (gets i r.0 r.1 free got),
        machine,
        ground arith,
        λ j ne. set_other w.held r.0 j ne,
        refl,
      )

  Step-before :
      {w u v : World} → Step malloc loaded w u → Run malloc loaded u v → Run malloc loaded w v
  Step-before s here = then_step here s
  Step-before s (then_step r t) = then_step (Step-before s r) t

  -- The CPU lets go of its process by a step, and then fetches another one.
  released :
      (w : World) (m : Machine) (t : ℕ) (b : Bool) (r : CpuState × Machine × Bool)
      → Step malloc loaded w (record w { machine = m; held = update w.held i none })
      → (fetch m t >>= λ x. some (x.0, x.1, b)) ≡ some r
      → LeadsTo malloc loaded i w r.1 r.0.proc
  released w m t b r step e =
      let (x, got, last) = >>=-eq-some (fetch m t) _ e in
      let u : World = record w { machine = m; held = update w.held i none } in
      let (v, run, machine, proc, others, count) = fetch_leads u t x.0 x.1 (ground arith) got in
      let same : (x.0, x.1, b) ≡ r = cc in
      (
        v,
        Step-before step run,
        machine ∙ ap (λ (y : CpuState × Machine × Bool). y.1) same,
        proc ∙ ap (λ (y : CpuState × Machine × Bool). y.0.proc) same,
        λ j ne. others j ne ∙ set_other w.held none j ne,
        count,
      )

  check_leads :
      (w : World) (proc : Option ℕ) (t : ℕ) (r : CpuState × Machine × Bool)
      → w.held i ≡ proc
      → check_status w.machine (record { proc = proc; time_left = t }) ≡ some r
      → LeadsTo malloc loaded i w r.1 r.0.proc
  unfolding check_status
  check_leads w none t r holds e =
      let (x, got, last) = >>=-eq-some (fetch w.machine t) _ e in
      let same : (x.0, x.1, true) ≡ r = cc in
      subst (λ (y : CpuState × Machine × Bool). LeadsTo malloc loaded i w y.1 y.0.proc) same
        (fetch_leads w t x.0 x.1 holds got)
  check_leads w (some p) t r holds e =
      elim (Bool-cases ((w.machine.pcb p).pc == code_size w.machine p)) [
        | inl over ↦ released w w.machine 0 false r (finishes i p holds over) (rw over at e)
        | inr going ↦ elim (Bool-cases (t == 0)) [
          | inl used ↦
              (let (s, put, more) =
                  >>=-eq-some (put_proc (prio_of w.machine) w.machine.sched p) _
                    (rw (going, used) at e) in
                released w (put_sched w.machine s) t false r (puts i p s holds put) more)
          | inr some_left ↦
              (let same : some (record { proc = some p; time_left = t }, w.machine, false)
                    ≡ some r =
                  rw (going, some_left) at e in
                let there : (record { proc = some p; time_left = t }, w.machine, false) ≡ r = cc in
                subst (λ (y : CpuState × Machine × Bool). LeadsTo malloc loaded i w y.1 y.0.proc)
                  there (w, here, refl, holds, λ j ne. refl, refl))
        ]
      ]

  -- The process that is held is run for a slot.
  run_leads :
      (w : World) (m : Machine) (p slot t : ℕ) (o : Outcome CpuState)
      → LeadsTo malloc loaded i w m (some p)
      → run_process malloc slot m p t ≡ some o
      → LeadsTo malloc loaded i w (machine_of o) (proc_of o)
  unfolding run_process
  run_leads w m p slot t o (v, run, machine, proc, others, count) e =
      let ((stat, after), ran, last) = >>=-eq-some (Cpu.run malloc m p) _ e in
      let ended : Machine = machine_of o in
      let at : after ≡ machine_of o =
        ap (λ (x : Option (Outcome CpuState)). elim x [ none ↦ after | some y ↦ machine_of y ])
          last in
      let holds : some p ≡ proc_of o =
        ap (λ (x : Option (Outcome CpuState)). elim x [ none ↦ none | some y ↦ proc_of y ]) last in
      (
        record v { machine = after },
        then_step run (runs i p stat after proc (rw machine ran)),
        at,
        proc ∙ holds,
        others,
        count,
      )

  turn_leads :
      (w : World) (m : Machine) (slot t : ℕ) (done old : Bool) (proc : Option ℕ) (c : CpuState)
      (o : Outcome CpuState)
      → c.proc ≡ proc
      → LeadsTo malloc loaded i w m proc
      → ◌≡◌ {A = Option (Outcome CpuState)}
          (elim proc [
            | some p ↦ run_process malloc slot m p t
            | none ↦
                (if old
                  then some (next_slot c m)
                  else if done
                  then some (leaves m)
                  else some (next_slot c m))
          ])
          (some o)
      → LeadsTo malloc loaded i w (machine_of o) (proc_of o)
  turn_leads w m slot t done old (some p) c o is leads e = run_leads w m p slot t o leads e
  turn_leads w m slot t done true none c o is leads e =
      let same : next_slot c m ≡ o = cc in
      subst (λ (x : Outcome CpuState). LeadsTo malloc loaded i w (machine_of x) (proc_of x)) same
        (rw is leads)
  turn_leads w m slot t true false none c o is leads e =
      let same : leaves m ≡ o = cc in
      subst (λ (x : Outcome CpuState). LeadsTo malloc loaded i w (machine_of x) (proc_of x)) same
        leads
  turn_leads w m slot t false false none c o is leads e =
      let same : next_slot c m ≡ o = cc in
      subst (λ (x : Outcome CpuState). LeadsTo malloc loaded i w (machine_of x) (proc_of x)) same
        (rw is leads)

-- A whole turn of CPU `i`, whatever it ends with, is a sequence of steps of the threads: it leads to
-- the machine and the process that the turn ends with, and other CPUs hold what they held.
pub cpu_turn-LeadsTo :
    (malloc : Malloc) (loaded : Loaded) (i : ℕ) (w : World) (slot : ℕ) (done : Bool) (c : CpuState)
    (o : Outcome CpuState)
    → w.held i ≡ c.proc
    → cpu_turn malloc slot done w.machine c ≡ some o
    → LeadsTo malloc loaded i w (machine_of o) (proc_of o)
unfolding cpu_turn
cpu_turn-LeadsTo malloc loaded i w slot done c o holds e =
    let (r, checked, rest) = >>=-eq-some (check_status w.machine c) _ e in
    turn_leads malloc loaded i w r.1 slot r.0.time_left done r.2 r.0.proc r.0 o refl
      (check_leads malloc loaded i w c.proc c.time_left r holds checked) rest

-- A turn of the loader that returns is one step or none.
ld_turn-Step :
    (malloc : Malloc) (loaded : Loaded) (w : World) (n time : ℕ) (start_time : ℕ → ℕ)
    (o : Outcome ℕ)
    → ld_turn malloc loaded n start_time time w.machine w.count ≡ some o
    → (v : World) × Run malloc loaded w v × (v.machine ≡ machine_of o) × (v.held ≡ w.held)
unfolding ld_turn
ld_turn-Step malloc loaded w n time start_time o e = elim (Bool-cases (ltb w.count n)) [
  | inr all ↦
      (w, here, (let same : some (leaves w.machine) ≡ some o = rw all at e in there same), refl)
  | inl more ↦ elim (Bool-cases (ltb time (start_time w.count))) [
    | inl early ↦ (
      w,
      here,
      (let same : some (next_slot w.count w.machine) ≡ some o = rw (more, early) at e in
          there same),
      refl,
    )
    | inr due ↦
        (let (next, loaded_next, last) =
            >>=-eq-some (load_process malloc loaded w.machine w.count) _ (rw (more, due) at e) in
          (
            record w { machine = next; count = w.count + 1 },
            then_step here (loads next loaded_next),
            there last,
            refl,
          ))
  ]
]
  where
    there : {x : Outcome ℕ} → some x ≡ some o → machine_of x ≡ machine_of o
    there {x} same =
        ap (λ (y : Option (Outcome ℕ)). elim y [ none ↦ w.machine | some z ↦ machine_of z ]) same
