-- ===== src/Os/Quantum.antt =====
-- How long a process keeps a CPU.
use mathlib.Core.Path.{subst}
use easter_egg.Common.{
  ℕ, suc, ◌+◌, ◌-◌, ◌%◌, ◌^◌, ◌<◌, ◌≡◌, inl, inr, arith, refl, ap, sym, ◌∙◌, Bool, true, false,
}
use easter_egg.Common.{
  Option, none, some, ◌==◌, if◌then◌else◌, >>=-eq-some, ◌>>=◌, Bool-cases, ==_iff, Status,
}
use easter_egg.Sched.{Sched, get_proc, put_proc}
use easter_egg.Vm.{Malloc}
use easter_egg.Process.{Machine, code_size}
use easter_egg.Cpu.{run}
use easter_egg.Os.{CpuState, next_slot, leaves, fetch, check_status, run_process, cpu_turn}
use easter_egg.Os.{prio_of, put_sched}

-- The scheduler once a CPU is free to fetch a process: it had none, or its process was behind its
-- last instruction, or the process had used its time and has been put back.
pub data Releases (m : Machine) (cpu : CpuState) : Sched → Type 0 where
  was_idle : cpu.proc ≡ none → Releases m cpu m.sched
  was_over :
      (q : ℕ) → cpu.proc ≡ some q → ((m.pcb q).pc == code_size m q) ≡ true → Releases m cpu m.sched
  was_used :
      (q : ℕ) (s : Sched)
      → cpu.proc ≡ some q
      → ((m.pcb q).pc == code_size m q) ≡ false
      → cpu.time_left ≡ 0
      → put_proc (prio_of m) m.sched q ≡ some s
      → Releases m cpu s

-- What a turn makes of the process of a CPU and of its time: it runs the process that it has kept,
-- which was not finished, and uses up one slot of its time; or it runs the process that `get_proc`
-- gives it, and uses up one slot of a new quantum; or `get_proc` gives none.
pub data Spends (malloc : Malloc) (time_slot : ℕ) (m after : Machine) (before next : CpuState)
    : Type 0 where
  keeps :
      (p : ℕ) (stat : Status)
      → before.proc ≡ some p
      → ((m.pcb p).pc == code_size m p) ≡ false
      → run malloc m p ≡ some (stat, after)
      → next.proc ≡ some p
      → suc next.time_left ≡ before.time_left
      → Spends malloc time_slot m after before next
  fetches :
      (p : ℕ) (s given : Sched) (stat : Status)
      → Releases m before s
      → get_proc (prio_of m) s ≡ some (some p, given)
      → run malloc (put_sched m given) p ≡ some (stat, after)
      → next.proc ≡ some p
      → suc next.time_left ≡ time_slot
      → Spends malloc time_slot m after before next
  idles :
      (s given : Sched)
      → Releases m before s
      → get_proc (prio_of m) s ≡ some (none, given)
      → after ≡ put_sched m given
      → next.proc ≡ none
      → next.time_left ≡ 0
      → Spends malloc time_slot m after before next

-- With no process there is no time left.
abbrev pub IsClean : CpuState → Type 0
IsClean cpu = cpu.proc ≡ none → cpu.time_left ≡ 0

-- What `check_status` leaves: everything as it was, or a process fetched and no time.
data Checked (m : Machine) (cpu : CpuState) : CpuState × Machine × Bool → Type 0 where
  as_it_was :
      (p : ℕ)
      → cpu.proc ≡ some p
      → ((m.pcb p).pc == code_size m p) ≡ false
      → 0 < cpu.time_left
      → Checked m cpu (cpu, m, false)
  fetched :
      (proc : Option ℕ) (s given : Sched) (b : Bool)
      → Releases m cpu s
      → get_proc (prio_of m) s ≡ some (proc, given)
      → Checked m cpu (record { proc = proc; time_left = 0 }, put_sched m given, b)

fetch-Checked :
    (m : Machine) (cpu : CpuState) (s : Sched) (t : ℕ) (b : Bool) (r : CpuState × Machine × Bool)
    → Releases m cpu s
    → t ≡ 0
    → (fetch (put_sched m s) t >>= λ x. some (x.0, x.1, b)) ≡ some r
    → Checked m cpu r
unfolding fetch
fetch-Checked m cpu s t b r free none_left e =
    let (x, got, last) = >>=-eq-some (fetch (put_sched m s) t) _ e in
    let (y, given, more) = >>=-eq-some (get_proc (prio_of m) s) _ got in
    let first : (record { proc = y.0; time_left = t }, put_sched m y.1) ≡ x = cc in
    let then_this : (x.0, x.1, b) ≡ r = cc in
    subst (Checked m cpu)
      (same_result (record { proc = y.0; time_left = t }, put_sched m y.1) x b r first then_this)
      (subst (λ (n : ℕ). Checked m cpu (record { proc = y.0; time_left = n }, put_sched m y.1, b))
        (sym none_left) (fetched y.0 s y.1 b free given))
  where
    same_result :
        (a x : CpuState × Machine) (b : Bool) (r : CpuState × Machine × Bool)
        → a ≡ x
        → (x.0, x.1, b) ≡ r
        → (a.0, a.1, b) ≡ r
    same_result a x b r e f = ap (λ (z : CpuState × Machine). (z.0, z.1, b)) e ∙ f

check_status-Checked :
    (m : Machine) (proc : Option ℕ) (t : ℕ) (r : CpuState × Machine × Bool)
    → (proc ≡ none → t ≡ 0)
    → check_status m (record { proc = proc; time_left = t }) ≡ some r
    → Checked m (record { proc = proc; time_left = t }) r
unfolding check_status
check_status-Checked m none t r clean e =
    fetch-Checked m _ m.sched t true r (was_idle refl) (clean refl) e
check_status-Checked m (some p) t r clean e = elim (Bool-cases ((m.pcb p).pc == code_size m p)) [
  | inl over ↦ fetch-Checked m _ m.sched 0 false r (was_over p refl over) refl (rw over at e)
  | inr going ↦ elim (Bool-cases (t == 0)) [
    | inl used ↦
        (let (s, put, more) =
            >>=-eq-some (put_proc (prio_of m) m.sched p) _ (rw (going, used) at e) in
          let zero_left : t ≡ 0 = (==_iff t 0).0 used in
          fetch-Checked m _ s t false r (was_used p s refl going zero_left put) zero_left more)
    | inr some_left ↦
        (let same : some (record { proc = some p; time_left = t }, m, false) ≡ some r =
            rw (going, some_left) at e in
          let is : (record { proc = some p; time_left = t }, m, false) ≡ r = cc in
          subst (Checked m _) is (as_it_was p refl going (ground arith)))
  ]
]

run_process_lem :
    (malloc : Malloc) (time_slot : ℕ) (m : Machine) (p t : ℕ) (cpu : CpuState) (after : Machine)
    → run_process malloc time_slot m p t ≡ some (next_slot cpu after)
    → (stat : Status) × (run malloc m p ≡ some (stat, after))
      × (cpu.proc ≡ some p)
      × (cpu.time_left ≡ ((if t == 0 then time_slot else t) + (2 ^ 32 - 1)) % 2 ^ 32)
unfolding run_process
run_process_lem malloc time_slot m p t cpu after e =
    let (r, ran, last) = >>=-eq-some (run malloc m p) _ e in
    let quantum = if t == 0 then time_slot else t in
    let same : record { proc = some p; time_left = (quantum + (2 ^ 32 - 1)) % 2 ^ 32 } ≡ cpu = cc in
    let there : r.1 ≡ after = cc in
    (
      r.0,
      subst (λ (x : Machine). run malloc m p ≡ some (r.0, x)) there ran,
      sym (ap (λ (c : CpuState). c.proc) same),
      sym (ap (λ (c : CpuState). c.time_left) same),
    )

-- The end of a turn without a process.
idle_end :
    (old done : Bool) (c next : CpuState) (m after : Machine)
    → (if old then some (next_slot c m) else if done then some (leaves m) else some (next_slot c m))
      ≡ some (next_slot next after)
    → (c ≡ next) × (m ≡ after)
idle_end true done c next m after e = (cc, cc)
idle_end false true c next m after e = cc
idle_end false false c next m after e = (cc, cc)

-- When a turn of a CPU ends with a call of `next_slot`: with a quantum of at least one slot that is
-- an `int`, less than a quantum left before, and none left without a process, the same holds after,
-- and one of these: the CPU has kept its unfinished process, run it, and used one slot of the time it
-- had left; or it had no process, or found its process finished, or had no time left and put its
-- unfinished process back, and then either ran the process that `get_proc` gives and used one slot of
-- a new quantum, or has no process as `get_proc` gives none.
pub cpu_turn-Spends :
    (malloc : Malloc) (time_slot : ℕ) (done : Bool) (m after : Machine) (cpu next : CpuState)
    → 0 < time_slot
    → time_slot < 2 ^ 31
    → cpu.time_left < time_slot
    → IsClean cpu
    → cpu_turn malloc time_slot done m cpu ≡ some (next_slot next after)
    → Spends malloc time_slot m after cpu next × (next.time_left < time_slot) × IsClean next
unfolding cpu_turn
cpu_turn-Spends malloc time_slot done m after cpu next pos int below clean e =
    let (r, checked, rest) = >>=-eq-some (check_status m cpu) _ e in
    from r (check_status-Checked m cpu.proc cpu.time_left r clean checked) rest
  where
    from :
        (r : CpuState × Machine × Bool)
        → Checked m cpu r
        → (elim r.0.proc [
          | some p ↦ run_process malloc time_slot r.1 p r.0.time_left
          | none ↦
              (if r.2
                then some (next_slot r.0 r.1)
                else if done
                then some (leaves r.1)
                else some (next_slot r.0 r.1))
        ])
          ≡ some (next_slot next after)
        → Spends malloc time_slot m after cpu next × (next.time_left < time_slot) × IsClean next
    from r (as_it_was p was going some_left) rest =
        let (stat, ran, is, left) =
          run_process_lem malloc time_slot m p cpu.time_left next after (rw was at rest) in
        (keeps p stat was going ran is (ground arith), ground arith, λ h. cc)
    from r (fetched (some p) s given b free got) rest =
        let (stat, ran, is, left) =
          run_process_lem malloc time_slot (put_sched m given) p 0 next after rest in
        (fetches p s given stat free got ran is (ground arith), ground arith, λ h. cc)
    from r (fetched none s given b free got) rest =
        let (same, there) = idle_end b done _ next (put_sched m given) after rest in
        let no_time : next.time_left ≡ 0 = ap (λ (c : CpuState). c.time_left) (sym same) in
        (
          idles s given free got (sym there) (ap (λ (c : CpuState). c.proc) (sym same)) no_time,
          omega (arith, no_time),
          λ h. no_time,
        )
