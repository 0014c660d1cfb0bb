-- ===== src/Os/Threads/Program.antt =====
-- The instructions of each process while the threads run.
use mathlib.Core.Path.{subst}
use mathlib.Core.List.{append-nil}
use easter_egg.Common.{ℕ, zero, suc, ◌+◌, ◌≤◌, ◌<◌, ◌≡◌, refl, sym, ap, ◌∙◌, arith}
use easter_egg.Common.{Option, none, some, List, [], ◌∷◌, ◌++◌, get_elem?, take, length, update}
use easter_egg.Common.{Bool-cases, inl, inr, ◌==◌, ==_iff, if◌then◌else◌}
use easter_egg.Vm.{Malloc, init_mm}
use easter_egg.Process.{Machine, Pcb, Inst}
use easter_egg.Cpu.Kills.{Advances, at_end, executed_one, run-Advances}
use easter_egg.Os.{Loaded, load_process}
use easter_egg.Os.Threads.{World, gets, finishes, puts, runs, loads, begin, Run, here, then_step}
use easter_egg.Os.Threads.Executed.{next_inst, executed, Does, executed-Does}
use easter_egg.Os.Threads.Calls.{NoKillall}
use easter_egg.Os.Threads.Safety.{Run-Placement, load_process-pcb}

-- `done` are the first instructions of a process, up to its counter.
record InOrder (loaded : Loaded) (m : Machine) (p : ℕ) (done : List Inst) : Type 0 where
  code : (m.pcb p).code ≡ (loaded p).code
  inside : (m.pcb p).pc ≤ length (loaded p).code
  order : done ≡ take (m.pcb p).pc (loaded p).code

take_next :
    (l : List Inst) (n : ℕ) (x : Inst)
    → get_elem? l n ≡ some x
    → (take (n + 1) l ≡ take n l ++ x ∷ []) × (n + 1 ≤ length l)
take_next [] n x e = cc
take_next (y ∷ l) zero x e = let same : y ≡ x = cc in (ap (λ (z : Inst). z ∷ []) same, omega arith)
take_next (y ∷ l) (suc n) x e =
    let (more, inside) = take_next l n x e in
    let one_more : suc n + 1 ≡ suc (n + 1) = omega arith in
    (rw one_more (ap (λ (k : List Inst). y ∷ k) more), omega arith)

-- Counter and code as they were, and nothing executed.
unmoved :
    (loaded : Loaded) (m after : Machine) (p : ℕ) (done : List Inst)
    → (after.pcb p).pc ≡ (m.pcb p).pc
    → (after.pcb p).code ≡ (m.pcb p).code
    → InOrder loaded m p done
    → InOrder loaded after p (done ++ [])
unmoved loaded m after p done pc code o = record {
  code = code ∙ o.code;
  inside = omega (arith, pc, o.inside);
  order = append-nil done ∙ o.order ∙ ap (λ (n : ℕ). take n (loaded p).code) (sym pc);
}

one_or_none : Option Inst → List Inst
one_or_none o = elim o [ none ↦ [] | some ins ↦ ins ∷ [] ]

run-InOrder :
    (loaded : Loaded) (m after : Machine) (p q : ℕ) (done : List Inst)
    → Advances m after q
    → InOrder loaded m p done
    → InOrder loaded after p (done ++ (if q == p then next_inst m p else []))
unfolding one_or_none
run-InOrder loaded m after p q done (at_end none_left pc code) o = elim (Bool-cases (q == p)) [
  | inr other ↦ rw other (unmoved loaded m after p done (pc p) (code p) o)
  | inl it ↦
      (let same : q ≡ p = (==_iff q p).0 it in
        let at : get_elem? (m.pcb p).code (m.pcb p).pc ≡ none =
          subst (λ (x : ℕ). get_elem? (m.pcb x).code (m.pcb x).pc ≡ none) same none_left in
        let nothing : next_inst m p ≡ [] = ap one_or_none at in
        rw it (
          subst (λ (l : List Inst). InOrder loaded after p (done ++ l)) (sym nothing)
            (unmoved loaded m after p done (pc p) (code p) o)))
]
run-InOrder loaded m after p q done (executed_one ins found pc others code) o =
    elim (Bool-cases (q == p)) [
      | inr other ↦
          rw other (unmoved loaded m after p done (others p (λ e. ground arith)) (code p) o)
      | inl it ↦
          (let same : q ≡ p = (==_iff q p).0 it in
            let at : get_elem? (m.pcb p).code (m.pcb p).pc ≡ some ins =
              subst (λ (x : ℕ). get_elem? (m.pcb x).code (m.pcb x).pc ≡ some ins) same found in
            let this : next_inst m p ≡ ins ∷ [] = ap one_or_none at in
            let moved : (after.pcb p).pc ≡ (m.pcb p).pc + 1 =
              subst (λ (x : ℕ). (after.pcb x).pc ≡ (m.pcb x).pc + 1) same pc in
            let (more, inside) =
              take_next (loaded p).code (m.pcb p).pc ins
                (ap (λ (l : List Inst). get_elem? l (m.pcb p).pc) (sym o.code) ∙ at) in
            rw it (record {
              code = code p ∙ o.code;
              inside = omega (arith, moved, inside);
              order =
                  ap (λ (l : List Inst). done ++ l) this
                  ∙ ap (λ (l : List Inst). l ++ ins ∷ []) o.order
                  ∙ sym more
                  ∙ ap (λ (n : ℕ). take n (loaded p).code) (sym moved);
            }))
    ]

-- What holds of process `p` behind a sequence of steps.
record Holds (loaded : Loaded) (w : World) (p : ℕ) (done : List Inst) : Type 0 where
  known : p < w.count → InOrder loaded w.machine p done
  unknown : w.count ≤ p → done ≡ []

same-Holds :
    (loaded : Loaded) (w v : World) (p : ℕ) (done : List Inst)
    → v.machine.pcb ≡ w.machine.pcb
    → v.count ≡ w.count
    → Holds loaded w p done
    → Holds loaded v p (done ++ [])
same-Holds loaded w v p done pcb count h = record {
  known = λ k.
      unmoved loaded w.machine v.machine p done (ap (λ (f : ℕ → Pcb). (f p).pc) pcb)
        (ap (λ (f : ℕ → Pcb). (f p).code) pcb) (h.known (omega (arith, k, count)));
  unknown = λ k. append-nil done ∙ h.unknown (omega (arith, k, count));
}

loads-Holds :
    (malloc : Malloc) (loaded : Loaded) (w : World) (after : Machine) (p : ℕ) (done : List Inst)
    → (loaded p).pc ≡ 0
    → load_process malloc loaded w.machine w.count ≡ some after
    → Holds loaded w p done
    → Holds loaded (record w { machine = after; count = w.count + 1 }) p (done ++ [])
loads-Holds malloc loaded w after p done zero_pc e h = record {
  known = λ k. elim (Bool-cases (w.count == p)) [
    | inr other ↦
        unmoved loaded w.machine after p done (ap (λ (f : ℕ → Pcb). (f p).pc) pcb ∙ rw other refl)
          (ap (λ (f : ℕ → Pcb). (f p).code) pcb ∙ rw other refl) (h.known (ground (arith, k)))
    | inl it ↦
        (let n : w.count ≡ p = (==_iff w.count p).0 it in
          let pc : (after.pcb p).pc ≡ 0 = ap (λ (f : ℕ → Pcb). (f p).pc) pcb ∙ rw (it, n) zero_pc in
          let code : (after.pcb p).code ≡ (loaded p).code =
            ap (λ (f : ℕ → Pcb). (f p).code) pcb ∙ rw (it, n) refl in
          record {
            code = code;
            inside = omega (arith, pc);
            order =
                append-nil done
                ∙ h.unknown (omega (arith, n))
                ∙ ap (λ (x : ℕ). take x (loaded p).code) (sym pc);
          })
  ];
  unknown = λ k. append-nil done ∙ h.unknown (omega (arith, k));
}
  where
    pcb :
        after.pcb
        ≡ update w.machine.pcb w.count
            (record (loaded w.count) { mm = (init_mm malloc (loaded w.count).mm).1 })
    pcb = load_process-pcb malloc loaded w.machine after w.count e

Run-Holds :
    {malloc : Malloc} {loaded : Loaded} (m : Machine) {w : World}
    (r : Run malloc loaded (begin m) w) (p : ℕ)
    → NoKillall r
    → (loaded p).pc ≡ 0
    → Holds loaded w p (executed p r)
Run-Holds {loaded = loaded} m here p spares zero_pc = record {
  known = λ k. absurd (omega (arith, k));
  unknown = λ k. refl;
}
Run-Holds {loaded = loaded} m {w} (then_step {u} r (gets i proc s free e)) p spares zero_pc =
    same-Holds loaded u w p (executed p r) refl refl (Run-Holds m r p spares.0 zero_pc)
Run-Holds {loaded = loaded} m {w} (then_step {u} r (finishes i q has over)) p spares zero_pc =
    same-Holds loaded u w p (executed p r) refl refl (Run-Holds m r p spares.0 zero_pc)
Run-Holds {loaded = loaded} m {w} (then_step {u} r (puts i q s has e)) p spares zero_pc =
    same-Holds loaded u w p (executed p r) refl refl (Run-Holds m r p spares.0 zero_pc)
Run-Holds {malloc} {loaded} m {w} (then_step {u} r (loads after e)) p spares zero_pc =
    loads-Holds malloc loaded u after p (executed p r) zero_pc e (Run-Holds m r p spares.0 zero_pc)
Run-Holds {malloc} {loaded} m {w} (then_step {u} r (runs i q stat after has e)) p spares zero_pc =
    let before = Run-Holds m r p spares.0 zero_pc in
    let held = (Run-Placement m r).known i q has in
    record {
      known = λ k.
          run-InOrder loaded u.machine after p q (executed p r)
            (run-Advances malloc u.machine after q stat spares.1 e) (before.known k);
      unknown = λ k. elim (Bool-cases (q == p)) [
        | inr other ↦ rw other (append-nil (executed p r) ∙ before.unknown k)
        | inl it ↦ (let same : q ≡ p = (==_iff q p).0 it in absurd (omega (arith, held, k, same)))
      ];
    }

-- In every sequence of steps of the threads from the start in which no process calls `killall`, with a
-- process that is loaded with the counter 0: its code is the one that it was loaded with, its counter
-- is not behind the end, and what was executed for it, by whatever CPUs, are the instructions of its
-- code before the counter, each once and in their order, where each one was executed on the machine at
-- that step, with the counter moved on, and left the machine as the step left it.
pub program_order :
    (malloc : Malloc) (loaded : Loaded) (m : Machine) {w : World}
    (r : Run malloc loaded (begin m) w) (p : ℕ)
    → NoKillall r
    → (loaded p).pc ≡ 0
    → p < w.count
    → ((w.machine.pcb p).code ≡ (loaded p).code)
      × ((w.machine.pcb p).pc ≤ length (loaded p).code)
      × Does p r (take (w.machine.pcb p).pc (loaded p).code)
program_order malloc loaded m r p spares zero_pc known =
    let o = (Run-Holds m r p spares zero_pc).known known in
    (o.code, o.inside, subst (Does p r) o.order (executed-Does p r))
