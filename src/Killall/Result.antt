-- ===== src/Killall/Result.antt =====
-- What `__sys_killall` leaves: the running list, and the processes that it has ended.
use mathlib.Core.Path.{subst}
use easter_egg.Common.{
  ℕ, zero, suc, ◌+◌, ◌<◌, ◌≡◌, refl, sym, ap, ap₂, ◌∙◌, arith, Bool, true, false,
}
use easter_egg.Common.{List, [], ◌∷◌, ◌++◌, length, ltb, if◌then◌else◌, Option, none, some, All}
use easter_egg.Common.{>>=-eq-some, update}
use mathlib.Core.List.{append_assoc, append-nil}
use easter_egg.Queue.{Queue}
use easter_egg.Queue.Refine.{contents}
use easter_egg.Sched.{Sched, max_prio}
use easter_egg.Vm.{Malloc, Caller, area_at}
use easter_egg.Libmem
use easter_egg.Process.{Machine, Inst, Opcode, caller_of, put_caller, code_size, put_pc}
use easter_egg.Killall.{read_name, is_named, run_list_loop, level_loop, levels_loop, proc_name_size}
use easter_egg.Killall.{end_all, free_regions, free_all, kill_named, sys_killall}
use easter_egg.Killall.Lists.{only, others, run_list_loop-contents, level_loop-contents}

-- The process is behind its last instruction.
abbrev pub HasEnded : Machine → ℕ → Type 0
HasEnded m q = (m.pcb q).pc ≡ code_size m q

-- Counters, code, priorities and scheduler are the same.
pub record Keeps (m after : Machine) : Type 0 where
  pub counter : (q : ℕ) → (after.pcb q).pc ≡ (m.pcb q).pc
  pub code : (q : ℕ) → (after.pcb q).code ≡ (m.pcb q).code
  pub prio : (q : ℕ) → (after.pcb q).prio ≡ (m.pcb q).prio
  pub sched : after.sched ≡ m.sched

pub Keeps-refl : (m : Machine) → Keeps m m
Keeps-refl m = record { counter = λ q. refl; code = λ q. refl; prio = λ q. refl; sched = refl }

pub Keeps-trans : (a b c : Machine) → Keeps a b → Keeps b c → Keeps a c
Keeps-trans a b c k l = record {
  counter = λ q. l.counter q ∙ k.counter q;
  code = λ q. l.code q ∙ k.code q;
  prio = λ q. l.prio q ∙ k.prio q;
  sched = l.sched ∙ k.sched;
}

pub put_caller-Keeps : (m : Machine) (p : ℕ) (c : Caller) → Keeps m (put_caller m p c)
put_caller-Keeps m p c = record {
  counter = λ q. ground arith;
  code = λ q. ground arith;
  prio = λ q. ground arith;
  sched = refl;
}

Keeps-HasEnded : (m after : Machine) (q : ℕ) → Keeps m after → HasEnded m q → HasEnded after q
Keeps-HasEnded m after q k e = k.counter q ∙ e ∙ sym (ap (λ (l : List Inst). length l) (k.code q))

free_regions-Keeps :
    (code : List Inst) (p : ℕ) (m after : Machine)
    → free_regions code p m ≡ some after
    → Keeps m after
unfolding free_regions
free_regions-Keeps [] p m after e = let same : m ≡ after = cc in subst (Keeps m) same (Keeps-refl m)
free_regions-Keeps (ins ∷ rest) p m after e =
    by_opcode ins.opcode ins.arg_0 ins.arg_1 ins.arg_2 ins.arg_3 (free_regions-Keeps rest p) e
  where
    by_opcode :
        (op : Opcode) (a0 a1 a2 a3 : ℕ)
        → ((n done : Machine) → free_regions rest p n ≡ some done → Keeps n done)
        → free_regions
            (record { opcode = op; arg_0 = a0; arg_1 = a1; arg_2 = a2; arg_3 = a3 } ∷ rest)
            p
            m
          ≡ some after
        → Keeps m after
    by_opcode Opcode.alloc a0 a1 a2 a3 ih h =
        let (vma, found, more) = >>=-eq-some (area_at (m.pcb p).mm (some 0)) _ h in
        let (r, freed, last) = >>=-eq-some (Libmem.free (caller_of m p) vma.vm_id a0) _ more in
        Keeps-trans m (put_caller m p r.1) after (put_caller-Keeps m p r.1) (ih _ after last)
    by_opcode Opcode.calc a0 a1 a2 a3 ih h = ih m after h
    by_opcode Opcode.free a0 a1 a2 a3 ih h = ih m after h
    by_opcode Opcode.read a0 a1 a2 a3 ih h = ih m after h
    by_opcode Opcode.write a0 a1 a2 a3 ih h = ih m after h
    by_opcode Opcode.syscall a0 a1 a2 a3 ih h = ih m after h

pub free_all-Keeps : (ps : List ℕ) (m after : Machine) → free_all ps m ≡ some after → Keeps m after
unfolding free_all
free_all-Keeps [] m after e = let same : m ≡ after = cc in subst (Keeps m) same (Keeps-refl m)
free_all-Keeps (p ∷ ps) m after e =
    let (next, freed, more) = >>=-eq-some (free_regions (m.pcb p).code p m) _ e in
    Keeps-trans m next after (free_regions-Keeps (m.pcb p).code p m next freed)
      (free_all-Keeps ps next after more)

put_pc-HasEnded : (m : Machine) (p q : ℕ) → HasEnded m q → HasEnded (put_pc m p (code_size m p)) q
put_pc-HasEnded m p q e = ground arith

put_pc_ended : (m : Machine) (p : ℕ) → HasEnded (put_pc m p (code_size m p)) p
put_pc_ended m p = ground arith

end_all-HasEnded : (ps : List ℕ) (m : Machine) (q : ℕ) → HasEnded m q → HasEnded (end_all ps m) q
unfolding end_all
end_all-HasEnded [] m q e = e
end_all-HasEnded (p ∷ ps) m q e =
    end_all-HasEnded ps (put_pc m p (code_size m p)) q (put_pc-HasEnded m p q e)

end_all_lem : (ps : List ℕ) (m : Machine) → All (HasEnded (end_all ps m)) ps
unfolding end_all
end_all_lem [] m = tt
end_all_lem (p ∷ ps) m =
    let next = put_pc m p (code_size m p) in
    (end_all-HasEnded ps next p (put_pc_ended m p), end_all_lem ps next)

pub end_all-sched : (ps : List ℕ) (m : Machine) → (end_all ps m).sched ≡ m.sched
unfolding end_all
end_all-sched [] m = refl
end_all-sched (p ∷ ps) m = end_all-sched ps (put_pc m p (code_size m p))

pub end_all-prio :
    (ps : List ℕ) (m : Machine) (q : ℕ) → ((end_all ps m).pcb q).prio ≡ (m.pcb q).prio
unfolding end_all
end_all-prio [] m q = refl
end_all-prio (p ∷ ps) m q = end_all-prio ps (put_pc m p (code_size m p)) q ∙ ground arith

-- The processes named on the levels from `i` on.
abbrev pub on_levels : (ℕ → Bool) → ℕ → ℕ → (ℕ → Queue) → List ℕ
on_levels named zero i mlq = []
on_levels named (suc rounds) i mlq =
    only named (contents (mlq i)) ++ on_levels named rounds (i + 1) mlq

on_levels-update :
    (named : ℕ → Bool) (rounds i k : ℕ) (mlq : ℕ → Queue) (v : Queue)
    → k < i
    → on_levels named rounds i (update mlq k v) ≡ on_levels named rounds i mlq
on_levels-update named zero i k mlq v h = refl
on_levels-update named (suc rounds) i k mlq v h =
    let here : update mlq k v i ≡ mlq i = ground arith in
    let more = on_levels-update named rounds (i + 1) k mlq v (omega arith) in
    ap₂ (λ (a : Queue) (b : List ℕ). only named (contents a) ++ b) here more

levels_loop-found :
    (named : ℕ → Bool) (rounds i : ℕ) (mlq : ℕ → Queue) (killed : List ℕ)
    → (levels_loop named rounds i mlq killed).1 ≡ killed ++ on_levels named rounds i mlq
unfolding levels_loop
levels_loop-found named zero i mlq killed = sym (append-nil killed)
levels_loop-found named (suc rounds) i mlq killed =
    let level = level_loop named (mlq i).size 0 (mlq i) killed in
    levels_loop-found named rounds (i + 1) (update mlq i level.0) level.1
    ∙ ap₂ (λ (a b : List ℕ). a ++ b) (level_loop-contents named (mlq i) killed).1
        (on_levels-update named rounds (i + 1) i mlq level.0 (omega arith))
    ∙ append_assoc killed (only named (contents (mlq i))) _

All-left {ℓ κ} : {A : Type ℓ} (P : A → Type κ) (xs ys : List A) → All P (xs ++ ys) → All P xs
All-left P [] ys h = tt
All-left P (x ∷ xs) ys h = (h.0, All-left P xs ys h.1)

All-right {ℓ κ} : {A : Type ℓ} (P : A → Type κ) (xs ys : List A) → All P (xs ++ ys) → All P ys
All-right P [] ys h = h
All-right P (x ∷ xs) ys h = All-right P xs ys h.1

All-map {ℓ κ μ} :
    {A : Type ℓ} (P : A → Type κ) (Q : A → Type μ) (xs : List A)
    → ((x : A) → P x → Q x)
    → All P xs
    → All Q xs
All-map P Q [] f h = tt
All-map P Q (x ∷ xs) f h = (f x h.0, All-map P Q xs f h.1)

kill_named_lem :
    (named : ℕ → Bool) (m after : Machine)
    → kill_named named m ≡ some after
    → All (HasEnded after) (only named (contents m.sched.running_list))
      × All (HasEnded after) (on_levels named max_prio 0 m.sched.mlq_ready_queue)
      × (contents after.sched.running_list ≡ others named (contents m.sched.running_list))
unfolding kill_named
kill_named_lem named m after e =
    let run = run_list_loop named m.sched.running_list.size 0 m.sched.running_list [] in
    let levels = levels_loop named max_prio 0 m.sched.mlq_ready_queue run.1 in
    let removed = record m {
      sched = record (m.sched) { running_list = run.0; mlq_ready_queue = levels.0 };
    } in
    let (kept, first) = run_list_loop-contents named m.sched.running_list [] in
    let freed : free_all levels.1 (end_all levels.1 removed) ≡ some after =
      within (ltb max_prio (length levels.1)) e in
    let keeps = free_all-Keeps levels.1 (end_all levels.1 removed) after freed in
    let all : All (HasEnded after) levels.1 =
      All-map _ (HasEnded after) levels.1
        (λ q h. Keeps-HasEnded (end_all levels.1 removed) after q keeps h)
        (end_all_lem levels.1 removed) in
    let found : levels.1
        ≡ only named (contents m.sched.running_list)
          ++ on_levels named max_prio 0 m.sched.mlq_ready_queue =
      levels_loop-found named max_prio 0 m.sched.mlq_ready_queue run.1
      ∙ ap (λ (l : List ℕ). l ++ on_levels named max_prio 0 m.sched.mlq_ready_queue) first in
    let both = subst (All (HasEnded after)) found all in
    (
      All-left (HasEnded after) (only named (contents m.sched.running_list)) _ both,
      All-right (HasEnded after) (only named (contents m.sched.running_list)) _ both,
      ap (λ (s : Sched). contents s.running_list) (keeps.sched ∙ end_all-sched levels.1 removed)
          ∙ kept,
    )
  where
    within :
        (b : Bool) {r : Option Machine} {x : Machine}
        → (if b then none else r) ≡ some x
        → r ≡ some x
    within true h = cc
    within false h = h

-- When `__sys_killall` returns, it has read a name; every process of that name on the running list
-- or on a level is behind its last instruction; and the running list holds the processes of other
-- names that it held before, in their order.
pub sys_killall_lem :
    (malloc : Malloc) (m after : Machine) (p memrg : ℕ)
    → sys_killall malloc m p memrg ≡ some after
    → (name : List ℕ) × (start : Machine) × (read_name malloc proc_name_size 0 memrg m p
        ≡ some (name, start))
      × All
          (HasEnded after)
          (only (λ q. is_named name (start.pcb q)) (contents start.sched.running_list))
      × All
          (HasEnded after)
          (on_levels (λ q. is_named name (start.pcb q)) max_prio 0 start.sched.mlq_ready_queue)
      × (contents after.sched.running_list
          ≡ others (λ q. is_named name (start.pcb q)) (contents start.sched.running_list))
unfolding sys_killall
sys_killall_lem malloc m after p memrg e =
    let ((name, start), got, rest) =
      >>=-eq-some (read_name malloc proc_name_size 0 memrg m p) _ e in
    let (running, levels, kept) =
      kill_named_lem (λ q. is_named name (start.pcb q)) start after rest in
    (name, start, got, running, levels, kept)
