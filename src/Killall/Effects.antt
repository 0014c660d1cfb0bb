-- ===== src/Killall/Effects.antt =====
-- What `__sys_killall` may do to the priorities of processes and to the scheduler.
use mathlib.Core.Path.{subst}
use easter_egg.Common.{◌^◌, ℕ, zero, suc, ◌+◌, ◌-◌, ◌<◌, ◌≡◌, refl, ap, ◌∙◌, arith, Bool}
use easter_egg.Common.{List, [], length, ltb, Option, none, some, drop}
use easter_egg.Common.{>>=-eq-some, update, Bool-cases, inl, inr, ◌==◌, ==_iff}
use easter_egg.Queue.{Queue}
use easter_egg.Queue.Refine.{contents}
use easter_egg.Sched.{Sched, max_prio}
use easter_egg.Vm.{Malloc}
use easter_egg.Paging
use easter_egg.Process.{Machine, caller_of, put_caller}
use easter_egg.Killall.{read_name, is_named, run_list_loop, level_loop, levels_loop, proc_name_size}
use easter_egg.Killall.{end_all, kill_named, sys_killall}
use easter_egg.Killall.Lists.{only, level_loop-contents}
use easter_egg.Killall.Result.{Keeps, Keeps-trans, put_caller-Keeps, free_all-Keeps}
use easter_egg.Killall.Result.{end_all-prio, end_all-sched}

-- From each level some processes at the front may be gone.
abbrev pub Shortens : (ℕ → Queue) → (ℕ → Queue) → Type 0
Shortens mlq after = (q : ℕ) → (k : ℕ) × (contents (after q) ≡ drop k (contents (mlq q)))

-- The variables of the round that is being served.
abbrev pub SameRound : Sched → Sched → Type 0
SameRound s after =
    (after.slot ≡ s.slot)
    × (after.marked_prior ≡ s.marked_prior)
    × (after.flag ≡ s.flag)
    × (after.count ≡ s.count)

pub record Spares (m after : Machine) : Type 0 where
  pub prio : (q : ℕ) → (after.pcb q).prio ≡ (m.pcb q).prio
  pub levels : Shortens m.sched.mlq_ready_queue after.sched.mlq_ready_queue
  pub round : SameRound m.sched after.sched

same-Spares :
    (m after : Machine)
    → ((q : ℕ) → (after.pcb q).prio ≡ (m.pcb q).prio)
    → after.sched ≡ m.sched
    → Spares m after
same-Spares m after prio e = record {
  prio = prio;
  levels = λ q. (0, ap (λ (s : Sched). contents (s.mlq_ready_queue q)) e);
  round = (
    ap (λ (s : Sched). s.slot) e,
    ap (λ (s : Sched). s.marked_prior) e,
    ap (λ (s : Sched). s.flag) e,
    ap (λ (s : Sched). s.count) e,
  );
}

read_name-Keeps :
    (malloc : Malloc) (rounds i memrg : ℕ) (m : Machine) (p : ℕ) {r : List ℕ × Machine}
    → read_name malloc rounds i memrg m p ≡ some r
    → Keeps m r.1
unfolding read_name
read_name-Keeps malloc zero i memrg m p e = cc
read_name-Keeps malloc (suc rounds) i memrg m p {r} e =
    let (x, got, more) = >>=-eq-some (Paging.libread malloc (caller_of m p) memrg i) _ e in
    let next = put_caller m p x.2 in
    elim (Bool-cases (x.1 == 2 ^ 32 - 1)) [
      | inl last ↦
          (let same : some ([], next) ≡ some r = rw last at more in
            let there : next ≡ r.1 = cc in subst (Keeps m) there (put_caller-Keeps m p x.2))
      | inr other ↦
          (let (rest, read, done) =
              >>=-eq-some (read_name malloc rounds (i + 1) memrg next p) _ (rw other at more) in
            let there : rest.1 ≡ r.1 =
              ap (λ (o : Option (List ℕ × Machine)). elim o [ none ↦ next | some y ↦ y.1 ]) done in
            subst (Keeps m) there (
              Keeps-trans m next rest.1 (put_caller-Keeps m p x.2)
                (read_name-Keeps malloc rounds (i + 1) memrg next p {r = rest} read)))
    ]

levels_loop-below :
    (named : ℕ → Bool) (rounds i : ℕ) (mlq : ℕ → Queue) (killed : List ℕ) (q : ℕ)
    → q < i
    → (levels_loop named rounds i mlq killed).0 q ≡ mlq q
unfolding levels_loop
levels_loop-below named zero i mlq killed q h = refl
levels_loop-below named (suc rounds) i mlq killed q h =
    let level = level_loop named (mlq i).size 0 (mlq i) killed in
    levels_loop-below named rounds (i + 1) (update mlq i level.0) level.1 q (omega arith)
    ∙ ground arith

levels_loop-Shortens :
    (named : ℕ → Bool) (rounds i : ℕ) (mlq : ℕ → Queue) (killed : List ℕ)
    → Shortens mlq (levels_loop named rounds i mlq killed).0
unfolding levels_loop
levels_loop-Shortens named zero i mlq killed q = (0, refl)
levels_loop-Shortens named (suc rounds) i mlq killed q =
    let level = level_loop named (mlq i).size 0 (mlq i) killed in
    let next = update mlq i level.0 in
    elim (Bool-cases (i == q)) [
      | inl same ↦
          (let at : next q ≡ level.0 = rw same refl in
            let here : i ≡ q = (==_iff i q).0 same in
            (
              length (only named (contents (mlq i))),
              ap contents (levels_loop-below named rounds (i + 1) next level.1 q (omega arith) ∙ at)
                  ∙ (level_loop-contents named (mlq i) killed).0
                  ∙ ap (λ (j : ℕ). drop (length (only named (contents (mlq i)))) (contents (mlq j)))
                      here,
            ))
      | inr other ↦
          (let at : next q ≡ mlq q = rw other refl in
            let (k, rest) = levels_loop-Shortens named rounds (i + 1) next level.1 q in
            (k, rest ∙ ap (λ (l : Queue). drop k (contents l)) at))
    ]

kill_named-Spares :
    (named : ℕ → Bool) (m after : Machine) → kill_named named m ≡ some after → Spares m after
unfolding kill_named
kill_named-Spares named m after e =
    let run = run_list_loop named m.sched.running_list.size 0 m.sched.running_list [] in
    let levels = levels_loop named max_prio 0 m.sched.mlq_ready_queue run.1 in
    let shorter = record m {
      sched = record (m.sched) { running_list = run.0; mlq_ready_queue = levels.0 };
    } in
    let ended = end_all levels.1 shorter in
    elim (Bool-cases (ltb max_prio (length levels.1))) [
      | inl over ↦ (let bad : none ≡ some after = rw over at e in cc)
      | inr fits ↦
          (let kept = free_all-Keeps levels.1 ended after (rw fits at e) in
            let sched : after.sched ≡ shorter.sched = kept.sched ∙ end_all-sched levels.1 shorter in
            record {
              prio = λ q. kept.prio q ∙ end_all-prio levels.1 shorter q;
              levels = λ q.
                  let (k, short) =
                    levels_loop-Shortens named max_prio 0 m.sched.mlq_ready_queue run.1 q in
                  (k, ap (λ (s : Sched). contents (s.mlq_ready_queue q)) sched ∙ short);
              round =
                  (same-Spares shorter after (λ q. kept.prio q ∙ end_all-prio levels.1 shorter q)
                    sched).round;
            })
    ]

after_Keeps : (m next after : Machine) → Keeps m next → Spares next after → Spares m after
after_Keeps m next after k s = record {
  prio = λ q. s.prio q ∙ k.prio q;
  levels = λ q.
      let (n, short) = s.levels q in
      (n, short ∙ ap (λ (x : Sched). drop n (contents (x.mlq_ready_queue q))) k.sched);
  round =
      let (a, b, c, d) = s.round in
      let (u, v, w, x) = (same-Spares m next k.prio k.sched).round in (a ∙ u, b ∙ v, c ∙ w, d ∙ x);
}

pub Keeps-Spares : (m after : Machine) → Keeps m after → Spares m after
Keeps-Spares m after k = same-Spares m after k.prio k.sched

pub sys_killall-Spares :
    (malloc : Malloc) (m after : Machine) (p memrg : ℕ)
    → sys_killall malloc m p memrg ≡ some after
    → Spares m after
unfolding sys_killall
sys_killall-Spares malloc m after p memrg e =
    let (r, read, more) = >>=-eq-some (read_name malloc proc_name_size 0 memrg m p) _ e in
    after_Keeps m r.1 after (read_name-Keeps malloc proc_name_size 0 memrg m p {r = r} read)
      (kill_named-Spares (λ q. is_named r.0 (r.1.pcb q)) r.1 after more)
