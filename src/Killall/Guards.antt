-- ===== src/Killall/Guards.antt =====
-- What `__sys_killall` may do to the regions of processes and to the memory devices.
use mathlib.Core.Path.{subst}
use easter_egg.Common.{
  ℕ, zero, suc, ◌+◌, ◌-◌, Bool, ◌^◌, ◌≡◌, refl, sym, ap, arith, Option, none, some,
}
use easter_egg.Common.{List, [], ◌∷◌, length, ltb, >>=-eq-some, Bool-cases, inl, inr, ◌==◌, ==_iff}
use easter_egg.Memphy.Shape.{Shrinks, SameDevice, Shrinks-refl, Shrinks-trans, SameDevice-refl}
use easter_egg.Memphy.Shape.{SameDevice-trans}
use easter_egg.Sched.{max_prio}
use easter_egg.Vm.{Malloc, Caller, area_at}
use easter_egg.Libmem
use easter_egg.Libmem.Layout.{LaidOut}
use easter_egg.Libmem.Tame.{Tame}
use easter_egg.Libmem.Tame.Free.{free-Tame}
use easter_egg.Paging
use easter_egg.Paging.Tame.Access.{libread-Tame}
use easter_egg.Process.{Machine, Inst, Opcode, caller_of, put_caller, code_size, put_pc}
use easter_egg.Killall.{read_name, is_named, run_list_loop, levels_loop, proc_name_size}
use easter_egg.Killall.{end_all, free_regions, free_all, kill_named, sys_killall}

-- The memory of every process that is laid out stays laid out, and RAM loses frames at most.
pub record Guards (m after : Machine) : Type 0 where
  pub ram : Shrinks m.mram after.mram
  pub swap : SameDevice m.active_mswp after.active_mswp
  pub regions : (q : ℕ) → LaidOut (m.pcb q).mm → LaidOut (after.pcb q).mm

pub Guards-refl : (m : Machine) → Guards m m
Guards-refl m = record {
  ram = Shrinks-refl m.mram;
  swap = SameDevice-refl m.active_mswp;
  regions = λ q l. l;
}

pub Guards-trans : {a b c : Machine} → Guards a b → Guards b c → Guards a c
Guards-trans s t = record {
  ram = Shrinks-trans s.ram t.ram;
  swap = SameDevice-trans s.swap t.swap;
  regions = λ q l. t.regions q (s.regions q l);
}

-- The devices and the memory of every process are the same.
same-Guards :
    (m after : Machine)
    → after.mram ≡ m.mram
    → after.active_mswp ≡ m.active_mswp
    → ((q : ℕ) → (after.pcb q).mm ≡ (m.pcb q).mm)
    → Guards m after
same-Guards m after ram swap mm = record {
  ram = subst (Shrinks m.mram) (sym ram) (Shrinks-refl m.mram);
  swap = subst (SameDevice m.active_mswp) (sym swap) (SameDevice-refl m.active_mswp);
  regions = λ q l. subst LaidOut (sym (mm q)) l;
}

pub put_caller-Guards :
    (m : Machine) (p : ℕ) (c : Caller) → Tame (caller_of m p) c → Guards m (put_caller m p c)
put_caller-Guards m p c t = record {
  ram = t.ram;
  swap = t.swap;
  regions = λ q l. elim (Bool-cases (p == q)) [
    | inl same ↦ (let e : p ≡ q = (==_iff p q).0 same in rw same (t.regions (rw e l)))
    | inr other ↦ rw other l
  ];
}

pub put_pc-Guards : (m : Machine) (p pc : ℕ) → Guards m (put_pc m p pc)
put_pc-Guards m p pc = same-Guards m (put_pc m p pc) refl refl (λ q. ground arith)

read_name-Guards :
    (malloc : Malloc) (rounds i memrg : ℕ) (m : Machine) (p : ℕ) {r : List ℕ × Machine}
    → read_name malloc rounds i memrg m p ≡ some r
    → Guards m r.1
unfolding read_name
read_name-Guards malloc zero i memrg m p e = cc
read_name-Guards malloc (suc rounds) i memrg m p {r} e =
    let (x, got, more) = >>=-eq-some (Paging.libread malloc (caller_of m p) memrg i) _ e in
    let next = put_caller m p x.2 in
    let step = put_caller-Guards m p x.2 (libread-Tame malloc (caller_of m p) memrg i got) in
    elim (Bool-cases (x.1 == 2 ^ 32 - 1)) [
      | inl last ↦
          (let same : some ([], next) ≡ some r = rw last at more in
            let there : next ≡ r.1 = cc in subst (Guards m) there step)
      | inr other ↦
          (let (rest, read, done) =
              >>=-eq-some (read_name malloc rounds (i + 1) memrg next p) _ (rw other at more) in
            let there : rest.1 ≡ r.1 =
              ap (λ (o : Option (List ℕ × Machine)). elim o [ none ↦ next | some y ↦ y.1 ]) done in
            subst (Guards m) there (
              Guards-trans step
                (read_name-Guards malloc rounds (i + 1) memrg next p {r = rest} read)))
    ]

end_all-Guards : (ps : List ℕ) (m : Machine) → Guards m (end_all ps m)
unfolding end_all
end_all-Guards [] m = Guards-refl m
end_all-Guards (p ∷ ps) m =
    Guards-trans (put_pc-Guards m p (code_size m p))
      (end_all-Guards ps (put_pc m p (code_size m p)))

free_regions-Guards :
    (code : List Inst) (p : ℕ) (m after : Machine)
    → free_regions code p m ≡ some after
    → Guards m after
unfolding free_regions
free_regions-Guards [] p m after e =
    let same : m ≡ after = cc in subst (Guards m) same (Guards-refl m)
free_regions-Guards (ins ∷ rest) p m after e =
    by_opcode ins.opcode ins.arg_0 ins.arg_1 ins.arg_2 ins.arg_3 (free_regions-Guards rest p) e
  where
    by_opcode :
        (op : Opcode) (a0 a1 a2 a3 : ℕ)
        → ((n done : Machine) → free_regions rest p n ≡ some done → Guards n done)
        → free_regions
            (record { opcode = op; arg_0 = a0; arg_1 = a1; arg_2 = a2; arg_3 = a3 } ∷ rest)
            p
            m
          ≡ some after
        → Guards m after
    by_opcode Opcode.alloc a0 a1 a2 a3 ih h =
        let (vma, found, more) = >>=-eq-some (area_at (m.pcb p).mm (some 0)) _ h in
        let (r, freed, last) = >>=-eq-some (Libmem.free (caller_of m p) vma.vm_id a0) _ more in
        Guards-trans (put_caller-Guards m p r.1 (free-Tame (caller_of m p) vma.vm_id a0 freed))
          (ih _ after last)
    by_opcode Opcode.calc a0 a1 a2 a3 ih h = ih m after h
    by_opcode Opcode.free a0 a1 a2 a3 ih h = ih m after h
    by_opcode Opcode.read a0 a1 a2 a3 ih h = ih m after h
    by_opcode Opcode.write a0 a1 a2 a3 ih h = ih m after h
    by_opcode Opcode.syscall a0 a1 a2 a3 ih h = ih m after h

free_all-Guards : (ps : List ℕ) (m after : Machine) → free_all ps m ≡ some after → Guards m after
unfolding free_all
free_all-Guards [] m after e = let same : m ≡ after = cc in subst (Guards m) same (Guards-refl m)
free_all-Guards (p ∷ ps) m after e =
    let (next, freed, more) = >>=-eq-some (free_regions (m.pcb p).code p m) _ e in
    Guards-trans (free_regions-Guards (m.pcb p).code p m next freed)
      (free_all-Guards ps next after more)

kill_named-Guards :
    (named : ℕ → Bool) (m after : Machine) → kill_named named m ≡ some after → Guards m after
unfolding kill_named
kill_named-Guards named m after e =
    let run = run_list_loop named m.sched.running_list.size 0 m.sched.running_list [] in
    let levels = levels_loop named max_prio 0 m.sched.mlq_ready_queue run.1 in
    let shorter = record m {
      sched = record (m.sched) { running_list = run.0; mlq_ready_queue = levels.0 };
    } in
    elim (Bool-cases (ltb max_prio (length levels.1))) [
      | inl over ↦ (let bad : none ≡ some after = rw over at e in cc)
      | inr fits ↦ Guards-trans (same-Guards m shorter refl refl (λ q. refl)) (
          Guards-trans (end_all-Guards levels.1 shorter)
            (free_all-Guards levels.1 (end_all levels.1 shorter) after (rw fits at e)))
    ]

pub sys_killall-Guards :
    (malloc : Malloc) (m after : Machine) (p memrg : ℕ)
    → sys_killall malloc m p memrg ≡ some after
    → Guards m after
unfolding sys_killall
sys_killall-Guards malloc m after p memrg e =
    let (r, read, more) = >>=-eq-some (read_name malloc proc_name_size 0 memrg m p) _ e in
    Guards-trans (read_name-Guards malloc proc_name_size 0 memrg m p {r = r} read)
      (kill_named-Guards (λ q. is_named r.0 (r.1.pcb q)) r.1 after more)
