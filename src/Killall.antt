-- ===== src/Killall.antt =====
-- The system call `killall`, src/sys_killall.c: it ends every process of a given name. It takes no
-- lock, so it is one step only as long as no other thread uses the scheduler meanwhile. Messages
-- are left out.
pub mod Lists
pub mod Result
pub mod Effects
pub mod Guards
mod Tests
use easter_egg.Common.{ℕ, zero, suc, ◌+◌, ◌-◌, ◌*◌, ◌/◌, ◌%◌, ◌^◌, Bool, true, false, ◌&&◌}
use easter_egg.Common.{Option, none, some, List, [], ◌∷◌, ◌++◌, length, ltb, ◌==◌, ◌>>=◌}
use easter_egg.Common.{if◌then◌else◌, update, Status, ok}
use easter_egg.Queue.{Queue, shift_loop}
use easter_egg.Sched.{Sched, max_prio}
use easter_egg.Vm.{Malloc, area_at}
use easter_egg.Libmem
use easter_egg.Paging
use easter_egg.Process.{Machine, Pcb, Inst, Opcode, caller_of, put_caller, code_size, put_pc}

-- `char proc_name[100]`
abbrev pub proc_name_size : ℕ
proc_name_size = 100

-- The loop that reads the name byte by byte, with `rounds` places of `proc_name` left from index
-- `i` on; a byte that is stored behind the last place is a fault.
unfoldable pub read_name : Malloc → ℕ → ℕ → ℕ → Machine → ℕ → Option (List ℕ × Machine)
read_name malloc zero i memrg m p = none
read_name malloc (suc rounds) i memrg m p = Paging.libread malloc (caller_of m p) memrg i >>= λ r.
    let next = put_caller m p r.2 in
    if r.1 == 2 ^ 32 - 1
    then some ([], next)
    else (read_name malloc rounds (i + 1) memrg next p >>= λ rest.
        some ((r.1 % 256) ∷ rest.0, rest.1))

-- The text in an array of characters: it ends before the first zero.
unfoldable pub c_string : List ℕ → List ℕ
c_string [] = []
c_string (c ∷ cs) = let rest = c_string cs in if c == 0 then [] else c ∷ rest

-- `strcmp(…) == 0`
unfoldable pub same_text : List ℕ → List ℕ → Bool
same_text [] [] = true
same_text [] (d ∷ ds) = false
same_text (c ∷ cs) [] = false
same_text (c ∷ cs) (d ∷ ds) = (c == d) && same_text cs ds

-- The text behind the last `/`, 47, or `none` where there is none.
unfoldable pub after_slash : List ℕ → Option (List ℕ)
after_slash [] = none
after_slash (c ∷ cs) = elim (after_slash cs) [
  | some rest ↦ some rest
  | none ↦ (if c == 47 then some cs else none)
]

-- The test of both loops on a process.
unfoldable pub is_named : List ℕ → Pcb → Bool
is_named name pcb = elim (after_slash pcb.path) [
  | some base ↦ same_text base (c_string name)
  | none ↦ false
]

-- The loop over the running list from index `i` on: the list and the processes to kill.
unfoldable pub run_list_loop : (ℕ → Bool) → ℕ → ℕ → Queue → List ℕ → Queue × List ℕ
run_list_loop named zero i q killed = (q, killed)
run_list_loop named (suc rounds) i q killed =
    let p = q.proc i in
    let hit = named p in
    let shorter = record q { proc = shift_loop (q.size - 1 - i) i q.proc; size = q.size - 1 } in
    let rest =
      run_list_loop named rounds (if hit then i else i + 1) (if hit then shorter else q)
        (if hit then killed ++ p ∷ [] else killed) in
    if ltb i q.size then rest else (q, killed)

-- The same loop over a level, which moves every entry and not only those behind the hit.
unfoldable pub level_loop : (ℕ → Bool) → ℕ → ℕ → Queue → List ℕ → Queue × List ℕ
level_loop named zero j q killed = (q, killed)
level_loop named (suc rounds) j q killed =
    let p = q.proc j in
    let hit = named p in
    let shorter = record q { proc = shift_loop (q.size - 1) 0 q.proc; size = q.size - 1 } in
    let rest =
      level_loop named rounds (if hit then j else j + 1) (if hit then shorter else q)
        (if hit then killed ++ p ∷ [] else killed) in
    if ltb j q.size then rest else (q, killed)

-- The loop over the levels from `i` on.
unfoldable pub levels_loop : (ℕ → Bool) → ℕ → ℕ → (ℕ → Queue) → List ℕ → (ℕ → Queue) × List ℕ
unfolding level_loop
levels_loop named zero i mlq killed = (mlq, killed)
levels_loop named (suc rounds) i mlq killed =
    let (level, more) = level_loop named (mlq i).size 0 (mlq i) killed in
    levels_loop named rounds (i + 1) (update mlq i level) more

-- `proc->pc = proc->code->size` for each of them. No loop reads `pc`, so that it may be set behind
-- the two loops.
unfoldable pub end_all : List ℕ → Machine → Machine
end_all [] m = m
end_all (p ∷ ps) m = end_all ps (put_pc m p (code_size m p))

-- `__free` for each ALLOC among the instructions of process `p`, by its first argument.
unfoldable pub free_regions : List Inst → ℕ → Machine → Option Machine
free_regions [] p m = some m
free_regions (ins ∷ rest) p m = elim ins.opcode [
  | Opcode.alloc ↦ (do
    vma ← area_at (m.pcb p).mm (some 0)
    (status, freed) ← Libmem.free (caller_of m p) vma.vm_id ins.arg_0
    free_regions rest p (put_caller m p freed))
  | _ ↦ free_regions rest p m
]

unfoldable pub free_all : List ℕ → Machine → Option Machine
unfolding free_regions
free_all [] m = some m
free_all (p ∷ ps) m = free_regions (m.pcb p).code p m >>= λ next. free_all ps next

-- What follows the reading of the name. `struct pcb_t *kill_process[MAX_PRIO]` takes no more than
-- MAX_PRIO processes.
unfoldable pub kill_named : (ℕ → Bool) → Machine → Option Machine
kill_named named m =
    let (running, first) =
      run_list_loop named m.sched.running_list.size 0 m.sched.running_list [] in
    let (mlq, killed) = levels_loop named max_prio 0 m.sched.mlq_ready_queue first in
    let ended =
      end_all killed
        (record m { sched = record (m.sched) { running_list = running; mlq_ready_queue = mlq } }) in
    if ltb max_prio (length killed) then none else free_all killed ended

-- Returns 0 always.
unfoldable pub sys_killall : Malloc → Machine → ℕ → ℕ → Option Machine
sys_killall malloc m p memrg = do
  (name, start) ← read_name malloc proc_name_size 0 memrg m p
  kill_named (λ q. is_named name (start.pcb q)) start
