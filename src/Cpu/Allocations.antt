-- ===== src/Cpu/Allocations.antt =====
-- ALLOC and FREE on a machine whose processes are laid out in their areas.
use easter_egg.Common.{ℕ, ◌+◌, ◌/◌, ◌≤◌, ◌<◌, ◌≡◌, ◌⊎◌, inl, inr, refl, ap, ◌∙◌, arith}
use easter_egg.Common.{some, [], ◌∷◌, length, get_elem?, update, Status, ok}
use easter_egg.Common.{Bool-cases, ◌==◌}
use easter_egg.Pte.{paging_page_alignsz}
use easter_egg.Vm.{Area, Mm, Malloc, Caller}
use easter_egg.Vm.Limits.{with_area}
use easter_egg.Libmem
use easter_egg.Libmem.{liballoc, libfree}
use easter_egg.Libmem.Layout.{
  LaidOut, IsLaidOut, alloc-IsLaidOut, Frees, refused, freed, free-Frees,
}
use easter_egg.Process.{Machine, Inst, Opcode, caller_of, put_caller, put_pc}
use easter_egg.Cpu.{execute, run}
use easter_egg.Cpu.Isolation.{run_at}

-- A machine after a routine of memory management for process `p`, with the counter moved on.
abbrev stepped : Machine → ℕ → Caller → Machine
stepped m p c = put_caller (put_pc m p ((m.pcb p).pc + 1)) p c

stepped-LaidOut :
    (n : ℕ) (m : Machine) (p : ℕ) (c : Caller)
    → LaidOut c.mm
    → ((q : ℕ) → q < n → LaidOut (m.pcb q).mm)
    → (q : ℕ) → q < n
    → LaidOut ((stepped m p c).pcb q).mm
stepped-LaidOut n m p c new all q h = elim (Bool-cases (p == q)) [
  | inl same ↦ rw same new
  | inr other ↦ rw other (all q h)
]

stepped_pc : (m : Machine) (p : ℕ) (c : Caller) → ((stepped m p c).pcb p).pc ≡ (m.pcb p).pc + 1
stepped_pc m p c = ground arith

caller_at :
    (m : Machine) (p : ℕ) (v : Area)
    → (m.pcb p).mm.mmap ≡ v ∷ []
    → caller_of (put_pc m p ((m.pcb p).pc + 1)) p
      ≡ record { mm = with_area (m.pcb p).mm v; mram = m.mram; active_mswp = m.active_mswp }
caller_at m p v e =
    let kept : (update m.pcb p (record (m.pcb p) { pc = (m.pcb p).pc + 1 }) p).mm ≡ (m.pcb p).mm =
      ground arith in
    let area : (m.pcb p).mm ≡ with_area (m.pcb p).mm v =
      ap (λ l. record ((m.pcb p).mm) { mmap = l }) e in
    ap (λ (mm : Mm). record { mm = mm; mram = m.mram; active_mswp = m.active_mswp }) (kept ∙ area)

-- What `run` of ALLOC or FREE leaves of a machine with `n` processes.
abbrev pub Allocates : Malloc → ℕ → Machine → ℕ → Type 0
Allocates malloc n m p =
    (stat : Status) × (after : Machine) × (run malloc m p ≡ some (stat, after))
    × ((after.pcb p).pc ≡ (m.pcb p).pc + 1)
    × ((q : ℕ) → q < n → LaidOut (after.pcb q).mm)

run_alloc :
    (malloc : Malloc) (n : ℕ) (m : Machine) (p size rgid b c : ℕ)
    → get_elem? (m.pcb p).code (m.pcb p).pc
      ≡ some (record { opcode = Opcode.alloc; arg_0 = size; arg_1 = rgid; arg_2 = b; arg_3 = c })
    → rgid < 30
    → paging_page_alignsz size / 256 ≤ length m.mram.free_fp_list
    → p < n
    → ((q : ℕ) → q < n → LaidOut (m.pcb q).mm)
    → Allocates malloc n m p
unfolding execute liballoc
run_alloc malloc n m p size rgid b c there known enough live all =
    let (v, area, laid) = all p live in
    let (w, after, done, mmap, entry, new) =
      alloc-IsLaidOut malloc (m.pcb p).mm v m.mram m.active_mswp rgid size 0 laid known enough in
    (
      ok,
      stepped m p after,
      run_at malloc m p _ there ∙ rw (caller_at m p v area, done) refl,
      stepped_pc m p after,
      stepped-LaidOut n m p after (w, mmap, new) all,
    )

run_free :
    (malloc : Malloc) (n : ℕ) (m : Machine) (p rgid b c d : ℕ)
    → get_elem? (m.pcb p).code (m.pcb p).pc
      ≡ some (record { opcode = Opcode.free; arg_0 = rgid; arg_1 = b; arg_2 = c; arg_3 = d })
    → p < n
    → ((q : ℕ) → q < n → LaidOut (m.pcb q).mm)
    → Allocates malloc n m p
unfolding execute libfree
run_free malloc n m p rgid b c d there live all =
    let (v, area, laid) = all p live in
    from v area laid (free-Frees (m.pcb p).mm v m.mram m.active_mswp rgid laid)
  where
    ends :
        (v : Area) (stat : Status) (after : Caller)
        → (m.pcb p).mm.mmap ≡ v ∷ []
        → Libmem.free
            (record { mm = with_area (m.pcb p).mm v; mram = m.mram; active_mswp = m.active_mswp })
            0
            rgid
          ≡ some (stat, after)
        → LaidOut after.mm
        → Allocates malloc n m p
    ends v stat after area done new = (
      stat,
      stepped m p after,
      run_at malloc m p _ there ∙ rw (caller_at m p v area, done) refl,
      stepped_pc m p after,
      stepped-LaidOut n m p after new all,
    )

    from :
        (v : Area)
        → (m.pcb p).mm.mmap ≡ v ∷ []
        → IsLaidOut v (m.pcb p).mm.symrgtbl
        → Frees (m.pcb p).mm v m.mram m.active_mswp rgid (
            Libmem.free
              (record { mm = with_area (m.pcb p).mm v; mram = m.mram; active_mswp = m.active_mswp })
              0
              rgid)
        → Allocates malloc n m p
    from v area laid (refused why done) = ends v _ _ area done (v, refl, laid)
    from v area laid (freed w after h k done mmap free_list entry new) =
        ends v _ _ area done (w, mmap, new)

-- On a machine whose first `n` processes each have their regions laid out in one area, an ALLOC with
-- an entry of the table and enough free frames, or a FREE with any argument, is executed without a
-- fault by `run`: the counter moves on by one, and all these processes are laid out again.
pub run-Allocates :
    (malloc : Malloc) (n : ℕ) (m : Machine) (p : ℕ) (ins : Inst)
    → get_elem? (m.pcb p).code (m.pcb p).pc ≡ some ins
    → ((ins.opcode ≡ Opcode.alloc)
        × (ins.arg_1 < 30)
        × (paging_page_alignsz ins.arg_0 / 256 ≤ length m.mram.free_fp_list))
      ⊎ (ins.opcode ≡ Opcode.free)
    → p < n
    → ((q : ℕ) → q < n → LaidOut (m.pcb q).mm)
    → Allocates malloc n m p
run-Allocates malloc n m p ins there (inl (is, known, enough)) live all =
    run_alloc malloc n m p ins.arg_0 ins.arg_1 ins.arg_2 ins.arg_3
      (there ∙ ap (λ (op : Opcode). some (record ins { opcode = op })) is) known enough live all
run-Allocates malloc n m p ins there (inr is) live all =
    run_free malloc n m p ins.arg_0 ins.arg_1 ins.arg_2 ins.arg_3
      (there ∙ ap (λ (op : Opcode). some (record ins { opcode = op })) is) live all
