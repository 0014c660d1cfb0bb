-- ===== src/Syscall/Tame.antt =====
-- What the system call `memmap` leaves of the regions of a process and the free frames of RAM.
use mathlib.Core.Path.{subst}
use easter_egg.Common.{ℕ, ◌%◌, ◌≡◌, ap, Option, none, some, >>=-eq-some, Bool-cases}
use easter_egg.Common.{inl, inr, ◌==◌}
use easter_egg.Memphy
use easter_egg.Memphy.{Memphy}
use easter_egg.Memphy.Shape.{Shrinks-refl, write-SameFrames}
use easter_egg.Memphy.Shape.{read-SameFrames, swap_cp_page-SameFrames}
use easter_egg.Vm.{Malloc, Caller, inc_vma_limit}
use easter_egg.Libmem.Tame.{Tame, Tame-refl, inc_vma_limit-Tame}
use easter_egg.Paging.Tame.{with_ram-Tame}
use easter_egg.Syscall.{Regs, mm_swap_page, sys_memmap, sysmem_inc_op, sysmem_swp_op}
use easter_egg.Syscall.{sysmem_io_read, sysmem_io_write}

mm_swap_page-Tame :
    (malloc : Malloc) (c : Caller) (vicfpn swpfpn : ℕ) {after : Caller}
    → mm_swap_page malloc c vicfpn swpfpn ≡ some after
    → Tame c after
unfolding mm_swap_page
mm_swap_page-Tame malloc c vicfpn swpfpn {after} e =
    let (mswp, copied, last) =
      >>=-eq-some (Memphy.swap_cp_page malloc.byte c.mram vicfpn c.active_mswp swpfpn) _ e in
    let s = swap_cp_page-SameFrames malloc.byte c.mram vicfpn c.active_mswp swpfpn copied in
    let same : record c { active_mswp = mswp } ≡ after =
      ap (λ (o : Option Caller). elim o [ none ↦ c | some y ↦ y ]) last in
    subst (Tame c) same (record {
      ram = Shrinks-refl c.mram;
      swap = record { maxsz = s.maxsz; rdmflg = s.rdmflg };
      regions = λ l. l;
    })

pub sys_memmap-Tame :
    (malloc : Malloc) (c : Caller) (regs : Regs) {r : Regs × Caller}
    → sys_memmap malloc c regs ≡ some r
    → Tame c r.1
unfolding sys_memmap
sys_memmap-Tame malloc c regs {r} e = elim (Bool-cases (regs.a1 == sysmem_inc_op)) [
  | inl inc ↦
      (let (x, done, last) =
          >>=-eq-some (inc_vma_limit malloc c regs.a2 regs.a3) _ (rw (inc, sys_memmap) at e) in
        subst (Tame c) (ap memory last) (inc_vma_limit-Tame malloc c regs.a2 regs.a3 done))
  | inr other ↦ elim (Bool-cases (regs.a1 == sysmem_swp_op)) [
    | inl swp ↦
        (let (x, done, last) =
            >>=-eq-some (mm_swap_page malloc c regs.a2 regs.a3) _
              (rw (other, swp, sys_memmap) at e) in
          subst (Tame c) (ap memory last) (mm_swap_page-Tame malloc c regs.a2 regs.a3 done))
    | inr no_swp ↦ elim (Bool-cases (regs.a1 == sysmem_io_read)) [
      | inl reads ↦
          (let (x, done, last) =
              >>=-eq-some (Memphy.read c.mram regs.a2 malloc.byte) _
                (rw (other, no_swp, reads, sys_memmap) at e) in
            subst (Tame c) (ap memory last)
              (with_ram-Tame c x.2 (read-SameFrames c.mram regs.a2 malloc.byte done)))
      | inr no_read ↦ elim (Bool-cases (regs.a1 == sysmem_io_write)) [
        | inl writes ↦
            (let (x, done, last) =
                >>=-eq-some (Memphy.write c.mram regs.a2 (regs.a3 % 256)) _
                  (rw (other, no_swp, no_read, writes, sys_memmap) at e) in
              subst (Tame c) (ap memory last)
                (with_ram-Tame c x.1 (write-SameFrames c.mram regs.a2 (regs.a3 % 256) done)))
        | inr nothing ↦
            subst (Tame c) (ap memory (rw (other, no_swp, no_read, nothing, sys_memmap) at e))
              (Tame-refl c)
      ]
    ]
  ]
]
  where
    memory : Option (Regs × Caller) → Caller
    memory o = elim o [ none ↦ c | some y ↦ y.1 ]
