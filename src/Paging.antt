-- ===== src/Paging.antt =====
-- Pages on demand and the bytes of a region: the second half of src/libmem.c. `find_victim_page` runs
-- under `mmvm_lock`. Names lose their leading underscores.
pub mod Victim
pub mod Pages
pub mod Tame
mod Tests
use easter_egg.Common.{ℕ, zero, suc, ◌+◌, ◌-◌, ◌*◌, ◌/◌, ◌%◌, ◌^◌, Bool, true, false}
use easter_egg.Common.{Option, none, some, List, [], ◌∷◌, get_elem?, set, ltb, leb, ◌==◌}
use easter_egg.Common.{if◌then◌else◌, update, Status, ok, minus_one, ◌>>=◌}
use easter_egg.Pte.{paging_page_alignsz, paging_max_pgn, paging_pgn, paging_offst, paging_fpn}
use easter_egg.Pte.{paging_page_present, paging_pte_swp, pte_set_fpn, pte_set_swap}
use easter_egg.Pte.{paging_addr_fpn_lobit}
use easter_egg.Memphy
use easter_egg.Memphy.{Memphy}
use easter_egg.Vm.{Region, Area, Mm, Caller, Malloc, region, get_vma_by_num, area_at, put_area}
use easter_egg.Vm.{enlist_pgn_node, inc_vma_limit}
use easter_egg.Libmem.{get_symrg_byid, symrg_at}
use easter_egg.Print.{print_pgtbl}

-- The walk of `find_victim_page` to the last node: its page, and the list without it.
unfoldable pub last_page : ℕ → List ℕ → ℕ × List ℕ
last_page pg [] = (pg, [])
last_page pg (next ∷ rest) = let (victim, kept) = last_page next rest in (victim, pg ∷ kept)

-- The status, `*retpgn` (given as it was before), the list `fifo_pgn`.
unfoldable pub find_victim_page : List ℕ → ℕ → Status × ℕ × List ℕ
find_victim_page fifo retpgn = elim fifo [
  | [] ↦ (minus_one, retpgn, [])
  | pg ∷ rest ↦ (let (victim, kept) = last_page pg rest in (ok, victim, kept))
]

-- The part of `pg_getpage` that brings page `pgn` in for the victim `vicpgn`. The entry of `pgn`
-- is changed in a local variable only.
unfoldable pub swap_in : Malloc → Caller → ℕ → ℕ → ℕ → Option (Status × ℕ × Caller)
swap_in malloc caller pgn fpn vicpgn =
    let pte = caller.mm.pgd pgn in
    let tgtfpn = paging_pte_swp pte in
    let vicpte = caller.mm.pgd vicpgn in
    let vicfpn = paging_fpn vicpte in
    let (got, swpfpn, mswp) = Memphy.get_freefp caller.active_mswp 0 in
    if leb paging_max_pgn vicpgn
    then some (minus_one, fpn, caller)
    else if paging_page_present vicpte == 0
    then some (minus_one, fpn, caller)
    else elim got [
      | ok ↦ (do
        swapped_out ← Memphy.swap_cp_page malloc.byte caller.mram vicfpn mswp swpfpn
        ram ← Memphy.swap_cp_page malloc.byte swapped_out tgtfpn caller.mram vicfpn
        some (
          ok,
          paging_fpn (pte_set_fpn pte vicfpn),
          record caller {
            mm = record (caller.mm) {
              pgd = update caller.mm.pgd vicpgn (pte_set_swap vicpte 0 swpfpn);
              fifo_pgn = enlist_pgn_node caller.mm.fifo_pgn pgn;
            };
            mram = ram;
            active_mswp = Memphy.put_freefp swapped_out tgtfpn;
          },
        ))
      | _ ↦ some (minus_one, fpn, caller)
    ]

-- The status, `*fpn` (given as it was before), the process's memory; `mm` is `caller->mm` in
-- every call.
unfoldable pub pg_getpage : Malloc → Caller → ℕ → ℕ → Option (Status × ℕ × Caller)
pg_getpage malloc caller pgn fpn =
    let pte = caller.mm.pgd pgn in
    let (found, vicpgn, fifo) = find_victim_page caller.mm.fifo_pgn 0 in
    if leb paging_max_pgn pgn
    then some (minus_one, fpn, caller)
    else if paging_page_present pte == 0
    then elim found [
      | ok ↦
          swap_in malloc (record caller { mm = record (caller.mm) { fifo_pgn = fifo } }) pgn fpn
            vicpgn
      | _ ↦ some (minus_one, fpn, caller)
    ]
    else some (ok, paging_fpn pte, caller)

-- `fpn << PAGING_ADDR_FPN_LOBIT`, plus the offset.
abbrev pub phys_addr : ℕ → ℕ → ℕ
phys_addr fpn off = fpn * 2 ^ paging_addr_fpn_lobit + off

-- The status, `*data` (given as it was before), the process's memory.
unfoldable pub pg_getval : Malloc → Caller → ℕ → ℕ → Option (Status × ℕ × Caller)
pg_getval malloc caller addr byte = do
  (got, fpn, paged) ←
      pg_getpage malloc caller (paging_pgn addr) (paging_fpn (caller.mm.pgd (paging_pgn addr)))
  elim got [
    | ok ↦ Memphy.read paged.mram (phys_addr fpn (paging_offst addr)) byte >>= λ r. elim r.0 [
      | ok ↦ some (ok, r.1, record paged { mram = r.2 })
      | _ ↦ some (minus_one, r.1, record paged { mram = r.2 })
    ]
    | _ ↦ some (minus_one, byte, paged)
  ]

unfoldable pub pg_setval : Malloc → Caller → ℕ → ℕ → Option (Status × Caller)
pg_setval malloc caller addr value = do
  (got, fpn, paged) ← pg_getpage malloc caller (paging_pgn addr) 0
  elim got [
    | ok ↦ Memphy.write paged.mram (phys_addr fpn (paging_offst addr)) value >>= λ r. elim r.0 [
      | ok ↦ some (ok, record paged { mram = r.1 })
      | _ ↦ some (minus_one, record paged { mram = r.1 })
    ]
    | _ ↦ some (minus_one, paged)
  ]

-- The address of a byte of a region, cut to the `int` that is passed on.
abbrev pub region_addr : Region → ℕ → ℕ
region_addr currg offset = (currg.rg_start + offset) % 2 ^ 32

unfoldable pub read : Malloc → Caller → ℕ → ℕ → ℕ → ℕ → Option (Status × ℕ × Caller)
read malloc caller vmaid rgid offset byte = get_vma_by_num caller.mm vmaid >>= λ place.
    elim (get_symrg_byid rgid) [
      | none ↦ some (minus_one, byte, caller)
      | some id ↦ elim place [
        | none ↦ some (minus_one, byte, caller)
        | some _ ↦ symrg_at caller.mm id >>= λ currg.
            pg_getval malloc caller (region_addr currg offset) byte
      ]
    ]

unfoldable pub write : Malloc → Caller → ℕ → ℕ → ℕ → ℕ → Option (Status × Caller)
write malloc caller vmaid rgid offset value = get_vma_by_num caller.mm vmaid >>= λ place.
    elim (get_symrg_byid rgid) [
      | none ↦ some (minus_one, caller)
      | some id ↦ elim place [
        | none ↦ some (minus_one, caller)
        | some _ ↦ symrg_at caller.mm id >>= λ currg.
            pg_setval malloc caller (region_addr currg offset) value
      ]
    ]

-- A `BYTE` is a signed `char`: as a `uint32_t` it is extended by its sign.
abbrev pub sign_extend : ℕ → ℕ
sign_extend byte = if leb 128 byte then byte + (2 ^ 32 - 256) else byte

-- The status, `*destination`, the process's memory. What is printed is dropped, but printing the page
-- table follows a pointer to the first area, in `libwrite` before the write. The pointer
-- `destination` is never null.
unfoldable pub libread : Malloc → Caller → ℕ → ℕ → Option (Status × ℕ × Caller)
libread malloc proc source offset = read malloc proc 0 source offset malloc.byte >>= λ r. elim r.0 [
  | ok ↦ print_pgtbl r.2 0 (2 ^ 32 - 1) >>= λ _. some (ok, sign_extend r.1, r.2)
  | _ ↦ some (minus_one, 2 ^ 32 - 1, r.2)
]

-- `data` is given as the 8 bits of a `BYTE`.
unfoldable pub libwrite : Malloc → Caller → ℕ → ℕ → ℕ → Option (Status × Caller)
libwrite malloc proc byte destination offset =
    print_pgtbl proc 0 (2 ^ 32 - 1) >>= λ _. write malloc proc 0 destination offset byte

-- The loop of `free_pcb_memph` from page `pagenum` on: a page that is not present gives its frame
-- field to RAM, a page that is present gives its swap field to the swap device.
unfoldable pub free_pcb_loop : ℕ → ℕ → Caller → Caller
free_pcb_loop zero pagenum caller = caller
free_pcb_loop (suc rounds) pagenum caller =
    let pte = caller.mm.pgd pagenum in
    free_pcb_loop rounds (pagenum + 1) (
      if paging_page_present pte == 0
      then record caller { mram = Memphy.put_freefp caller.mram (paging_fpn pte) }
      else record caller {
        active_mswp = Memphy.put_freefp caller.active_mswp (paging_pte_swp pte);
      })

-- Returns 0 always.
unfoldable pub free_pcb_memph : Caller → Caller
free_pcb_memph caller = free_pcb_loop paging_max_pgn 0 caller
