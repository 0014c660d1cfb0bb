-- ===== src/Libmem.antt =====
-- The regions of a process: the first half of src/libmem.c. `__alloc` and `__free` run under
-- `mmvm_lock`, each as one step. Names lose their leading underscores. A
-- write past `symrgtbl` is a fault.
pub mod Regions
pub mod Alloc
pub mod Layout
pub mod Tame
mod Tests
use easter_egg.Common.{ℕ, zero, suc, ◌+◌, ◌-◌, ◌*◌, ◌/◌, ◌%◌, ◌^◌, Bool, true, false}
use easter_egg.Common.{Option, none, some, List, [], ◌∷◌, get_elem?, set, ltb, leb, ◌==◌}
use easter_egg.Common.{if◌then◌else◌, update, Status, ok, minus_one, ◌>>=◌}
use easter_egg.Pte.{paging_page_alignsz, paging_max_pgn, paging_pgn, paging_offst, paging_fpn}
use easter_egg.Pte.{paging_page_present, paging_pte_swp, pte_set_fpn, pte_set_swap}
use easter_egg.Pte.{paging_addr_fpn_lobit}
use easter_egg.Memphy
use easter_egg.Memphy.{Memphy}
use easter_egg.Vm.{Region, Area, Mm, Caller, Malloc, region, get_vma_by_num, area_at, put_area}
use easter_egg.Vm.{enlist_pgn_node, inc_vma_limit}

abbrev pub paging_max_symtbl_sz : ℕ
paging_max_symtbl_sz = 30

-- The region goes to the list of the first area, whichever area it comes from.
unfoldable pub enlist_vm_freerg_list : Mm → Region → Option (Status × Mm)
enlist_vm_freerg_list mm rg = elim mm.mmap [
  | [] ↦ none
  | v ∷ vs ↦
      (if leb rg.rg_end rg.rg_start
        then some (minus_one, mm)
        else some
            (ok, record mm { mmap = record v { vm_freerg_list = rg ∷ v.vm_freerg_list } ∷ vs }))
]

-- The index of the entry, or `none` for a null result. Index 30 is let through; the table has
-- the entries 0 to 29.
unfoldable pub get_symrg_byid : ℕ → Option ℕ
get_symrg_byid rgid = if ltb paging_max_symtbl_sz rgid then none else some rgid

unfoldable pub symrg_at : Mm → ℕ → Option Region
symrg_at mm rgid = if ltb rgid paging_max_symtbl_sz then some (mm.symrgtbl rgid) else none

unfoldable pub put_symrg : Mm → ℕ → Region → Option Mm
put_symrg mm rgid rg =
    if ltb rgid paging_max_symtbl_sz
    then some (record mm { symrgtbl = update mm.symrgtbl rgid rg })
    else none

-- The loop of `get_free_vmrg_area` from the node in hand on, with `*newrg`: it returns -1 inside
-- the loop when it has passed the last node.
unfoldable pub free_vmrg_loop : List Region → ℕ → Region → Status × Region
free_vmrg_loop [] size newrg = (ok, newrg)
free_vmrg_loop (rgit ∷ rest) size newrg =
    let chosen =
      if leb size (rgit.rg_end - rgit.rg_start) then region rgit.rg_start rgit.rg_end else newrg in
    elim rest [ [] ↦ (minus_one, chosen) | _ ∷ _ ↦ free_vmrg_loop rest size chosen ]

-- The search in a list. `newrg` is set to the two values -1 of an `unsigned long` before it.
unfoldable pub free_vmrg_search : List Region → ℕ → Region → Status × Region
free_vmrg_search [] size newrg = (minus_one, newrg)
free_vmrg_search (rgit ∷ rest) size newrg =
    free_vmrg_loop (rgit ∷ rest) size (region (2 ^ 64 - 1) (2 ^ 64 - 1))

unfoldable pub free_vmrg_at : Mm → Option ℕ → ℕ → Region → Option (Status × Region)
free_vmrg_at mm none size newrg = some (minus_one, newrg)
free_vmrg_at mm (some p) size newrg =
    area_at mm (some p) >>= λ cur_vma. some (free_vmrg_search cur_vma.vm_freerg_list size newrg)

unfoldable pub get_free_vmrg_area : Mm → ℕ → ℕ → Region → Option (Status × Region)
get_free_vmrg_area mm vmaid size newrg =
    get_vma_by_num mm vmaid >>= λ place. free_vmrg_at mm place size newrg

-- `if (inc_sz > size)` of `__alloc`: the rest of the new pages goes to the free list, but for its
-- first byte.
unfoldable pub enlist_rest : Mm → ℕ → ℕ → ℕ → Option Mm
enlist_rest mm size inc_sz old_sbrk =
    if ltb size inc_sz
    then (enlist_vm_freerg_list mm (region (size + old_sbrk + 1) (inc_sz + old_sbrk)) >>= λ r.
        some r.1)
    else some mm

-- What `__alloc` does once the limit has been raised from `old_sbrk`.
unfoldable pub place_region : Caller → Option ℕ → ℕ → ℕ → ℕ → ℕ → Option Caller
place_region caller place rgid size inc_sz old_sbrk = do
  listed ← enlist_rest caller.mm size inc_sz old_sbrk
  named ← put_symrg listed rgid (region old_sbrk (old_sbrk + size))
  cur_vma ← area_at named place
  some (record caller {
    mm = put_area named place (record cur_vma { sbrk = cur_vma.sbrk + inc_sz });
  })

-- The status, `*alloc_addr` (given as it was before), the process's memory. A limit that cannot be
-- raised also gives 0. This is `__alloc` for a `size` that is not negative: from 2^31 - 255 on, where
-- the `int` or its rounding to pages overflows, the code does something else.
unfoldable pub alloc : Malloc → Caller → ℕ → ℕ → ℕ → ℕ → Option (Status × ℕ × Caller)
alloc malloc caller vmaid rgid size alloc_addr = do
  (found, rgnode) ← get_free_vmrg_area caller.mm vmaid size (region 0 0)
  elim found [
    | ok ↦ put_symrg caller.mm rgid rgnode >>= λ mm.
        some (ok, rgnode.rg_start, record caller { mm = mm })
    | _ ↦ get_vma_by_num caller.mm vmaid >>= λ place. elim place [
      | none ↦ some (minus_one, alloc_addr, caller)
      | some p ↦ area_at caller.mm (some p) >>= λ cur_vma.
          inc_vma_limit malloc caller vmaid (paging_page_alignsz size) >>= λ raised. elim raised.0 [
            | ok ↦
                place_region raised.1 (some p) rgid size (paging_page_alignsz size) cur_vma.sbrk
                >>= λ placed. some (ok, cur_vma.sbrk, placed)
            | _ ↦ some (ok, alloc_addr, raised.1)
          ]
    ]
  ]

-- `free`, with its tests in the order of the source.
unfoldable pub free : Caller → ℕ → ℕ → Option (Status × Caller)
free caller vmaid rgid =
    if leb paging_max_symtbl_sz rgid
    then some (minus_one, caller)
    else (let free_rg = caller.mm.symrgtbl rgid in
        if leb free_rg.rg_end free_rg.rg_start
        then some (minus_one, caller)
        else (get_vma_by_num caller.mm vmaid >>= λ place. elim place [
          | none ↦ some (minus_one, caller)
          | some _ ↦
              enlist_vm_freerg_list caller.mm (region free_rg.rg_start free_rg.rg_end) >>= λ r.
              put_symrg r.1 rgid (region 0 0) >>= λ mm. some (ok, record caller { mm = mm })
        ]))

unfoldable pub liballoc : Malloc → Caller → ℕ → ℕ → Option (Status × Caller)
liballoc malloc proc size reg_index = alloc malloc proc 0 reg_index size 0 >>= λ r. some (r.0, r.2)

unfoldable pub libfree : Caller → ℕ → Option (Status × Caller)
libfree proc reg_index = free proc 0 reg_index
