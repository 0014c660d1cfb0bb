-- ===== src/Vm.antt =====
-- The virtual memory of a process: include/os-mm.h, src/mm-vm.c and the mapping routines of
-- src/mm.c. A linked list is a list of its nodes; an area is known by its place in the list
-- `mmap`. Sizes and addresses are natural numbers: an `int` that would be negative or overflow is
-- outside the model. A fault, `none`, is a null pointer followed or a write outside the page table.
pub mod Mapping
pub mod Limits
pub mod Entries
pub mod Shape
mod Tests
use easter_egg.Common.{ℕ, zero, suc, ◌+◌, ◌-◌, ◌*◌, ◌/◌, ◌^◌, Bool, true, false, not, ◌||◌}
use easter_egg.Common.{Option, none, some, List, [], ◌∷◌, ◌++◌, get_elem?, set, ltb, leb, ◌==◌}
use easter_egg.Common.{if◌then◌else◌, update, Status, ok, minus_one, ◌>>=◌}
use easter_egg.Pte.{paging_pagesz, paging_page_alignsz, paging_max_pgn, paging_pgn, pte_set_fpn}
use easter_egg.Memphy
use easter_egg.Memphy.{Memphy}

-- `struct vm_rg_struct`, `struct vm_area_struct`, `struct mm_struct`
pub record Region : Type 0 where
  pub rg_start : ℕ
  pub rg_end : ℕ

pub record Area : Type 0 where
  pub vm_id : ℕ
  pub vm_start : ℕ
  pub vm_end : ℕ
  pub sbrk : ℕ
  pub vm_freerg_list : List Region

pub record Mm : Type 0 where
  pub pgd : ℕ → ℕ
  pub mmap : List Area
  pub symrgtbl : ℕ → Region
  pub fifo_pgn : List ℕ

-- The fields of a `struct pcb_t` that memory management reads: they are set before the process is
-- scheduled, so the tests that they are not null are left out.
pub record Caller : Type 0 where
  pub mm : Mm
  pub mram : Memphy
  pub active_mswp : Memphy

-- What memory holds that `malloc` has given and nobody has set: a page table, the list pointer
-- of an area, whether the link of a frame node is null, and a byte.
pub record Malloc : Type 0 where
  pub pgd : ℕ → ℕ
  pub freerg : List Region
  pub link_null : Bool
  pub byte : ℕ

abbrev pub region : ℕ → ℕ → Region
region start end = record { rg_start = start; rg_end = end }

-- The walk of `get_vma_by_num` from the area at `place` on. It reads `vm_id` of the next area
-- before it tests for the end of the list.
unfoldable pub walk : List Area → ℕ → ℕ → Option ℕ
walk [] vmaid place = none
walk (v ∷ vs) vmaid place =
    let rest = walk vs vmaid (place + 1) in if ltb v.vm_id vmaid then rest else some place

-- The place of the area, or `some none` for a null result. `vmaid` is the bit pattern of an `int`:
-- one that is negative is below every `vm_id`, as 0 is.
unfoldable pub get_vma_by_num : Mm → ℕ → Option (Option ℕ)
get_vma_by_num mm vmaid = elim mm.mmap [
  | [] ↦ some none
  | v ∷ vs ↦
      walk (v ∷ vs) (if ltb vmaid (2 ^ 31) then vmaid else 0) 0 >>= λ place. some (some place)
]

-- `cur_vma->…` for an area found: a null area is a fault.
unfoldable pub area_at : Mm → Option ℕ → Option Area
area_at mm none = none
area_at mm (some place) = get_elem? mm.mmap place

unfoldable pub put_area : Mm → Option ℕ → Area → Mm
put_area mm none v = mm
put_area mm (some place) v = record mm { mmap = set mm.mmap place v }

-- Only the two boundaries of the new region are used.
unfoldable pub get_vm_area_node_at_brk : Mm → ℕ → ℕ → Option Region
get_vm_area_node_at_brk mm vmaid size = do
  place ← get_vma_by_num mm vmaid
  cur_vma ← area_at mm place
  some (region cur_vma.sbrk (cur_vma.sbrk + size))

unfoldable pub overlap_loop : List Region → ℕ → ℕ → Status
overlap_loop [] vmastart vmaend = ok
overlap_loop (curr ∷ rest) vmastart vmaend =
    if not (leb vmaend curr.rg_start || leb curr.rg_end vmastart)
    then minus_one
    else overlap_loop rest vmastart vmaend

unfoldable pub validate_overlap_vm_area : Mm → ℕ → ℕ → ℕ → Option Status
validate_overlap_vm_area mm vmaid vmastart vmaend = get_vma_by_num mm vmaid >>= λ place.
    elim place [
      | none ↦ some minus_one
      | some p ↦
          area_at mm (some p) >>= λ vma. some (overlap_loop vma.vm_freerg_list vmastart vmaend)
    ]

-- Returns 0 always.
unfoldable pub enlist_pgn_node : List ℕ → ℕ → List ℕ
enlist_pgn_node plist pgn = pgn ∷ plist

unfoldable pub enlist_vm_rg_node : List Region → Region → List Region
enlist_vm_rg_node rglist rgnode = rgnode ∷ rglist

-- The loop of `vmap_page_range` over the frames that are left; it gives the end of the region.
unfoldable pub vmap_loop : List ℕ → ℕ → ℕ → ℕ → ℕ → Mm → Option (ℕ × Mm)
vmap_loop [] pgn pgit pgnum addr mm = some (addr, mm)
vmap_loop (fpn ∷ frames) pgn pgit pgnum addr mm =
    let mapped = record mm {
      pgd = update mm.pgd (pgn + pgit) (pte_set_fpn 0 fpn);
      fifo_pgn = enlist_pgn_node mm.fifo_pgn (pgn + pgit);
    } in
    let rest = vmap_loop frames pgn (pgit + 1) pgnum addr mapped in
    if leb paging_max_pgn (pgn + pgit)
    then none
    else if pgit == pgnum - 1
    then some (addr + pgnum * paging_pagesz, mapped)
    else rest

-- The status, `*ret_rg` (given as it was before), the memory map.
unfoldable pub vmap_page_range : Mm → ℕ → ℕ → List ℕ → Region → Option (Status × Region × Mm)
vmap_page_range mm addr pgnum frames ret_rg =
    if pgnum == 0 then some (minus_one, ret_rg, mm) else (do
      (rg_end, mapped) ← vmap_loop frames (paging_pgn addr) 0 pgnum addr mm
      some (ok, region addr rg_end, mapped))

-- The loop of `alloc_pages_range`: `got` are the frame numbers in the local list. When no frame is
-- left, the rollback tests the link of the last node, which nobody has set: if it is null the
-- rollback does nothing, otherwise it runs off the list.
unfoldable pub alloc_pages_loop : Bool → ℕ → List ℕ → Memphy → Option (Status × List ℕ × Memphy)
alloc_pages_loop link_null zero got mram = some (ok, got, mram)
alloc_pages_loop link_null (suc rounds) got mram =
    let (status, fpn, rest) = Memphy.get_freefp mram 0 in
    elim status [
      | ok ↦ alloc_pages_loop link_null rounds (got ++ fpn ∷ []) rest
      | _ ↦ (if link_null then some (minus_one, got, mram) else none)
    ]

-- `*frm_lst` is an argument and a result: the routine never writes it.
unfoldable pub alloc_pages_range : Bool → Memphy → ℕ → List ℕ → Option (Status × List ℕ × Memphy)
alloc_pages_range link_null mram req_pgnum frm_lst = do
  (status, got, rest) ← alloc_pages_loop link_null req_pgnum [] mram
  some (status, frm_lst, rest)

-- The status of `vmap_page_range` is dropped.
unfoldable pub vm_map_ram : Malloc → Caller → ℕ → ℕ → Region → Option (Status × Region × Caller)
vm_map_ram malloc caller mapstart incpgnum ret_rg = do
  (status, frm_lst, mram) ← alloc_pages_range malloc.link_null caller.mram incpgnum []
  elim status [
    | ok ↦ vmap_page_range caller.mm mapstart incpgnum frm_lst ret_rg >>= λ r.
        some (ok, r.1, record caller { mm = r.2; mram = mram })
    | _ ↦ some (minus_one, ret_rg, record caller { mram = mram })
  ]

-- `struct mm_struct` is given as `malloc` gave it: `symrgtbl` and `fifo_pgn` are not set. The
-- list of the first area starts as its uninitialised pointer leads.
unfoldable pub init_mm : Malloc → Mm → Status × Mm
init_mm malloc mm =
    let vma0 : Area = record {
      vm_id = 0;
      vm_start = 0;
      vm_end = 0;
      sbrk = 0;
      vm_freerg_list = enlist_vm_rg_node malloc.freerg (region 0 0);
    } in
    (ok, record mm { pgd = malloc.pgd; mmap = vma0 ∷ [] })

-- The area grows before the frames are taken, and stays so if they run out.
unfoldable pub inc_vma_limit : Malloc → Caller → ℕ → ℕ → Option (Status × Caller)
inc_vma_limit malloc caller vmaid inc_sz =
    let inc_amt = paging_page_alignsz inc_sz in
    let incnumpage = inc_amt / paging_pagesz in
    do
      area ← get_vm_area_node_at_brk caller.mm vmaid inc_sz
      place ← get_vma_by_num caller.mm vmaid
      cur_vma ← area_at caller.mm place
      valid ← validate_overlap_vm_area caller.mm vmaid area.rg_start area.rg_end
      elim valid [
        | minus_one ↦ some (minus_one, caller)
        | _ ↦
            (let grown = record cur_vma { vm_end = cur_vma.vm_end + inc_sz } in
              vm_map_ram malloc (record caller { mm = put_area caller.mm place grown })
                cur_vma.vm_end incnumpage (region 0 0)
              >>= λ r. some (r.0, r.2))
      ]
