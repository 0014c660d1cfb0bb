-- ===== src/Print.antt =====
-- The routines of src/mm.c that print the lists of memory management and the page table, and
-- MEMPHY_dump of src/mm-memphy.c: the lines that they print, without the first one of a list, which
-- is its name, and the empty ones. A routine returns -1 where it is given a null list.
pub mod Table
mod Tests
use easter_egg.Common.{ℕ, zero, suc, ◌+◌, ◌-◌, ◌*◌, ◌%◌, ◌^◌, Option, some, List, [], ◌∷◌}
use easter_egg.Common.{Status, ok, minus_one, if◌then◌else◌, ◌==◌, ◌>>=◌}
use easter_egg.Pte.{paging_pgn}
use easter_egg.Memphy.{Memphy}
use easter_egg.Vm.{Region, Area, Caller, get_vma_by_num, area_at}

-- `NULL list`, `fp[%d]`, `rg[%ld->%ld]`, `va[%ld->%ld]`, `va[%d]-`, the line with the two ends of
-- `print_pgtbl`, and `%08ld: %08x`.
pub data Line : Type 0 where
  null_list : Line
  fp : ℕ → Line
  rg : ℕ → ℕ → Line
  vma : ℕ → ℕ → Line
  pgn : ℕ → Line
  pgtbl : ℕ → ℕ → Line
  entry : ℕ → ℕ → Line

-- The loops over the nodes.
unfoldable pub list_fp : List ℕ → List Line
list_fp [] = []
list_fp (fpn ∷ rest) = fp fpn ∷ list_fp rest

unfoldable pub print_list_fp : List ℕ → Status × List Line
print_list_fp [] = (minus_one, null_list ∷ [])
print_list_fp (fpn ∷ rest) = (ok, list_fp (fpn ∷ rest))

unfoldable pub list_rg : List Region → List Line
list_rg [] = []
list_rg (r ∷ rest) = rg r.rg_start r.rg_end ∷ list_rg rest

unfoldable pub print_list_rg : List Region → Status × List Line
print_list_rg [] = (minus_one, null_list ∷ [])
print_list_rg (r ∷ rest) = (ok, list_rg (r ∷ rest))

unfoldable pub list_vma : List Area → List Line
list_vma [] = []
list_vma (v ∷ rest) = vma v.vm_start v.vm_end ∷ list_vma rest

unfoldable pub print_list_vma : List Area → Status × List Line
print_list_vma [] = (minus_one, null_list ∷ [])
print_list_vma (v ∷ rest) = (ok, list_vma (v ∷ rest))

unfoldable pub list_pgn : List ℕ → List Line
list_pgn [] = []
list_pgn (p ∷ rest) = pgn p ∷ list_pgn rest

unfoldable pub print_list_pgn : List ℕ → Status × List Line
print_list_pgn [] = (minus_one, null_list ∷ [])
print_list_pgn (p ∷ rest) = (ok, list_pgn (p ∷ rest))

-- The loop of `print_pgtbl` from page `pgit` on; an entry has 4 bytes.
unfoldable pub list_pgd : (ℕ → ℕ) → ℕ → ℕ → List Line
list_pgd pgd zero pgit = []
list_pgd pgd (suc rounds) pgit = entry (pgit * 4) (pgd pgit) ∷ list_pgd pgd rounds (pgit + 1)

-- `end` is a `uint32_t`, and -1 stands for the end of the first area; a null pointer to it is
-- followed. The test of `caller` comes too late to matter.
unfoldable pub last_address : Caller → ℕ → Option ℕ
last_address caller end =
    if end == 2 ^ 32 - 1
    then (get_vma_by_num caller.mm 0 >>= λ place.
        area_at caller.mm place >>= λ cur_vma. some (cur_vma.vm_end % 2 ^ 32))
    else some end

unfoldable pub print_pgtbl : Caller → ℕ → ℕ → Option (Status × List Line)
print_pgtbl caller start end = last_address caller end >>= λ last. some (
  ok,
  pgtbl start last ∷ list_pgd caller.mm.pgd (paging_pgn last - paging_pgn start) (paging_pgn start),
)

-- Prints nothing.
unfoldable pub dump : Memphy → Status × List Line
dump mp = (ok, [])
