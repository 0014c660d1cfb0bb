-- ===== src/Libmem/Regions.antt =====
-- The search for a free region.
use easter_egg.Common.{ℕ, ◌≡◌, ◌≢◌, refl, List, [], ◌∷◌, some, none, Option, ok, minus_one}
use easter_egg.Common.{>>=-eq-some}
use easter_egg.Vm.{Region, Mm, get_vma_by_num, area_at}
use easter_egg.Libmem.{free_vmrg_loop, free_vmrg_search, free_vmrg_at, get_free_vmrg_area}

free_vmrg_loop_fails :
    (r : Region) (rest : List Region) (size : ℕ) (newrg : Region)
    → (free_vmrg_loop (r ∷ rest) size newrg).0 ≡ minus_one
unfolding free_vmrg_loop
free_vmrg_loop_fails r [] size newrg = refl
free_vmrg_loop_fails r (s ∷ rest) size newrg = free_vmrg_loop_fails s rest size _

pub search_fails :
    (l : List Region) (size : ℕ) (newrg : Region) → (free_vmrg_search l size newrg).0 ≡ minus_one
unfolding free_vmrg_search
search_fails [] size newrg = refl
search_fails (r ∷ rest) size newrg = free_vmrg_loop_fails r rest size _

search_at_fails :
    (mm : Mm) (place : Option ℕ) (size : ℕ) (newrg out : Region)
    → free_vmrg_at mm place size newrg ≢ some (ok, out)
unfolding free_vmrg_at
search_at_fails mm none size newrg out h = cc
search_at_fails mm (some p) size newrg out h =
    let (vma, e, found) = >>=-eq-some (area_at mm (some p)) _ h in
    cc (search_fails vma.vm_freerg_list size newrg)

-- `get_free_vmrg_area` never returns 0, whatever the free list holds: it leaves the loop with -1
-- at the last node, also when a region of enough bytes was found.
pub get_free_vmrg_area_fails :
    (mm : Mm) (vmaid size : ℕ) (newrg out : Region)
    → get_free_vmrg_area mm vmaid size newrg ≢ some (ok, out)
unfolding get_free_vmrg_area
get_free_vmrg_area_fails mm vmaid size newrg out h =
    let (place, e, found) = >>=-eq-some (get_vma_by_num mm vmaid) _ h in
    search_at_fails mm place size newrg out found
