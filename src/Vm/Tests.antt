-- ===== src/Vm/Tests.antt =====
-- The theorems about frames and limits at a concrete process.
use easter_egg.Common.{◌≡◌, arith, true, some, [], ◌∷◌, ok, minus_one}
use easter_egg.Memphy.{Memphy}
use easter_egg.Vm.{Area, Mm, Malloc, Caller, region, alloc_pages_range}
use easter_egg.Vm.Mapping.{alloc_pages_range_short}
use easter_egg.Pte.{paging_pgn}
use easter_egg.Vm.{vmap_page_range}
use easter_egg.Vm.Entries.{IsMapped, vmap_page_range-IsMapped}
use easter_egg.Vm.Limits.{with_area}

abbrev ram : Memphy
ram = record {
  storage = λ a. a;
  maxsz = 1024;
  rdmflg = true;
  cursor = 0;
  free_fp_list = 2 ∷ 0 ∷ 3 ∷ [];
}

abbrev memory : Malloc
memory = record { pgd = λ _. 0; freerg = []; link_null = true; byte = 9 }

abbrev area : Area
area = record {
  vm_id = 0;
  vm_start = 0;
  vm_end = 256;
  sbrk = 256;
  vm_freerg_list = region 100 200 ∷ [];
}

abbrev mm : Mm
mm = record { pgd = λ _. 0; mmap = area ∷ []; symrgtbl = λ _. region 0 0; fifo_pgn = [] }

abbrev process : Caller
process = record { mm = with_area mm area; mram = ram; active_mswp = ram }

alloc_pages_range_short_example :
    alloc_pages_range true ram 4 [] ≡ some (minus_one, [], record ram { free_fp_list = [] })
alloc_pages_range_short_example = alloc_pages_range_short ram 4 [] (omega arith)

vmap_page_range-IsMapped_example :
    (after : Mm) × (vmap_page_range mm 512 2 (7 ∷ 4 ∷ []) (region 0 0)
      ≡ some (ok, region 512 1024, after))
    × IsMapped mm after 2 (7 ∷ 4 ∷ [])
unfolding paging_pgn
vmap_page_range-IsMapped_example =
    vmap_page_range-IsMapped mm 512 (7 ∷ 4 ∷ []) (region 0 0) (omega arith) (omega arith)
