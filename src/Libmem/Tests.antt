-- ===== src/Libmem/Tests.antt =====
-- The theorems about regions at a concrete process.
use easter_egg.Common.{◌≡◌, ◌≢◌, arith, true, some, [], ◌∷◌, ok}
use easter_egg.Common.{if◌then◌else◌, ◌==◌}
use easter_egg.Memphy.{Memphy}
use easter_egg.Vm.{Area, Mm, Malloc, Caller, region}
use easter_egg.Vm.Limits.{with_area}
use easter_egg.Libmem.{get_free_vmrg_area, alloc, free}
use easter_egg.Libmem.Regions.{get_free_vmrg_area_fails}
use easter_egg.Libmem.Layout.{IsLaidOut, alloc-IsLaidOut, Frees, free-Frees}

abbrev ram : Memphy
ram = record {
  storage = λ a. a;
  maxsz = 1024;
  rdmflg = true;
  cursor = 0;
  free_fp_list = 2 ∷ 0 ∷ 3 ∷ [];
}

abbrev memory : Malloc
memory = record { pgd = λ _. 0; freerg = []; link_null = true; byte = 9 }

abbrev area : Area
area = record {
  vm_id = 0;
  vm_start = 0;
  vm_end = 256;
  sbrk = 256;
  vm_freerg_list = region 100 200 ∷ [];
}

-- Entry 4 names the bytes from 10 to 60.
abbrev mm : Mm
mm = record {
  pgd = λ _. 0;
  mmap = area ∷ [];
  symrgtbl = λ i. if i == 4 then region 10 60 else region 0 0;
  fifo_pgn = [];
}

laid : IsLaidOut area mm.symrgtbl
laid = record {
  below = (omega arith, tt);
  named = λ i h. ground arith;
  apart = λ i j hi hj ne. ground arith;
}

get_free_vmrg_area_fails_example :
    get_free_vmrg_area mm 0 50 (region 0 0) ≢ some (ok, region 100 150)
get_free_vmrg_area_fails_example = get_free_vmrg_area_fails mm 0 50 (region 0 0) (region 100 150)

alloc-IsLaidOut_example :
    (w : Area) × (after : Caller) × (alloc memory
        (record { mm = with_area mm area; mram = ram; active_mswp = ram })
        0
        7
        300
        0
      ≡ some (ok, 256, after))
    × (after.mm.mmap ≡ w ∷ [])
    × (after.mm.symrgtbl 7 ≡ region 256 556)
    × IsLaidOut w after.mm.symrgtbl
alloc-IsLaidOut_example =
    alloc-IsLaidOut memory mm area ram ram 7 300 0 laid (omega arith) (omega arith)

free-Frees_example :
    Frees mm area ram ram 4
      (free (record { mm = with_area mm area; mram = ram; active_mswp = ram }) 0 4)
free-Frees_example = free-Frees mm area ram ram 4 laid
