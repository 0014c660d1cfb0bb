-- ===== src/Paging/Tests.antt =====
-- The theorems about pages at a concrete process.
use easter_egg.Common.{◌≡◌, refl, arith, true, some, [], ◌∷◌, ok, update, ◌>>=◌}
use easter_egg.Common.{if◌then◌else◌, ◌==◌}
use easter_egg.Pte.{pte_set_swap, paging_page_present, paging_pte_swp, paging_fpn, paging_pgn}
use easter_egg.Pte.{paging_offst}
use easter_egg.Memphy.{Memphy}
use easter_egg.Memphy.Copy.{copied}
use easter_egg.Vm.{Mm, Malloc, Caller, region}
use easter_egg.Paging.{pg_getpage, pg_getval, pg_setval}
use easter_egg.Paging.Pages.{getval-setval, getpage_swaps}

abbrev ram : Memphy
ram = record { storage = λ a. a; maxsz = 1024; rdmflg = true; cursor = 0; free_fp_list = [] }

abbrev swap : Memphy
swap = record { storage = λ _. 3; maxsz = 1024; rdmflg = true; cursor = 0; free_fp_list = 2 ∷ [] }

abbrev memory : Malloc
memory = record { pgd = λ _. 0; freerg = []; link_null = true; byte = 9 }

-- Page 0 is in frame 3, page 1 in frame 1, and page 2 in frame 1 of the swap device.
abbrev mm : Mm
mm = record {
  pgd = λ i. if i == 0 then 0x80000003 else if i == 1 then 0x80000001 else if i == 2 then 32 else 0;
  mmap = [];
  symrgtbl = λ _. region 0 0;
  fifo_pgn = 1 ∷ 0 ∷ [];
}

abbrev process : Caller
process = record { mm = mm; mram = ram; active_mswp = swap }

getval-setval_example :
    (pg_setval memory process 0x105 77 >>= λ r. pg_getval memory r.1 0x105 0)
    ≡ some (ok, 77, record process { mram = record ram { storage = update ram.storage 0x105 77 } })
unfolding paging_page_present paging_fpn paging_pgn paging_offst
getval-setval_example =
    getval-setval memory process 0x105 0x105 77 0 (ground arith) (ground arith) refl (omega arith)
      (omega arith)

getpage_swaps_example :
    (after : Caller) × (pg_getpage memory process 2 0 ≡ some (ok, 3, after))
    × (after.mm.pgd 2 ≡ 32)
    × (after.mm.pgd 0 ≡ pte_set_swap 0x80000003 0 2)
    × (after.mm.fifo_pgn ≡ 2 ∷ 1 ∷ [])
    × (after.active_mswp.free_fp_list ≡ 1 ∷ [])
    × (after.active_mswp.storage ≡ copied ram.storage 3 swap.storage 2)
    × (after.mram.storage ≡ copied after.active_mswp.storage 1 ram.storage 3)
unfolding paging_page_present paging_fpn paging_pte_swp
getpage_swaps_example =
    getpage_swaps memory process 2 0 0 2 (1 ∷ []) [] (omega arith) (omega arith) refl (ground arith)
      refl refl refl refl (omega arith) (omega arith) (omega arith) (omega arith)
