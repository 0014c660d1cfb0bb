-- ===== src/Pte/Tests.antt =====
-- The macros at numerals, and the theorems about them at concrete entries.
use easter_egg.Common.{◌+◌, ◌*◌, ◌^◌, ◌%◌, ◌<◌, ◌≡◌, refl, arith, bit_and}
use easter_egg.Pte.{paging_page_present, paging_pte_swapped_mask, paging_pte_swp}
use easter_egg.Pte.{paging_pagesz}
use easter_egg.Pte.Entries.{pte_set_swap_fields, pgn-offst}
use easter_egg.Pte.{paging_max_pgn, paging_pgn_mask, paging_pte_swpoff_mask}
use easter_egg.Pte.{setbit, clrbit, setval, pte_set_fpn, pte_set_swap, paging_pgn, paging_offst}

masks :
    (paging_pgn_mask ≡ 0x3FFF00) × (paging_pte_swpoff_mask ≡ 0x3FFFFE0) × (paging_max_pgn ≡ 16384)
masks = (refl, refl, refl)

entries : (pte_set_fpn 0 1 ≡ 0x80000001) × (pte_set_swap 0x80000001 0 7 ≡ 0xC00000E0)
unfolding pte_set_fpn pte_set_swap setbit clrbit setval
entries = (refl, refl)

address : (paging_pgn 0x1234 ≡ 0x12) × (paging_offst 0x1234 ≡ 0x34)
unfolding paging_pgn paging_offst
address = (refl, refl)

pte_set_swap_fields_example :
    (pte_set_swap 0x80000042 0 7 < 2 ^ 32)
    × (bit_and (pte_set_swap 0x80000042 0 7) paging_pte_swapped_mask ≡ 2 ^ 30)
    × (paging_pte_swp (pte_set_swap 0x80000042 0 7) ≡ 7)
    × (paging_page_present (pte_set_swap 0x80000042 0 7) ≡ 2 ^ 31)
pte_set_swap_fields_example = pte_set_swap_fields 0x80000042 0 7 (omega arith) (omega arith)

pgn-offst_example :
    (paging_pgn 0x1234 * paging_pagesz + paging_offst 0x1234 ≡ 0x1234 % 2 ^ 22)
    × (paging_pgn 0x1234 < paging_max_pgn)
    × (paging_offst 0x1234 < paging_pagesz)
pgn-offst_example = pgn-offst 0x1234
