-- ===== src/Pte/Entries.antt =====
-- What `pte_set_fpn`, `pte_set_swap` and `init_pte` leave in an entry, field by field.
use easter_egg.Common.{ℕ, ◌+◌, ◌*◌, ◌/◌, ◌%◌, ◌^◌, ◌<◌, ◌≡◌, arith, ok, minus_one}
use easter_egg.Common.{bit_and, if◌then◌else◌, ◌==◌}
use easter_egg.Pte.{setbit, clrbit, setval, paging_page_present, paging_fpn, paging_pte_swp}
use easter_egg.Pte.{paging_pgn, paging_offst, pte_set_swap, pte_set_fpn, init_pte, paging_pagesz}
use easter_egg.Pte.{paging_pte_present_mask, paging_pte_swapped_mask, paging_pte_swptyp_mask}
use easter_egg.Pte.{paging_pte_dirty_mask, paging_max_pgn}
use easter_egg.Pte.Fields.{setbit_31, setbit_30, clrbit_30, setval_fpn, setval_swptyp}
use easter_egg.Pte.Fields.{clrbit_28, swapped_field}
use easter_egg.Pte.Fields.{
  setval_swpoff, present_field, fpn_field, swp_field, pgn_field, offst_field,
}

pte_set_fpn_value :
    (pte fpn : ℕ)
    → pte < 2 ^ 32
    → pte_set_fpn pte fpn ≡ 2 ^ 31 + pte % 2 ^ 30 / 2 ^ 13 * 2 ^ 13 + fpn % 2 ^ 13
unfolding pte_set_fpn
pte_set_fpn_value pte fpn h =
    let step1 = setbit_31 pte h in
    let step2 = clrbit_30 (setbit pte paging_pte_present_mask) (omega arith) in
    omega (
      arith,
      setval_fpn (clrbit (setbit pte paging_pte_present_mask) paging_pte_swapped_mask) fpn
          (omega arith),
    )

pte_set_swap_value :
    (pte typ off : ℕ)
    → pte < 2 ^ 32
    → pte_set_swap pte typ off
      ≡ 2 ^ 31 + 2 ^ 30 + pte % 2 ^ 30 / 2 ^ 26 * 2 ^ 26 + off % 2 ^ 21 * 2 ^ 5 + typ % 2 ^ 5
unfolding pte_set_swap
pte_set_swap_value pte typ off h =
    let present = setbit pte paging_pte_present_mask in
    let step1 = setbit_31 pte h in
    let swapped = setbit present paging_pte_swapped_mask in
    let step2 = setbit_30 present (omega arith) in
    let typed = setval swapped typ paging_pte_swptyp_mask 0 in
    let step3 = setval_swptyp swapped typ (omega arith) in
    omega (arith, setval_swpoff typed off (omega arith))

-- An entry that `pte_set_fpn` has set with a frame number of 13 bits fits 32 bits, is present,
-- is not marked as swapped, and gives that frame number back.
pub pte_set_fpn_fields :
    (pte fpn : ℕ)
    → pte < 2 ^ 32
    → fpn < 2 ^ 13
    → (pte_set_fpn pte fpn < 2 ^ 32)
      × (paging_page_present (pte_set_fpn pte fpn) ≡ 2 ^ 31)
      × (bit_and (pte_set_fpn pte fpn) paging_pte_swapped_mask ≡ 0)
      × (paging_fpn (pte_set_fpn pte fpn) ≡ fpn)
pte_set_fpn_fields pte fpn h f =
    let p = pte_set_fpn pte fpn in
    let value = pte_set_fpn_value pte fpn h in
    let small : p < 2 ^ 32 = omega arith in
    (
      small,
      omega (arith, present_field p small),
      omega (arith, swapped_field p small),
      omega (arith, fpn_field p),
    )

-- An entry that `pte_set_swap` has set with a swap offset of 21 bits fits 32 bits, is marked as
-- swapped and gives the offset back; its present bit is set as well, so that
-- `PAGING_PAGE_PRESENT` does not tell it from a page in RAM.
pub pte_set_swap_fields :
    (pte typ off : ℕ)
    → pte < 2 ^ 32
    → off < 2 ^ 21
    → (pte_set_swap pte typ off < 2 ^ 32)
      × (bit_and (pte_set_swap pte typ off) paging_pte_swapped_mask ≡ 2 ^ 30)
      × (paging_pte_swp (pte_set_swap pte typ off) ≡ off)
      × (paging_page_present (pte_set_swap pte typ off) ≡ 2 ^ 31)
pte_set_swap_fields pte typ off h f =
    let p = pte_set_swap pte typ off in
    let value = pte_set_swap_value pte typ off h in
    let small : p < 2 ^ 32 = omega arith in
    (
      small,
      omega (arith, swapped_field p small),
      omega (arith, swp_field p),
      omega (arith, present_field p small),
    )

-- The bits from 26 on of an entry that `init_pte` has accepted: `top` in the two highest, bit 29
-- as it was, bit 28 cleared.
abbrev pub init_pte_high : ℕ → ℕ → ℕ → ℕ
init_pte_high pte top low = top * 2 ^ 30 + pte / 2 ^ 29 % 2 * 2 ^ 29 + low

-- `init_pte` on all its branches: with `pre` 0 it succeeds and leaves the entry; an online page
-- with frame 0 is refused and the entry left; for another frame the present bit is set, the
-- swapped and dirty bits are cleared, and the low 13 bits are the frame's; for a swapped page the
-- present and swapped bits are set, the dirty bit is cleared, and type and offset are stored.
init_pte_lem :
    (pte pre fpn drt swp typ off : ℕ)
    → pte < 2 ^ 32
    → init_pte pte pre fpn drt swp typ off ≡ (
        if pre == 0
        then (ok, pte)
        else if swp == 0
        then (if fpn == 0
            then (minus_one, pte)
            else (ok, init_pte_high pte 2 (pte % 2 ^ 28 / 2 ^ 13 * 2 ^ 13 + fpn % 2 ^ 13)))
        else (
          ok,
          init_pte_high pte 3 (pte % 2 ^ 28 / 2 ^ 26 * 2 ^ 26 + off % 2 ^ 21 * 2 ^ 5 + typ % 2 ^ 5),
        ))
unfolding init_pte
init_pte_lem pte pre fpn drt swp typ off h =
    let s31 = setbit pte paging_pte_present_mask in
    let e31 = setbit_31 pte h in
    let online = clrbit s31 paging_pte_swapped_mask in
    let e_online = clrbit_30 s31 (omega arith) in
    let o28 = clrbit online paging_pte_dirty_mask in
    let e_o28 = clrbit_28 online (omega arith) in
    let s30 = setbit s31 paging_pte_swapped_mask in
    let e30 = setbit_30 s31 (omega arith) in
    let s28 = clrbit s30 paging_pte_dirty_mask in
    let e_s28 = clrbit_28 s30 (omega arith) in
    let typed = setval s28 typ paging_pte_swptyp_mask 0 in
    let e_typed = setval_swptyp s28 typ (omega arith) in
    ground (arith, setval_fpn o28 fpn (omega arith), setval_swpoff typed off (omega arith))

-- Page number and offset together are the 22 bus bits of an address, the page number indexes the
-- page table, and the offset lies inside a page.
pub pgn-offst :
    (a : ℕ)
    → (paging_pgn a * paging_pagesz + paging_offst a ≡ a % 2 ^ 22)
      × (paging_pgn a < paging_max_pgn)
      × (paging_offst a < paging_pagesz)
pgn-offst a = omega (arith, pgn_field a, offst_field a)
