-- ===== src/Pte.antt =====
-- Page-table entries and addresses: the bit macros of include/bitops.h and include/mm.h, and
-- `init_pte`, `pte_set_swap`, `pte_set_fpn` of src/mm.c. A `uint32_t` is a number below 2 ^ 32.
pub mod Fields
pub mod Entries
mod Tests
use easter_egg.Common.{ℕ, ◌+◌, ◌-◌, ◌*◌, ◌/◌, ◌%◌, ◌^◌, bit_and, bit_or}
use easter_egg.Common.{◌==◌, if◌then◌else◌, Status, ok, minus_one}

-- BIT(nr), and `~m` of a 32-bit word.
abbrev pub bit : ℕ → ℕ
bit nr = 2 ^ nr

abbrev pub complement : ℕ → ℕ
complement m = 2 ^ 32 - 1 - m

-- GENMASK(h, l) with BITS_PER_LONG 32.
abbrev pub genmask : ℕ → ℕ → ℕ
genmask h l = bit_and ((2 ^ 32 - 1) * 2 ^ l % 2 ^ 32) ((2 ^ 32 - 1) / 2 ^ (32 - h - 1))

-- NBITS: the number of the highest bit.
abbrev pub nbits2 : ℕ → ℕ
nbits2 n = if bit_and n 2 == 0 then 0 else 1

abbrev pub nbits4 : ℕ → ℕ
nbits4 n = if bit_and n 0xC == 0 then nbits2 n else 2 + nbits2 (n / 2 ^ 2)

abbrev pub nbits8 : ℕ → ℕ
nbits8 n = if bit_and n 0xF0 == 0 then nbits4 n else 4 + nbits4 (n / 2 ^ 4)

abbrev pub nbits16 : ℕ → ℕ
nbits16 n = if bit_and n 0xFF00 == 0 then nbits8 n else 8 + nbits8 (n / 2 ^ 8)

abbrev pub nbits32 : ℕ → ℕ
nbits32 n = if bit_and n 0xFFFF0000 == 0 then nbits16 n else 16 + nbits16 (n / 2 ^ 16)

abbrev pub nbits : ℕ → ℕ
nbits n = if n == 0 then 0 else nbits32 n

abbrev pub paging_cpu_bus_width : ℕ
paging_cpu_bus_width = 22

abbrev pub paging_pagesz : ℕ
paging_pagesz = 256

abbrev pub div_round_up : ℕ → ℕ → ℕ
div_round_up n d = (n + d - 1) / d

abbrev pub paging_page_alignsz : ℕ → ℕ
paging_page_alignsz sz = div_round_up sz paging_pagesz * paging_pagesz

abbrev pub paging_max_pgn : ℕ
paging_max_pgn = div_round_up (bit paging_cpu_bus_width) paging_pagesz

abbrev pub paging_pte_present_mask : ℕ
paging_pte_present_mask = bit 31

abbrev pub paging_pte_swapped_mask : ℕ
paging_pte_swapped_mask = bit 30

abbrev pub paging_pte_dirty_mask : ℕ
paging_pte_dirty_mask = bit 28

abbrev pub paging_pte_fpn_mask : ℕ
paging_pte_fpn_mask = genmask 12 0

abbrev pub paging_pte_swptyp_mask : ℕ
paging_pte_swptyp_mask = genmask 4 0

abbrev pub paging_pte_swpoff_mask : ℕ
paging_pte_swpoff_mask = genmask 25 5

abbrev pub paging_addr_offst_hibit : ℕ
paging_addr_offst_hibit = nbits paging_pagesz - 1

abbrev pub paging_addr_pgn_lobit : ℕ
paging_addr_pgn_lobit = nbits paging_pagesz

abbrev pub paging_addr_fpn_lobit : ℕ
paging_addr_fpn_lobit = nbits paging_pagesz

abbrev pub paging_offst_mask : ℕ
paging_offst_mask = genmask paging_addr_offst_hibit 0

abbrev pub paging_pgn_mask : ℕ
paging_pgn_mask = genmask (paging_cpu_bus_width - 1) paging_addr_pgn_lobit

-- SETBIT, CLRBIT, SETVAL and GETVAL.
unfoldable pub setbit : ℕ → ℕ → ℕ
setbit v mask = bit_or v mask

unfoldable pub clrbit : ℕ → ℕ → ℕ
clrbit v mask = bit_and v (complement mask)

unfoldable pub setval : ℕ → ℕ → ℕ → ℕ → ℕ
setval v value mask offst =
    bit_or (bit_and v (complement mask)) (bit_and (value * 2 ^ offst % 2 ^ 32) mask)

unfoldable pub getval : ℕ → ℕ → ℕ → ℕ
getval v mask offst = bit_and v mask / 2 ^ offst

-- PAGING_PAGE_PRESENT(pte), a word that is tested against 0.
unfoldable pub paging_page_present : ℕ → ℕ
paging_page_present pte = bit_and pte paging_pte_present_mask

-- PAGING_FPN, and PAGING_PTE_FPN, which expands to the same.
unfoldable pub paging_fpn : ℕ → ℕ
unfolding getval
paging_fpn pte = getval pte paging_pte_fpn_mask 0

unfoldable pub paging_pte_swp : ℕ → ℕ
unfolding getval
paging_pte_swp pte = getval pte paging_pte_swpoff_mask 5

unfoldable pub paging_pgn : ℕ → ℕ
unfolding getval
paging_pgn addr = getval addr paging_pgn_mask paging_addr_pgn_lobit

unfoldable pub paging_offst : ℕ → ℕ
unfolding getval
paging_offst addr = getval addr paging_offst_mask 0

-- `pte_set_swap` and `pte_set_fpn` return 0 always: here the entry that they leave.
unfoldable pub pte_set_swap : ℕ → ℕ → ℕ → ℕ
pte_set_swap pte swptyp swpoff =
    let present = setbit pte paging_pte_present_mask in
    let swapped = setbit present paging_pte_swapped_mask in
    let typed = setval swapped swptyp paging_pte_swptyp_mask 0 in
    setval typed swpoff paging_pte_swpoff_mask 5

unfoldable pub pte_set_fpn : ℕ → ℕ → ℕ
pte_set_fpn pte fpn =
    let present = setbit pte paging_pte_present_mask in
    let online = clrbit present paging_pte_swapped_mask in setval online fpn paging_pte_fpn_mask 0

-- The arguments after the entry are pre, fpn, drt, swp, swptyp, swpoff.
unfoldable pub init_pte : ℕ → ℕ → ℕ → ℕ → ℕ → ℕ → ℕ → Status × ℕ
init_pte pte pre fpn drt swp swptyp swpoff =
    if pre == 0
    then (ok, pte)
    else if swp == 0
    then (if fpn == 0 then (minus_one, pte) else (
      ok,
      setval
          (clrbit (clrbit (setbit pte paging_pte_present_mask) paging_pte_swapped_mask)
            paging_pte_dirty_mask)
          fpn paging_pte_fpn_mask 0,
    ))
    else (
      ok,
      setval
          (setval
            (clrbit (setbit (setbit pte paging_pte_present_mask) paging_pte_swapped_mask)
              paging_pte_dirty_mask)
            swptyp paging_pte_swptyp_mask 0)
          swpoff paging_pte_swpoff_mask 5,
    )
