-- ===== src/Pte/Fields.antt =====
-- The page-table macros as arithmetic on the fields of a word.
use easter_egg.Common.{ℕ, zero, suc, ◌+◌, ◌-◌, ◌*◌, ◌/◌, ◌%◌, ◌^◌, ◌<◌, ◌≡◌, refl, arith}
use easter_egg.Common.{bit_and, bit_or}
use easter_egg.Common.Bits.{bit_and_at, bit_or_at, bit_or_fields, bit_and-ones, bit_and-zero}
use easter_egg.Common.Bits.{bit_or-zero, zero-bit_or, bit_or_split}
use easter_egg.Pte.{setbit, clrbit, setval, paging_page_present, paging_fpn, paging_pte_swp}
use easter_egg.Pte.{paging_pgn, paging_offst}
use easter_egg.Pte.{paging_pte_present_mask, paging_pte_swapped_mask, paging_pte_fpn_mask}
use easter_egg.Pte.{paging_pte_swptyp_mask, paging_pte_swpoff_mask, paging_pte_dirty_mask}

or_one : (x : ℕ) → x < 2 → bit_or x 1 ≡ 1
or_one zero h = refl
or_one (suc zero) h = refl
or_one (suc (suc x)) h = absurd (omega arith)

or_low : (x : ℕ) → x < 4 → bit_or x 1 ≡ x / 2 * 2 + 1
or_low zero h = refl
or_low (suc zero) h = refl
or_low (suc (suc zero)) h = refl
or_low (suc (suc (suc zero))) h = refl
or_low (suc (suc (suc (suc x)))) h = absurd (omega arith)

and_high : (x : ℕ) → x < 4 → bit_and x 2 ≡ x / 2 * 2
and_high zero h = refl
and_high (suc zero) h = refl
and_high (suc (suc zero)) h = refl
and_high (suc (suc (suc zero))) h = refl
and_high (suc (suc (suc (suc x)))) h = absurd (omega arith)

pub setbit_31 : (v : ℕ) → v < 2 ^ 32 → setbit v paging_pte_present_mask ≡ 2 ^ 31 + v % 2 ^ 31
unfolding setbit
setbit_31 v h = omega (
  arith,
  bit_or_at 31 v 1 0 (omega arith),
  or_one (v / 2 ^ 31) (omega arith),
  bit_or-zero (v % 2 ^ 31),
)

pub setbit_30 :
    (v : ℕ)
    → v < 2 ^ 32
    → setbit v paging_pte_swapped_mask ≡ v / 2 ^ 31 * 2 ^ 31 + 2 ^ 30 + v % 2 ^ 30
unfolding setbit
setbit_30 v h = omega (
  arith,
  bit_or_at 30 v 1 0 (omega arith),
  or_low (v / 2 ^ 30) (omega arith),
  bit_or-zero (v % 2 ^ 30),
)

pub clrbit_30 :
    (v : ℕ) → v < 2 ^ 32 → clrbit v paging_pte_swapped_mask ≡ v / 2 ^ 31 * 2 ^ 31 + v % 2 ^ 30
unfolding clrbit
clrbit_30 v h = omega (
  arith,
  bit_and_at 30 v 2 (2 ^ 30 - 1) (omega arith),
  and_high (v / 2 ^ 30) (omega arith),
  bit_and-ones 30 (v % 2 ^ 30),
)

pub setval_fpn :
    (v fpn : ℕ)
    → v < 2 ^ 32
    → setval v fpn paging_pte_fpn_mask 0 ≡ v / 2 ^ 13 * 2 ^ 13 + fpn % 2 ^ 13
unfolding setval
setval_fpn v fpn h = ground (
  arith,
  bit_and_at 13 v (2 ^ 19 - 1) 0 (omega arith),
  bit_and-ones 19 (v / 2 ^ 13),
  bit_and-zero (v % 2 ^ 13),
  bit_and-ones 13 (fpn * 2 ^ 0 % 2 ^ 32),
  bit_or_fields 13 (v / 2 ^ 13) (fpn % 2 ^ 13) (omega arith),
)

pub setval_swptyp :
    (v typ : ℕ)
    → v < 2 ^ 32
    → setval v typ paging_pte_swptyp_mask 0 ≡ v / 2 ^ 5 * 2 ^ 5 + typ % 2 ^ 5
unfolding setval
setval_swptyp v typ h = ground (
  arith,
  bit_and_at 5 v (2 ^ 27 - 1) 0 (omega arith),
  bit_and-ones 27 (v / 2 ^ 5),
  bit_and-zero (v % 2 ^ 5),
  bit_and-ones 5 (typ * 2 ^ 0 % 2 ^ 32),
  bit_or_fields 5 (v / 2 ^ 5) (typ % 2 ^ 5) (omega arith),
)

-- The mask with bits 26 to 31 and 0 to 4.
keep_outside : (v : ℕ) → v < 2 ^ 32 → bit_and v (63 * 2 ^ 26 + 31) ≡ v / 2 ^ 26 * 2 ^ 26 + v % 2 ^ 5
keep_outside v h = omega (
  arith,
  bit_and_at 26 v 63 31 (omega arith),
  bit_and-ones 6 (v / 2 ^ 26),
  bit_and-ones 5 (v % 2 ^ 26),
)

shifted_value :
    (off : ℕ) → bit_and (off * 2 ^ 5 % 2 ^ 32) ((2 ^ 21 - 1) * 2 ^ 5 + 0) ≡ off % 2 ^ 21 * 2 ^ 5
shifted_value off = omega (
  arith,
  bit_and_at 5 (off * 2 ^ 5 % 2 ^ 32) (2 ^ 21 - 1) 0 (omega arith),
  bit_and-ones 21 (off * 2 ^ 5 % 2 ^ 32 / 2 ^ 5),
  bit_and-zero (off * 2 ^ 5 % 2 ^ 32 % 2 ^ 5),
)

join_middle :
    (a s r : ℕ)
    → s < 2 ^ 21
    → r < 2 ^ 5
    → bit_or (a * 2 ^ 26 + r) (s * 2 ^ 5) ≡ a * 2 ^ 26 + s * 2 ^ 5 + r
join_middle a s r hs hr = ground (
  arith,
  bit_or_split 26 a 0 r (s * 2 ^ 5) (omega arith) (omega arith),
  bit_or_split 5 0 s r 0 (omega arith) (omega arith),
  bit_or-zero a,
  zero-bit_or s,
  bit_or-zero r,
)

pub setval_swpoff :
    (v off : ℕ)
    → v < 2 ^ 32
    → setval v off paging_pte_swpoff_mask 5 ≡ v / 2 ^ 26 * 2 ^ 26 + off % 2 ^ 21 * 2 ^ 5 + v % 2 ^ 5
unfolding setval
setval_swpoff v off h = ground (
  arith,
  keep_outside v h,
  shifted_value off,
  join_middle (v / 2 ^ 26) (off % 2 ^ 21) (v % 2 ^ 5) (omega arith) (omega arith),
)

pub present_field : (v : ℕ) → v < 2 ^ 32 → paging_page_present v ≡ v / 2 ^ 31 * 2 ^ 31
unfolding paging_page_present
present_field v h = omega (
  arith,
  bit_and_at 31 v 1 0 (omega arith),
  bit_and-ones 1 (v / 2 ^ 31),
  bit_and-zero (v % 2 ^ 31),
)

pub fpn_field : (v : ℕ) → paging_fpn v ≡ v % 2 ^ 13
unfolding paging_fpn
fpn_field v = omega (arith, bit_and-ones 13 v)

pub swp_field : (v : ℕ) → paging_pte_swp v ≡ v / 2 ^ 5 % 2 ^ 21
unfolding paging_pte_swp
swp_field v = omega (
  arith,
  bit_and_at 5 v (2 ^ 21 - 1) 0 (omega arith),
  bit_and-ones 21 (v / 2 ^ 5),
  bit_and-zero (v % 2 ^ 5),
)

-- An address is cut to the 22 bits of the bus.
pub pgn_field : (a : ℕ) → paging_pgn a ≡ a / 2 ^ 8 % 2 ^ 14
unfolding paging_pgn
pgn_field a = omega (
  arith,
  bit_and_at 8 a (2 ^ 14 - 1) 0 (omega arith),
  bit_and-ones 14 (a / 2 ^ 8),
  bit_and-zero (a % 2 ^ 8),
)

pub offst_field : (a : ℕ) → paging_offst a ≡ a % 2 ^ 8
unfolding paging_offst
offst_field a = omega (arith, bit_and-ones 8 a)

pub clrbit_28 :
    (v : ℕ) → v < 2 ^ 32 → clrbit v paging_pte_dirty_mask ≡ v / 2 ^ 29 * 2 ^ 29 + v % 2 ^ 28
unfolding clrbit
clrbit_28 v h = omega (
  arith,
  bit_and_at 29 v 7 (2 ^ 28 - 1) (omega arith),
  bit_and-ones 3 (v / 2 ^ 29),
  bit_and-ones 28 (v % 2 ^ 29),
)

pub swapped_field :
    (v : ℕ) → v < 2 ^ 32 → bit_and v paging_pte_swapped_mask ≡ v / 2 ^ 30 % 2 * 2 ^ 30
swapped_field v h = omega (
  arith,
  bit_and_at 30 v 1 0 (omega arith),
  bit_and-ones 1 (v / 2 ^ 30),
  bit_and-zero (v % 2 ^ 30),
)
