-- ===== src/Mem/Address.antt =====
-- The parts of an address.
use easter_egg.Common.{ℕ, ◌+◌, ◌*◌, ◌^◌, ◌<◌, ◌≡◌, arith}
use easter_egg.Common.Bits.{bit_and-ones}
use easter_egg.Mem.{get_offset, get_first_lv, get_second_lv}

-- An address of 20 bits is made of its three parts: the index of the first level and that of the
-- second one are below 32, the offset is below 1024, and no bit is lost.
address_parts :
    (addr : ℕ)
    → addr < 2 ^ 20
    → (get_first_lv addr < 32)
      × (get_second_lv addr < 32)
      × (get_offset addr < 1024)
      × ((get_first_lv addr * 32 + get_second_lv addr) * 1024 + get_offset addr ≡ addr)
unfolding get_offset get_first_lv get_second_lv
address_parts addr h = omega (arith, bit_and-ones 10 addr)
