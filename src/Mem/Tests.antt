-- ===== src/Mem/Tests.antt =====
-- Runs of the two-level memory, and the theorems about it at concrete values.
use easter_egg.Common.{◌+◌, ◌*◌, ◌≡◌, refl, true, false, some, [], ◌∷◌}
use easter_egg.Common.{if◌then◌else◌, ◌==◌, none}
use easter_egg.Mem.Dump.{byte, dump_bytes}
use easter_egg.Mem.{Proc, get_first_lv, get_second_lv, translate, get_trans_table}
use easter_egg.Mem.{find_row}

-- The first level has the index 2, with 8 and 9 on the second one.
abbrev proc : Proc
proc = record {
  regs = λ i. if i == 1 then 2 * 32768 + 9 * 1024 else 0;
  page_table = (1, none) ∷ (2, some ((8, 40) ∷ (9, 41) ∷ [])) ∷ [];
  bp = 1024;
}

found_there : (translate (2 * 32768 + 9 * 1024 + 7) proc ≡ true) × (translate 7 proc ≡ false)
unfolding translate get_first_lv get_second_lv get_trans_table find_row
found_there = (refl, refl)

one_byte :
    (dump_bytes (λ a. 200) 1 1024 ≡ byte 1024 4294967240 ∷ []) × (dump_bytes (λ a. 0) 1 5 ≡ [])
unfolding dump_bytes
one_byte = (refl, refl)
