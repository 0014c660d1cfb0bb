-- ===== src/Mem/Dump.antt =====
-- `dump` of src/mem.c: the pages that `_mem_stat` marks as used, and the bytes in them.
use easter_egg.Common.{ℕ, zero, suc, ◌+◌, ◌-◌, ◌*◌, ◌^◌, ◌≤◌, ◌≡◌, refl, arith, List, [], ◌∷◌}
use easter_egg.Common.{◌++◌, ltb, lt→ltb, if◌then◌else◌, ◌==◌}
use easter_egg.Mem.{Ram, page_size}

-- An element of `_mem_stat`. An `int` is given as a bit pattern.
pub record MemStat : Type 0 where
  pub proc : ℕ
  pub index : ℕ
  pub next : ℕ

abbrev pub num_pages : ℕ
num_pages = 1024

-- `memset(_mem_stat, 0, …)` of `init_mem`.
unfoldable pub init_mem_stat : (ℕ → MemStat) → ℕ → MemStat
init_mem_stat stat i =
    if ltb i num_pages then (record { proc = 0; index = 0; next = 0 }) else stat i

-- `%03d: %05x-%05x - PID: %02d (idx %03d, nxt: %03d)` and `\t%05x: %02x`.
pub data DumpLine : Type 0 where
  page : (i first last : ℕ) → MemStat → DumpLine
  byte : (j value : ℕ) → DumpLine

-- A `char` as `%02x` prints it: extended by its sign to 32 bits.
abbrev pub shown : ℕ → ℕ
shown v = if ltb v 128 then v else 2 ^ 32 - 256 + v

-- The loop over a page from address `j` on.
unfoldable pub dump_bytes : Ram → ℕ → ℕ → List DumpLine
dump_bytes ram zero j = []
dump_bytes ram (suc rounds) j =
    let rest = dump_bytes ram rounds (j + 1) in
    if ram j == 0 then rest else byte j (shown (ram j)) ∷ rest

-- The loop over the pages from `i` on.
unfoldable pub dump_pages : (ℕ → MemStat) → Ram → ℕ → ℕ → List DumpLine
dump_pages stat ram zero i = []
dump_pages stat ram (suc rounds) i =
    let rest = dump_pages stat ram rounds (i + 1) in
    if (stat i).proc == 0
    then rest
    else page i (i * page_size) ((i + 1) * page_size - 1) (stat i)
      ∷ (dump_bytes ram (page_size - 1) (i * page_size) ++ rest)

unfoldable pub dump : (ℕ → MemStat) → Ram → List DumpLine
dump stat ram = dump_pages stat ram num_pages 0

unused_pages :
    (stat : ℕ → MemStat) (ram : Ram) (rounds i : ℕ)
    → i + rounds ≤ num_pages
    → dump_pages (init_mem_stat stat) ram rounds i ≡ []
unfolding dump_pages init_mem_stat
unused_pages stat ram zero i h = refl
unused_pages stat ram (suc rounds) i h =
    rw
      (
        lt→ltb i num_pages (omega (arith, h)),
        unused_pages stat ram rounds (i + 1) (omega (arith, h)),
      )
      refl

-- With the pages as `init_mem` leaves them, which nothing changes, `dump` prints nothing.
dump-init_mem_stat : (stat : ℕ → MemStat) (ram : Ram) → dump (init_mem_stat stat) ram ≡ []
unfolding dump
dump-init_mem_stat stat ram = unused_pages stat ram num_pages 0 (omega arith)
