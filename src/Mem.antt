-- ===== src/Mem.antt =====
-- The two-level memory for a build without MM_PAGING: src/mem.c, and the routines of src/cpu.c that
-- stand on it. Addresses are words of 32 bits. A table is the list of its first `size` rows; a null
-- pointer to a table of the second level is `none`.
pub mod Address
pub mod Access
pub mod Dump
mod Tests
use easter_egg.Common.{ℕ, ◌+◌, ◌-◌, ◌*◌, ◌/◌, ◌%◌, ◌^◌, Bool, true, false, bit_and}
use easter_egg.Common.{Option, none, some, List, [], ◌∷◌, ltb, ◌==◌, ◌>>=◌, if◌then◌else◌, update}
use easter_egg.Common.{Status, ok, one}

abbrev pub address_size : ℕ
address_size = 20

abbrev pub offset_len : ℕ
offset_len = 10

abbrev pub page_len : ℕ
page_len = 5

abbrev pub page_size : ℕ
page_size = 1024

abbrev pub ram_size : ℕ
ram_size = 2 ^ address_size

-- `struct trans_table_t`: the rows with their `v_index` and `p_index`.
abbrev pub TransTable : Type 0
TransTable = List (ℕ × ℕ)

-- `struct page_table_t`: the rows with their `v_index` and `next_lv`.
abbrev pub PageTable : Type 0
PageTable = List (ℕ × Option TransTable)

-- The fields of `struct pcb_t` that this build uses.
pub record Proc : Type 0 where
  pub regs : ℕ → ℕ
  pub page_table : PageTable
  pub bp : ℕ

-- The static variable `_ram`. `_mem_stat` is set to 0 by `init_mem` and never written again.
abbrev pub Ram : Type 0
Ram = ℕ → ℕ

unfoldable pub init_mem : Ram → Ram
init_mem ram a = if ltb a ram_size then 0 else ram a

-- `~((~0U) << OFFSET_LEN)`
abbrev pub offset_mask : ℕ
offset_mask = 2 ^ 32 - 1 - (2 ^ 32 - 1) * 2 ^ 10 % 2 ^ 32

unfoldable pub get_offset : ℕ → ℕ
get_offset addr = bit_and addr offset_mask

unfoldable pub get_first_lv : ℕ → ℕ
get_first_lv addr = addr / 2 ^ (offset_len + page_len)

unfoldable pub get_second_lv : ℕ → ℕ
get_second_lv addr =
    (addr / 2 ^ offset_len + (2 ^ 32 - get_first_lv addr * 2 ^ page_len % 2 ^ 32)) % 2 ^ 32

-- The first row with the index; `none` is a null result.
unfoldable pub get_trans_table : ℕ → PageTable → Option TransTable
get_trans_table index [] = none
get_trans_table index ((v_index, next_lv) ∷ rows) =
    if v_index == index then next_lv else get_trans_table index rows

-- The loop of `translate` over the second level.
unfoldable pub find_row : ℕ → TransTable → Bool
find_row second_lv [] = false
find_row second_lv ((v_index, p_index) ∷ rows) =
    if v_index == second_lv then true else find_row second_lv rows

-- It never sets `*physical_addr`.
unfoldable pub translate : ℕ → Proc → Bool
translate virtual_addr proc = elim (get_trans_table (get_first_lv virtual_addr) proc.page_table) [
  | none ↦ false
  | some trans_table ↦ find_row (get_second_lv virtual_addr) trans_table
]

-- With the number of pages that it computes. `mem_avail` is never set.
unfoldable pub num_pages : ℕ → ℕ
num_pages size = if size % page_size == 0 then size / page_size + 1 else size / page_size

unfoldable pub alloc_mem : ℕ → Proc → ℕ × Proc
alloc_mem size proc =
    let mem_avail = false in
    if mem_avail
    then (proc.bp, record proc { bp = (proc.bp + num_pages size * page_size) % 2 ^ 32 })
    else (0, proc)

unfoldable pub free_mem : ℕ → Proc → Status
free_mem address proc = ok

-- The status and `*data`, given as it was before; `physical_addr` is what the variable holds unset.
unfoldable pub read_mem : ℕ → Ram → ℕ → Proc → ℕ → Option (Status × ℕ)
read_mem physical_addr ram address proc byte =
    if translate address proc
    then (if ltb physical_addr ram_size then some (ok, ram physical_addr) else none)
    else some (one, byte)

unfoldable pub write_mem : ℕ → Ram → ℕ → Proc → ℕ → Option (Status × Ram)
write_mem physical_addr ram address proc byte =
    if translate address proc
    then (if ltb physical_addr ram_size then some (ok, update ram physical_addr byte) else none)
    else some (one, ram)

-- `proc->regs[i]`, out of the array of ten a fault.
unfoldable pub reg : Proc → ℕ → Option ℕ
reg proc i = if ltb i 10 then some (proc.regs i) else none

unfoldable pub put_reg : Proc → ℕ → ℕ → Option Proc
put_reg proc i v = if ltb i 10 then some (record proc { regs = update proc.regs i v }) else none

unfoldable pub alloc : Proc → ℕ → ℕ → Option (Status × Proc)
alloc proc size reg_index =
    let (addr, next) = alloc_mem size proc in
    if addr == 0 then some (one, next) else (put_reg next reg_index addr >>= λ p. some (ok, p))

unfoldable pub free_data : Proc → ℕ → Option Status
free_data proc reg_index = reg proc reg_index >>= λ a. some (free_mem a proc)

-- The byte is signed, and is extended where it is stored.
unfoldable pub read : ℕ → ℕ → Ram → Proc → ℕ → ℕ → ℕ → Option (Status × Proc)
read physical_addr unset ram proc source offset destination = do
  base ← reg proc source
  (stat, byte) ← read_mem physical_addr ram ((base + offset) % 2 ^ 32) proc unset
  elim stat [
    | ok ↦ some (one, proc)
    | _ ↦ put_reg proc destination (if ltb byte 128 then byte else 2 ^ 32 - 256 + byte) >>= λ p.
        some (ok, p)
  ]

unfoldable pub write : ℕ → Ram → Proc → ℕ → ℕ → ℕ → Option (Status × Ram)
write physical_addr ram proc byte destination offset = do
  base ← reg proc destination
  write_mem physical_addr ram ((base + offset) % 2 ^ 32) proc byte
