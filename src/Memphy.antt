-- ===== src/Memphy.antt =====
-- Physical devices, src/mm-memphy.c: byte storage with a list of free frames. The storage is a
-- function of the address; an access at `maxsz` or above is a fault, `none`, since C leaves it
-- undefined. Bytes are kept as 8-bit patterns. `used_fp_list` is never read or written.
pub mod Access
pub mod Frames
pub mod Copy
pub mod Shape
mod Tests
use easter_egg.Common.{ℕ, zero, suc, ◌+◌, ◌-◌, ◌*◌, ◌/◌, ◌%◌, Bool, true, false, ◌&&◌}
use easter_egg.Common.{Option, none, some, List, [], ◌∷◌, ltb, ◌==◌, if◌then◌else◌, update}
use easter_egg.Common.{Status, ok, minus_one}
use easter_egg.Pte.{paging_pagesz}

-- `struct memphy_struct`
pub record Memphy : Type 0 where
  pub storage : ℕ → ℕ
  pub maxsz : ℕ
  pub rdmflg : Bool
  pub cursor : ℕ
  pub free_fp_list : List ℕ

-- The loop of MEMPHY_mv_csr with `rounds` as fuel: numstep, then the cursor.
mv_csr_loop : ℕ → ℕ → ℕ → ℕ → ℕ → ℕ
mv_csr_loop zero offset maxsz numstep cursor = cursor
mv_csr_loop (suc rounds) offset maxsz numstep cursor =
    let rest = mv_csr_loop rounds offset maxsz (numstep + 1) ((cursor + 1) % maxsz) in
    if ltb numstep offset && ltb numstep maxsz then rest else cursor

-- The loop leaves by `numstep < maxsz` after at most `maxsz` rounds.
unfoldable pub mv_csr : Memphy → ℕ → Memphy
unfolding mv_csr_loop
mv_csr mp offset = record mp { cursor = mv_csr_loop mp.maxsz offset mp.maxsz 0 0 }

-- The reads return the status, the byte left in `*value` (given as it was before), the device.
unfoldable pub seq_read : Memphy → ℕ → ℕ → Option (Status × ℕ × Memphy)
seq_read mp addr value =
    if mp.rdmflg
    then (if ltb addr mp.maxsz then some (ok, mp.storage addr, mv_csr mp addr) else none)
    else some (minus_one, value, mp)

unfoldable pub read : Memphy → ℕ → ℕ → Option (Status × ℕ × Memphy)
unfolding seq_read
read mp addr value =
    if mp.rdmflg
    then (if ltb addr mp.maxsz then some (ok, mp.storage addr, mp) else none)
    else seq_read mp addr value

unfoldable pub seq_write : Memphy → ℕ → ℕ → Option (Status × Memphy)
seq_write mp addr value =
    if mp.rdmflg
    then (if ltb addr mp.maxsz
        then some (ok, record (mv_csr mp addr) { storage = update mp.storage addr value })
        else none)
    else some (minus_one, mp)

unfoldable pub write : Memphy → ℕ → ℕ → Option (Status × Memphy)
unfolding seq_write
write mp addr byte =
    if mp.rdmflg
    then (if ltb addr mp.maxsz
        then some (ok, record mp { storage = update mp.storage addr byte })
        else none)
    else seq_write mp addr byte

-- The frames that the loop of MEMPHY_format links after the first one.
unfoldable pub format_loop : ℕ → ℕ → List ℕ
format_loop zero iter = []
format_loop (suc rounds) iter = iter ∷ format_loop rounds (iter + 1)

-- `link` is what the `fp_next` of the first node holds as `malloc` gives it: only the loop sets
-- it, so a device of one frame keeps it.
unfoldable pub format : List ℕ → Memphy → ℕ → Status × Memphy
unfolding format_loop
format link mp pagesz =
    let numfp = mp.maxsz / pagesz in
    if numfp == 0 then (minus_one, mp) else (
      ok,
      record mp { free_fp_list = 0 ∷ (if numfp == 1 then link else format_loop (numfp - 1) 1) },
    )

-- The status, `*retfpn` (given as it was before), the device.
unfoldable pub get_freefp : Memphy → ℕ → Status × ℕ × Memphy
get_freefp mp retfpn = elim mp.free_fp_list [
  | [] ↦ (minus_one, retfpn, mp)
  | fp ∷ rest ↦ (ok, fp, record mp { free_fp_list = rest })
]

-- Returns 0 always.
unfoldable pub put_freefp : Memphy → ℕ → Memphy
put_freefp mp fpn = record mp { free_fp_list = fpn ∷ mp.free_fp_list }

-- The device is given as its memory was before; the status of MEMPHY_format is dropped.
unfoldable pub init_memphy : List ℕ → Memphy → ℕ → ℕ → Memphy
unfolding format
init_memphy link mp max_size randomflg =
    let sized = record mp { storage = λ _. 0; maxsz = max_size } in
    let formatted = (format link sized paging_pagesz).1 in
    if randomflg == 0
    then record formatted { rdmflg = false; cursor = 0 }
    else record formatted { rdmflg = true }

-- The loop of `__swap_cp_page` from `cellidx` on; `data` is what the byte variable holds before a
-- read that fails. The source's cursor never moves by MEMPHY_read.
unfoldable pub swap_cp_loop : ℕ → ℕ → ℕ → Memphy → ℕ → Memphy → ℕ → Option Memphy
swap_cp_loop zero cellidx byte mpsrc srcfpn mpdst dstfpn = some mpdst
swap_cp_loop (suc rounds) cellidx byte mpsrc srcfpn mpdst dstfpn =
    elim (read mpsrc (srcfpn * paging_pagesz + cellidx) byte) [
      | none ↦ none
      | some (_, value, _) ↦ elim (write mpdst (dstfpn * paging_pagesz + cellidx) value) [
        | none ↦ none
        | some (_, next) ↦ swap_cp_loop rounds (cellidx + 1) byte mpsrc srcfpn next dstfpn
      ]
    ]

-- `__swap_cp_page` between two different devices; returns 0 whenever it returns.
unfoldable pub swap_cp_page : ℕ → Memphy → ℕ → Memphy → ℕ → Option Memphy
swap_cp_page byte mpsrc srcfpn mpdst dstfpn =
    swap_cp_loop paging_pagesz 0 byte mpsrc srcfpn mpdst dstfpn
