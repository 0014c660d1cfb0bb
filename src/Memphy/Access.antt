-- ===== src/Memphy/Access.antt =====
-- Single bytes of a device: MEMPHY_read, MEMPHY_write and the cursor of a sequential device.
use easter_egg.Common.{ℕ, zero, suc, ◌+◌, ◌%◌, ◌≤◌, ◌≡◌, min, false, arith}
use easter_egg.Common.{none, some, ltb, ◌==◌, if◌then◌else◌}
use native.Mathlib.Nat.{mod-add-mod}
use easter_egg.Common.{ok, minus_one}
use easter_egg.Memphy.{Memphy, mv_csr_loop, mv_csr, seq_read, seq_write, read, write}

-- After a successful `MEMPHY_write` a read at any address gives the byte written if the address
-- is the same, and otherwise what stood there; it faults exactly at `maxsz` and above.
read-write :
    (mp after : Memphy) (a b v w : ℕ)
    → write mp a v ≡ some (ok, after)
    → read after b w
      ≡ (if ltb b mp.maxsz then some (ok, (if a == b then v else mp.storage b), after) else none)
unfolding read write
read-write mp after a b v w h = ground arith

-- A device with `rdmflg` 0 refuses every access with -1 and is left as it was, through
-- `MEMPHY_read` and `MEMPHY_write` as well as through the sequential routines.
pub sequential_refused :
    (mp : Memphy) (a v : ℕ)
    → mp.rdmflg ≡ false
    → (read mp a v ≡ some (minus_one, v, mp))
      × (seq_read mp a v ≡ some (minus_one, v, mp))
      × (write mp a v ≡ some (minus_one, mp))
      × (seq_write mp a v ≡ some (minus_one, mp))
unfolding read write
sequential_refused mp a v h = ground arith

mv_csr_loop_lem :
    (rounds offset maxsz numstep cursor : ℕ)
    → numstep ≤ min offset maxsz
    → min offset maxsz ≤ numstep + rounds
    → cursor ≡ numstep % maxsz
    → mv_csr_loop rounds offset maxsz numstep cursor ≡ min offset maxsz % maxsz
unfolding mv_csr_loop
mv_csr_loop_lem zero offset maxsz numstep cursor a b e = ground arith
mv_csr_loop_lem (suc rounds) offset maxsz numstep cursor a b e = ground (
  arith,
  mod-add-mod numstep maxsz 1,
  mv_csr_loop_lem rounds offset maxsz (numstep + 1) ((cursor + 1) % maxsz),
)

-- MEMPHY_mv_csr leaves the cursor `offset` places on, but at 0 when `offset` reaches the end.
mv_csr_lem : (mp : Memphy) (offset : ℕ) → (mv_csr mp offset).cursor ≡ min offset mp.maxsz % mp.maxsz
unfolding mv_csr
mv_csr_lem mp offset =
    mv_csr_loop_lem mp.maxsz offset mp.maxsz 0 0 (omega arith) (omega arith) (omega arith)
