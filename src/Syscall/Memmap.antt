-- ===== src/Syscall/Memmap.antt =====
-- Bytes of RAM through the system call `memmap`.
use easter_egg.Common.{
  ℕ, ◌%◌, ◌<◌, ◌≡◌, refl, true, some, ◌>>=◌, update, if◌then◌else◌, ◌==◌, lt→ltb,
}
use easter_egg.Memphy
use easter_egg.Vm.{Malloc, Caller}
use easter_egg.Paging.{sign_extend}
use easter_egg.Syscall.{Regs, sys_memmap, sysmem_io_read, sysmem_io_write}

abbrev pub regs : ℕ → ℕ → ℕ → Regs
regs a1 a2 a3 = record { a1 = a1; a2 = a2; a3 = a3 }

io_write :
    (malloc : Malloc) (c : Caller) (a v : ℕ)
    → c.mram.rdmflg ≡ true
    → a < c.mram.maxsz
    → sys_memmap malloc c (regs sysmem_io_write a v)
      ≡ some (
        regs sysmem_io_write a v,
        record c { mram = record (c.mram) { storage = update c.mram.storage a (v % 256) } },
      )
unfolding sys_memmap Memphy.write
io_write malloc c a v random inside = rw (random, lt→ltb _ _ inside) refl

io_read :
    (malloc : Malloc) (c : Caller) (b w : ℕ)
    → c.mram.rdmflg ≡ true
    → b < c.mram.maxsz
    → sys_memmap malloc c (regs sysmem_io_read b w)
      ≡ some (regs sysmem_io_read b (sign_extend (c.mram.storage b)), c)
unfolding sys_memmap Memphy.read
io_read malloc c b w random inside = rw (random, lt→ltb _ _ inside) refl

-- On random-access RAM, for two addresses inside it: after SYSMEM_IO_WRITE of `v` at the first,
-- SYSMEM_IO_READ at the second leaves in `a3` the low byte of `v` if the addresses are the same,
-- and otherwise the byte that stood there, as a signed byte made a word; only RAM has changed.
memmap-read-write :
    (malloc : Malloc) (c : Caller) (a b v w : ℕ)
    → c.mram.rdmflg ≡ true
    → a < c.mram.maxsz
    → b < c.mram.maxsz
    → (sys_memmap malloc c (regs sysmem_io_write a v) >>= λ r.
        sys_memmap malloc r.1 (regs sysmem_io_read b w))
      ≡ some (
        regs sysmem_io_read b (sign_extend (if a == b then v % 256 else c.mram.storage b)),
        record c { mram = record (c.mram) { storage = update c.mram.storage a (v % 256) } },
      )
memmap-read-write malloc c a b v w random inside_a inside_b =
    rw (io_write malloc c a v random inside_a) (
      io_read malloc
        (record c { mram = record (c.mram) { storage = update c.mram.storage a (v % 256) } }) b w
        random inside_b)
