-- ===== src/Mem/Access.antt =====
-- What instructions do in the build without MM_PAGING.
use easter_egg.Common.{ℕ, ◌+◌, ◌%◌, ◌^◌, ◌<◌, ◌≡◌, refl, true, false, some, lt→ltb, update}
use easter_egg.Common.{ok, one}
use easter_egg.Mem.{Proc, Ram, translate, ram_size, read_mem, reg, put_reg, read, alloc, alloc_mem}

-- With registers inside the array: `read` of an address that the page table does not have gives 0
-- and stores the unset byte, and `read` of one that it has, with a physical address inside the RAM,
-- gives 1 and changes nothing: the test of the status is the wrong way round. `alloc` gives 1 and
-- changes nothing for every size.
read_lem :
    (physical_addr unset : ℕ) (ram : Ram) (proc : Proc) (source offset destination size i : ℕ)
    → source < 10
    → destination < 10
    → unset < 128
    → physical_addr < ram_size
    → (translate ((proc.regs source + offset) % 2 ^ 32) proc ≡ false
        → read physical_addr unset ram proc source offset destination
          ≡ some (ok, record proc { regs = update proc.regs destination unset }))
      × (translate ((proc.regs source + offset) % 2 ^ 32) proc ≡ true
          → read physical_addr unset ram proc source offset destination ≡ some (one, proc))
      × (alloc proc size i ≡ some (one, proc))
unfolding read reg put_reg read_mem alloc alloc_mem
read_lem physical_addr unset ram proc source offset destination size i s d u p = (
  λ e. rw (lt→ltb _ _ s, e, lt→ltb _ _ d, lt→ltb _ _ u) refl,
  λ e. rw (lt→ltb _ _ s, e, lt→ltb _ _ p) refl,
  refl,
)
