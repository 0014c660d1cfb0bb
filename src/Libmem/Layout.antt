-- ===== src/Libmem/Layout.antt =====
-- The layout of a process's only area under `__alloc` and `__free` of src/libmem.c.
use easter_egg.Common.{ℕ, ◌+◌, ◌/◌, ◌≤◌, ◌<◌, ◌≡◌, ◌≢◌, refl, arith, some, ok, minus_one}
use easter_egg.Common.{List, [], ◌∷◌, length, leb, ltb, Status, update}
use easter_egg.Common.{◌⊎◌, inl, inr, Bool-cases, Option}
use easter_egg.Pte.{paging_page_alignsz}
use easter_egg.Memphy.{Memphy}
use easter_egg.Vm.{Region, Area, Mm, Caller, Malloc, region}
use easter_egg.Vm.Limits.{with_area, Below, first_area}
use easter_egg.Libmem.{alloc, free, enlist_vm_freerg_list, put_symrg}
use easter_egg.Libmem.Alloc.{alloc_lem, area_after, free_after}

abbrev pub Apart : Region → Region → Type 0
Apart a b = (a.rg_end ≤ b.rg_start) ⊎ (b.rg_end ≤ a.rg_start)

-- Free and named regions lie below the break, and two named regions share no byte.
pub record IsLaidOut (v : Area) (symrgtbl : ℕ → Region) : Type 0 where
  pub below : Below v.sbrk v.vm_freerg_list
  pub named : (i : ℕ) → i < 30 → (symrgtbl i).rg_end ≤ v.sbrk
  pub apart : (i j : ℕ) → i < 30 → j < 30 → i ≢ j → Apart (symrgtbl i) (symrgtbl j)

-- The memory of a process is one area in which its regions are laid out.
abbrev pub LaidOut : Mm → Type 0
LaidOut mm = (v : Area) × (mm.mmap ≡ v ∷ []) × IsLaidOut v mm.symrgtbl

Below-mono : (l : List Region) (a b : ℕ) → a ≤ b → Below a l → Below b l
Below-mono [] a b h p = tt
Below-mono (r ∷ l) a b h p = (omega (arith, p.0), Below-mono l a b h p.1)

free_after-Below :
    (l : List Region) (sbrk size : ℕ)
    → Below sbrk l
    → Below (sbrk + paging_page_alignsz size) (free_after sbrk size l)
free_after-Below l sbrk size h =
    let kept = Below-mono l sbrk (sbrk + paging_page_alignsz size) (omega arith) h in
    elim (Bool-cases (ltb (size + 1) (paging_page_alignsz size))) [
      | inl e ↦ rw e (omega arith, kept)
      | inr e ↦ rw e kept
    ]

Apart-update :
    (f : ℕ → Region) (k : ℕ) (r : Region) (i j : ℕ)
    → (i ≢ j → Apart (f i) (f j))
    → (i ≢ k → Apart (f i) r)
    → (j ≢ k → Apart r (f j))
    → i ≢ j
    → Apart (update f k r i) (update f k r j)
Apart-update f k r i j both left right ne = ground (arith, both ne)

-- With a new region of `size` bytes from the break on, and the break behind its last page.
pub placed-IsLaidOut :
    (v w : Area) (symrgtbl : ℕ → Region) (rgid size : ℕ)
    → IsLaidOut v symrgtbl
    → w.sbrk ≡ v.sbrk + paging_page_alignsz size
    → w.vm_freerg_list ≡ free_after v.sbrk size v.vm_freerg_list
    → IsLaidOut w (update symrgtbl rgid (region v.sbrk (v.sbrk + size)))
placed-IsLaidOut v w symrgtbl rgid size laid sbrk free = record {
  below = rw (sbrk, free) (free_after-Below v.vm_freerg_list v.sbrk size laid.below);
  named = λ i h. ground (arith, laid.named i);
  apart = λ i j hi hj ne.
      Apart-update symrgtbl rgid (region v.sbrk (v.sbrk + size)) i j (laid.apart i j hi hj)
        (λ _. inl (laid.named i hi)) (λ _. inr (laid.named j hj)) ne;
}

-- With the region of entry `rgid` moved to the free list.
pub freed-IsLaidOut :
    (v : Area) (symrgtbl : ℕ → Region) (rgid : ℕ)
    → IsLaidOut v symrgtbl
    → rgid < 30
    → IsLaidOut
        (record v {
          vm_freerg_list =
              region (symrgtbl rgid).rg_start (symrgtbl rgid).rg_end ∷ v.vm_freerg_list;
        })
        (update symrgtbl rgid (region 0 0))
freed-IsLaidOut v symrgtbl rgid laid known = record {
  below = (laid.named rgid known, laid.below);
  named = λ i h. ground (arith, laid.named i);
  apart = λ i j hi hj ne.
      Apart-update symrgtbl rgid (region 0 0) i j (laid.apart i j hi hj) (λ _. inr (omega arith))
        (λ _. inl (omega arith)) ne;
}

-- `__alloc` on a process laid out in its area, for an entry of the table and with enough free frames:
-- it gives 0 and the old break as the address, the entry is the `size` bytes from there, and the
-- process is laid out again, so that the new region shares no byte with any other named region.
pub alloc-IsLaidOut :
    (malloc : Malloc) (mm : Mm) (v : Area) (mram mswp : Memphy) (rgid size addr : ℕ)
    → IsLaidOut v mm.symrgtbl
    → rgid < 30
    → paging_page_alignsz size / 256 ≤ length mram.free_fp_list
    → (w : Area) × (after : Caller) × (alloc malloc
          (record { mm = with_area mm v; mram = mram; active_mswp = mswp })
          0
          rgid
          size
          addr
        ≡ some (ok, v.sbrk, after))
      × (after.mm.mmap ≡ w ∷ [])
      × (after.mm.symrgtbl rgid ≡ region v.sbrk (v.sbrk + size))
      × IsLaidOut w after.mm.symrgtbl
alloc-IsLaidOut malloc mm v mram mswp rgid size addr laid known enough = (
  area_after v size,
  _,
  alloc_lem malloc mm v mram mswp rgid size addr laid.below known enough,
  refl,
  ground arith,
  placed-IsLaidOut v (area_after v size) mm.symrgtbl rgid size laid refl refl,
)

-- What `__free` of entry `rgid` does to a process laid out in its area `v`.
pub data Frees (mm : Mm) (v : Area) (mram mswp : Memphy) (rgid : ℕ)
    (result : Option (Status × Caller)) : Type 0 where
  refused :
      (30 ≤ rgid) ⊎ ((mm.symrgtbl rgid).rg_end ≤ (mm.symrgtbl rgid).rg_start)
      → result ≡ some (minus_one, record { mm = with_area mm v; mram = mram; active_mswp = mswp })
      → Frees mm v mram mswp rgid result
  freed :
      (w : Area) (after : Mm)
      → rgid < 30
      → (mm.symrgtbl rgid).rg_start < (mm.symrgtbl rgid).rg_end
      → result ≡ some (ok, record { mm = after; mram = mram; active_mswp = mswp })
      → after.mmap ≡ w ∷ []
      → w.vm_freerg_list
        ≡ region (mm.symrgtbl rgid).rg_start (mm.symrgtbl rgid).rg_end ∷ v.vm_freerg_list
      → after.symrgtbl rgid ≡ region 0 0
      → IsLaidOut w after.symrgtbl
      → Frees mm v mram mswp rgid result

free_done :
    (mm : Mm) (v : Area) (mram mswp : Memphy) (rgid : ℕ)
    → rgid < 30
    → (mm.symrgtbl rgid).rg_start < (mm.symrgtbl rgid).rg_end
    → free (record { mm = with_area mm v; mram = mram; active_mswp = mswp }) 0 rgid
      ≡ some (
        ok,
        record {
          mm =
              record (with_area mm (record v {
                vm_freerg_list =
                    region (mm.symrgtbl rgid).rg_start (mm.symrgtbl rgid).rg_end ∷ v.vm_freerg_list;
              })) { symrgtbl = update mm.symrgtbl rgid (region 0 0) };
          mram = mram;
          active_mswp = mswp;
        },
      )
unfolding free enlist_vm_freerg_list put_symrg
free_done mm v mram mswp rgid known some_bytes = ground (arith, first_area mm v)

-- `__free` on a process laid out in its area: an index outside the table or an entry that names no
-- byte is refused with -1 and nothing changes; otherwise it gives 0, the region is put in front of
-- the free list, the entry is emptied, and the process is laid out again.
pub free-Frees :
    (mm : Mm) (v : Area) (mram mswp : Memphy) (rgid : ℕ)
    → IsLaidOut v mm.symrgtbl
    → Frees mm v mram mswp rgid
        (free (record { mm = with_area mm v; mram = mram; active_mswp = mswp }) 0 rgid)
free-Frees mm v mram mswp rgid laid = elim (Bool-cases (leb 30 rgid)) [
  | inl outside ↦ refused (inl (ground arith)) (unfold free in ground arith)
  | inr inside ↦ elim (Bool-cases (leb (mm.symrgtbl rgid).rg_end (mm.symrgtbl rgid).rg_start)) [
    | inl no_byte ↦ refused (inr (ground arith)) (unfold free in ground arith)
    | inr some_bytes ↦
        freed _ _ (ground arith) (ground arith)
          (free_done mm v mram mswp rgid (ground arith) (ground arith)) refl refl (ground arith)
          (freed-IsLaidOut v mm.symrgtbl rgid laid (ground arith))
  ]
]
