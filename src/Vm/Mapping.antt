-- ===== src/Vm/Mapping.antt =====
-- `alloc_pages_range`, `vmap_page_range` and `vm_map_ram`: which frames are taken and what is
-- mapped.
use mathlib.Core.List.{append_assoc, append-nil}
use easter_egg.Common.{ℕ, zero, suc, ◌≤◌, ◌<◌, ◌≡◌, refl, ◌∙◌, ap, arith, true}
use easter_egg.Common.{List, [], ◌∷◌, ◌++◌, length, take, drop, some, ok, minus_one}
use easter_egg.Common.{Bool-cases, inl, inr, ◌==◌, Bool}
use easter_egg.Memphy.{Memphy, get_freefp}
use easter_egg.Vm.{Region, Caller, Malloc, region, alloc_pages_loop, alloc_pages_range}
use easter_egg.Vm.{vmap_loop, vmap_page_range, vm_map_ram}

-- The device without its first `n` free frames.
abbrev pub without_frames : ℕ → Memphy → Memphy
without_frames n mram = record mram { free_fp_list = drop n mram.free_fp_list }

enough_loop :
    (link_null : Bool) (n : ℕ) (got free : List ℕ) (mram : Memphy)
    → n ≤ length free
    → alloc_pages_loop link_null n got (record mram { free_fp_list = free })
      ≡ some (ok, got ++ take n free, record mram { free_fp_list = drop n free })
unfolding alloc_pages_loop get_freefp
enough_loop link_null zero got free mram h = rw append-nil
enough_loop link_null (suc n) got [] mram h = absurd (omega arith)
enough_loop link_null (suc n) got (f ∷ free) mram h =
    enough_loop link_null n (got ++ f ∷ []) free mram (omega arith)
    ∙ ap (λ (l : List ℕ). some (ok, l, record mram { free_fp_list = drop n free }))
        (append_assoc got (f ∷ []) (take n free))

short_loop :
    (n : ℕ) (got free : List ℕ) (mram : Memphy)
    → length free < n
    → alloc_pages_loop true n got (record mram { free_fp_list = free })
      ≡ some (minus_one, got ++ free, record mram { free_fp_list = [] })
unfolding alloc_pages_loop get_freefp
short_loop zero got free mram h = absurd (omega arith)
short_loop (suc n) got [] mram h = rw append-nil
short_loop (suc n) got (f ∷ free) mram h =
    short_loop n (got ++ f ∷ []) free mram (omega arith)
    ∙ ap (λ (l : List ℕ). some (minus_one, l, record mram { free_fp_list = [] }))
        (append_assoc got (f ∷ []) free)

-- With enough free frames `alloc_pages_range` returns 0 and takes the first `n`, but hands back
-- the frame list that it was given.
alloc_pages_range_enough :
    (link_null : Bool) (mram : Memphy) (n : ℕ) (frm_lst : List ℕ)
    → n ≤ length mram.free_fp_list
    → alloc_pages_range link_null mram n frm_lst ≡ some (ok, frm_lst, without_frames n mram)
unfolding alloc_pages_range
alloc_pages_range_enough link_null mram n frm_lst h =
    rw (enough_loop link_null n [] mram.free_fp_list mram h)

-- Without enough free frames, and with the unset link of the last node null, `alloc_pages_range`
-- returns -1 and keeps every frame that it took: none is free afterwards.
pub alloc_pages_range_short :
    (mram : Memphy) (n : ℕ) (frm_lst : List ℕ)
    → length mram.free_fp_list < n
    → alloc_pages_range true mram n frm_lst
      ≡ some (minus_one, frm_lst, record mram { free_fp_list = [] })
unfolding alloc_pages_range
alloc_pages_range_short mram n frm_lst h = rw (short_loop n [] mram.free_fp_list mram h)

-- With no frame to map, `vm_map_ram` changes nothing but the free frames of RAM.
pub vm_map_ram_enough :
    (malloc : Malloc) (caller : Caller) (start n : ℕ) (rg : Region)
    → n ≤ length caller.mram.free_fp_list
    → (out : Region) × (vm_map_ram malloc caller start n rg
        ≡ some (ok, out, record caller { mram = without_frames n caller.mram }))
unfolding vm_map_ram vmap_page_range vmap_loop
vm_map_ram_enough malloc caller start n rg h = elim (Bool-cases (n == 0)) [
  | inl e ↦ (rg, rw (alloc_pages_range_enough malloc.link_null caller.mram n [] h, e) refl)
  | inr e ↦ (
    region start start,
    rw (alloc_pages_range_enough malloc.link_null caller.mram n [] h, e) refl,
  )
]
