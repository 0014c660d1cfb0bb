-- ===== src/Vm/Limits.antt =====
-- `inc_vma_limit` on the first area of a process.
use easter_egg.Common.{ℕ, ◌+◌, ◌/◌, ◌≤◌, ◌≡◌, refl, arith, some, ok}
use easter_egg.Common.{List, [], ◌∷◌, All, length}
use easter_egg.Pte.{paging_page_alignsz}
use easter_egg.Memphy.{Memphy}
use easter_egg.Vm.{Region, Area, Mm, Malloc, region, walk, get_vma_by_num, area_at, put_area}
use easter_egg.Vm.{overlap_loop, validate_overlap_vm_area, get_vm_area_node_at_brk, inc_vma_limit}
use easter_egg.Vm.Mapping.{without_frames, vm_map_ram_enough}

-- The memory of a process whose only area is `v`.
abbrev pub with_area : Mm → Area → Mm
with_area mm v = record mm { mmap = v ∷ [] }

-- Every free region lies below the break.
abbrev pub Below : ℕ → List Region → Type 0
Below sbrk = All (λ r. r.rg_end ≤ sbrk)

pub first_area : (mm : Mm) (v : Area) → get_vma_by_num (with_area mm v) 0 ≡ some (some 0)
unfolding get_vma_by_num walk
first_area mm v = ground arith

no_overlap : (l : List Region) (sbrk end : ℕ) → Below sbrk l → overlap_loop l sbrk end ≡ ok
unfolding overlap_loop
no_overlap [] sbrk end h = refl
no_overlap (r ∷ l) sbrk end h = ground (arith, no_overlap l sbrk end h.1)

-- With every free region below the break the new area overlaps none of them.
validate_above :
    (mm : Mm) (v : Area) (end : ℕ)
    → Below v.sbrk v.vm_freerg_list
    → validate_overlap_vm_area (with_area mm v) 0 v.sbrk end ≡ some ok
unfolding validate_overlap_vm_area area_at
validate_above mm v end h = rw (first_area, no_overlap v.vm_freerg_list v.sbrk end h)

-- With enough frames `inc_vma_limit` raises the end of the area and takes the frames; the page
-- table stays as it was.
pub inc_vma_limit_enough :
    (malloc : Malloc) (mm : Mm) (v : Area) (mram mswp : Memphy) (size : ℕ)
    → Below v.sbrk v.vm_freerg_list
    → paging_page_alignsz size / 256 ≤ length mram.free_fp_list
    → inc_vma_limit malloc (record { mm = with_area mm v; mram = mram; active_mswp = mswp }) 0 size
      ≡ some (
        ok,
        record {
          mm = with_area mm (record v { vm_end = v.vm_end + size });
          mram = without_frames (paging_page_alignsz size / 256) mram;
          active_mswp = mswp;
        },
      )
unfolding inc_vma_limit get_vm_area_node_at_brk area_at put_area
inc_vma_limit_enough malloc mm v mram mswp size h enough =
    let (out, e) =
      vm_map_ram_enough malloc
        (record {
          mm = with_area mm (record v { vm_end = v.vm_end + size });
          mram = mram;
          active_mswp = mswp;
        })
        v.vm_end (paging_page_alignsz size / 256) (region 0 0) enough in
    rw (first_area, validate_above mm v (v.sbrk + size) h) (rw e)
