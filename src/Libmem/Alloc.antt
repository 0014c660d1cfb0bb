-- ===== src/Libmem/Alloc.antt =====
-- `__alloc` and `__free` on a process with one area.
use easter_egg.Common.{ℕ, ◌+◌, ◌/◌, ◌≤◌, ◌<◌, ◌≡◌, refl, arith, some, ok}
use easter_egg.Common.{List, ◌∷◌, length, ltb, if◌then◌else◌, update}
use easter_egg.Common.{lt→ltb}
use easter_egg.Pte.{paging_page_alignsz}
use easter_egg.Memphy.{Memphy}
use easter_egg.Vm.{Region, Area, Mm, Malloc, region, area_at, put_area}
use easter_egg.Vm.Mapping.{without_frames}
use easter_egg.Vm.Limits.{with_area, Below, first_area, inc_vma_limit_enough}
use easter_egg.Libmem.{alloc, place_region, enlist_rest, enlist_vm_freerg_list, put_symrg}
use easter_egg.Libmem.{get_free_vmrg_area, free_vmrg_at, free_vmrg_search}
use easter_egg.Libmem.Regions.{search_fails}

-- The sizes in whole pages.
aligned : (size : ℕ) → paging_page_alignsz (paging_page_alignsz size) ≡ paging_page_alignsz size
aligned size = omega arith

-- The free list after an allocation from the break: the rest of the last page without its first
-- byte, if more than one byte is left.
abbrev pub free_after : ℕ → ℕ → List Region → List Region
free_after sbrk size l =
    if ltb (size + 1) (paging_page_alignsz size)
    then region (size + sbrk + 1) (paging_page_alignsz size + sbrk) ∷ l
    else l

abbrev pub area_after : Area → ℕ → Area
area_after v size = record v {
  vm_end = v.vm_end + paging_page_alignsz size;
  sbrk = v.sbrk + paging_page_alignsz size;
  vm_freerg_list = free_after v.sbrk size v.vm_freerg_list;
}

pub enlist_rest_lem :
    (mm : Mm) (v : Area) (size sbrk : ℕ)
    → enlist_rest (with_area mm v) size (paging_page_alignsz size) sbrk
      ≡ some (with_area mm (record v { vm_freerg_list = free_after sbrk size v.vm_freerg_list }))
unfolding enlist_rest enlist_vm_freerg_list
enlist_rest_lem mm v size sbrk = ground arith

search_on_area :
    (mm : Mm) (v : Area) (size : ℕ) (newrg : Region)
    → get_free_vmrg_area (with_area mm v) 0 size newrg
      ≡ some (free_vmrg_search v.vm_freerg_list size newrg)
unfolding get_free_vmrg_area free_vmrg_at area_at
search_on_area mm v size newrg = rw first_area

-- `__alloc` on a process whose free regions lie below the break and whose entry `rgid` exists, with
-- enough free frames in RAM: it gives 0 and the break as the address; the entry is the `size` bytes
-- from there; break and end of the area grow by whole pages; that many frames are no longer free;
-- and neither the page table nor the list of pages changes, so that no page is mapped.
pub alloc_lem :
    (malloc : Malloc) (mm : Mm) (v : Area) (mram mswp : Memphy) (rgid size addr : ℕ)
    → Below v.sbrk v.vm_freerg_list
    → rgid < 30
    → paging_page_alignsz size / 256 ≤ length mram.free_fp_list
    → alloc malloc
        (record { mm = with_area mm v; mram = mram; active_mswp = mswp })
        0
        rgid
        size
        addr
      ≡ some (
        ok,
        v.sbrk,
        record {
          mm = record (with_area mm (area_after v size)) {
            symrgtbl = update mm.symrgtbl rgid (region v.sbrk (v.sbrk + size));
          };
          mram = without_frames (paging_page_alignsz size / 256) mram;
          active_mswp = mswp;
        },
      )
unfolding alloc area_at put_area place_region put_symrg
alloc_lem malloc mm v mram mswp rgid size addr below known enough =
    rw
      (
        search_on_area,
        search_fails v.vm_freerg_list size (region 0 0),
        first_area,
        inc_vma_limit_enough malloc mm v mram mswp (paging_page_alignsz size) below
            (rw aligned enough),
        enlist_rest_lem,
        aligned,
        lt→ltb rgid 30 known,
      )
      refl
