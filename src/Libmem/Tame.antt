-- ===== src/Libmem/Tame.antt =====
-- What the routines of src/libmem.c leave of the regions of a process and of the free frames,
-- whatever they are given.
pub mod Free
pub mod Alloc
use mathlib.Core.Path.{subst}
use easter_egg.Common.{ℕ, zero, suc, ◌+◌, ◌<◌, ◌≡◌, ◌⊎◌, inl, inr, refl, sym, ap, ◌∙◌, arith}
use easter_egg.Common.{List, [], ◌∷◌, Option, none, some, Status, ok, minus_one, one, ltb, leb}
use easter_egg.Common.{Bool, true, false, Bool-cases, Option-cases, >>=-eq-some, ◌>>=◌, update}
use easter_egg.Common.{if◌then◌else◌, ◌==◌, lt→ltb, set}
use easter_egg.Pte.{paging_page_alignsz}
use easter_egg.Memphy.Shape.{Shrinks, SameDevice, Shrinks-refl, Shrinks-trans, SameDevice-refl}
use easter_egg.Memphy.Shape.{SameDevice-trans}
use easter_egg.Vm.{Region, Area, Mm, Malloc, Caller, region, get_vma_by_num, area_at, put_area}
use easter_egg.Vm.{walk, inc_vma_limit}
use easter_egg.Vm.Shape.{TakesFrames, Raises, refused, raised, inc_vma_limit-Raises}
use easter_egg.Vm.Limits.{with_area, first_area}
use easter_egg.Libmem.{enlist_vm_freerg_list, put_symrg, enlist_rest, place_region, alloc, free}
use easter_egg.Libmem.{liballoc, libfree, get_free_vmrg_area}
use easter_egg.Libmem.Alloc.{enlist_rest_lem, free_after}
use easter_egg.Libmem.Layout.{IsLaidOut, LaidOut, placed-IsLaidOut, freed-IsLaidOut}

pub record Tame (c after : Caller) : Type 0 where
  pub ram : Shrinks c.mram after.mram
  pub swap : SameDevice c.active_mswp after.active_mswp
  pub regions : LaidOut c.mm → LaidOut after.mm

pub Tame-refl : (c : Caller) → Tame c c
Tame-refl c = record {
  ram = Shrinks-refl c.mram;
  swap = SameDevice-refl c.active_mswp;
  regions = λ l. l;
}

pub Tame-trans : {a b c : Caller} → Tame a b → Tame b c → Tame a c
Tame-trans s t = record {
  ram = Shrinks-trans s.ram t.ram;
  swap = SameDevice-trans s.swap t.swap;
  regions = λ l. t.regions (s.regions l);
}

-- Neither the areas nor the table of regions have changed.
pub same-LaidOut :
    (mm after : Mm)
    → after.mmap ≡ mm.mmap
    → after.symrgtbl ≡ mm.symrgtbl
    → LaidOut mm
    → LaidOut after
same-LaidOut mm after areas table (v, e, laid) = (v, areas ∙ e, rw table laid)

-- The end of an area has no part in how its regions are laid out.
raised-LaidOut :
    (mm : Mm) (place : ℕ) (v : Area) (end : ℕ)
    → area_at mm (some place) ≡ some v
    → LaidOut mm
    → LaidOut (put_area mm (some place) (record v { vm_end = end }))
unfolding area_at put_area
raised-LaidOut mm zero v end at (w, e, laid) =
    let here : some w ≡ some v = rw e at at in
    let same : w ≡ v = cc in
    let whole : IsLaidOut v mm.symrgtbl = subst (λ x. IsLaidOut x mm.symrgtbl) same laid in
    (
      record v { vm_end = end },
      ap (λ l. set l 0 (record v { vm_end = end })) e,
      record { below = whole.below; named = whole.named; apart = whole.apart },
    )
raised-LaidOut mm (suc place) v end at (w, e, laid) = let bad : none ≡ some v = rw e at at in cc

pub inc_vma_limit-Tame :
    (malloc : Malloc) (c : Caller) (vmaid size : ℕ) {r : Status × Caller}
    → inc_vma_limit malloc c vmaid size ≡ some r
    → Tame c r.1
inc_vma_limit-Tame malloc c vmaid size {r} e =
    from (inc_vma_limit-Raises malloc c vmaid size {r = r} e)
  where
    from : Raises c vmaid size r.1 → Tame c r.1
    from (refused same) = subst (Tame c) (sym same) (Tame-refl c)
    from (raised none v found at t) = let bad : none ≡ some v = unfold area_at in at in cc
    from (raised (some place) v found at (mm, ram, swap)) = record {
      ram = ram;
      swap = rw swap (SameDevice-refl c.active_mswp);
      regions = λ l. rw mm (raised-LaidOut c.mm place v (v.vm_end + size) at l);
    }
