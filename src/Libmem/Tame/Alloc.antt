-- ===== src/Libmem/Tame/Alloc.antt =====
-- `__alloc` on any process.
use mathlib.Core.Path.{subst}
use easter_egg.Common.{ℕ, zero, suc, ◌+◌, ◌≡◌, inl, inr, refl, sym, ap, ◌∙◌}
use easter_egg.Common.{List, [], ◌∷◌, Option, none, some, Status, ok, minus_one, one, ltb}
use easter_egg.Common.{Bool-cases, >>=-eq-some, ◌>>=◌, update}
use easter_egg.Common.{set}
use easter_egg.Pte.{paging_page_alignsz}
use easter_egg.Vm.{Region, Area, Malloc, Caller, region, get_vma_by_num, area_at, put_area}
use easter_egg.Vm.{inc_vma_limit}
use easter_egg.Vm.Shape.{Raises, refused, raised, inc_vma_limit-Raises}
use easter_egg.Vm.Limits.{with_area}
use easter_egg.Libmem.{put_symrg, enlist_rest, place_region, alloc}
use easter_egg.Libmem.{liballoc, get_free_vmrg_area}
use easter_egg.Libmem.Alloc.{enlist_rest_lem, free_after}
use easter_egg.Libmem.Layout.{IsLaidOut, LaidOut, placed-IsLaidOut}
use easter_egg.Libmem.Tame.{Tame, Tame-refl, inc_vma_limit-Tame}
use easter_egg.Libmem.Regions.{get_free_vmrg_area_fails}

-- A raised limit leaves the break and the regions of the area in hand.
raised_area :
    (c after : Caller) (vmaid size : ℕ) (v : Area)
    → Raises c vmaid size after
    → c.mm.mmap ≡ v ∷ []
    → IsLaidOut v c.mm.symrgtbl
    → (w : Area) × (after.mm.mmap ≡ w ∷ []) × (w.sbrk ≡ v.sbrk) × IsLaidOut w after.mm.symrgtbl
unfolding put_area
raised_area c after vmaid size v (refused same) e laid = rw same (v, e, refl, laid)
raised_area c after vmaid size v (raised none x found at t) e laid =
    let bad : none ≡ some x = unfold area_at in at in cc
raised_area c after vmaid size v (raised (some (suc p)) x found at t) e laid =
    let bad : none ≡ some x = unfold area_at in rw e at at in cc
raised_area c after vmaid size v (raised (some zero) x found at (mm, ram, swap)) e laid =
    let here : some v ≡ some x = unfold area_at in rw e at at in
    let same : v ≡ x = cc in
    let whole : IsLaidOut x c.mm.symrgtbl = subst (λ y. IsLaidOut y c.mm.symrgtbl) same laid in
    rw mm (
      record x { vm_end = x.vm_end + size },
      ap (λ l. set l 0 (record x { vm_end = x.vm_end + size })) e,
      ap (λ (y : Area). y.sbrk) (sym same),
      record { below = whole.below; named = whole.named; apart = whole.apart },
    )

-- The new region is placed on the one area.
placed_LaidOut :
    (c after : Caller) (w : Area) (rgid size : ℕ)
    → c.mm.mmap ≡ w ∷ []
    → IsLaidOut w c.mm.symrgtbl
    → place_region c (some 0) rgid size (paging_page_alignsz size) w.sbrk ≡ some after
    → LaidOut after.mm
unfolding place_region area_at put_area put_symrg
placed_LaidOut c after w rgid size e laid h =
    let listed : Area = record w { vm_freerg_list = free_after w.sbrk size w.vm_freerg_list } in
    let rest : enlist_rest c.mm size (paging_page_alignsz size) w.sbrk
        ≡ some (with_area c.mm listed) =
      ap
        (λ (l : List Area).
          enlist_rest (record (c.mm) { mmap = l }) size (paging_page_alignsz size) w.sbrk)
        e
      ∙ enlist_rest_lem c.mm w size w.sbrk in
    elim (Bool-cases (ltb rgid 30)) [
      | inr outside ↦
          (let bad : none ≡ some after = rw (rest, outside, place_region, put_symrg) at h in cc)
      | inl inside ↦
          (let last : Area = record listed { sbrk = w.sbrk + paging_page_alignsz size } in
            let next : Caller = record c {
              mm = record (with_area c.mm last) {
                symrgtbl = update c.mm.symrgtbl rgid (region w.sbrk (w.sbrk + size));
              };
            } in
            let done : some next ≡ some after =
              rw (rest, inside, place_region, put_symrg, area_at, put_area) at h in
            let same : next ≡ after = cc in
            subst (λ (x : Caller). LaidOut x.mm) same
              (last, refl, placed-IsLaidOut w last c.mm.symrgtbl rgid size laid refl refl))
    ]

place_region-devices :
    (c after : Caller) (place : Option ℕ) (rgid size inc_sz old : ℕ)
    → place_region c place rgid size inc_sz old ≡ some after
    → (after.mram ≡ c.mram) × (after.active_mswp ≡ c.active_mswp)
unfolding place_region
place_region-devices c after place rgid size inc_sz old h =
    let (listed, a, h1) = >>=-eq-some (enlist_rest c.mm size inc_sz old) _ h in
    let (named, b, h2) = >>=-eq-some (put_symrg listed rgid (region old (old + size))) _ h1 in
    let (cur, d, h3) = >>=-eq-some (area_at named place) _ h2 in
    (
      ap (λ (o : Option Caller). elim o [ none ↦ c.mram | some y ↦ y.mram ]) (sym h3),
      ap (λ (o : Option Caller). elim o [ none ↦ c.active_mswp | some y ↦ y.active_mswp ]) (sym h3),
    )

-- The branch of `__alloc` in which the limit has been raised.
grown-Tame :
    (malloc : Malloc) (c mid after : Caller) (vmaid p rgid size : ℕ) (v : Area)
    → area_at c.mm (some p) ≡ some v
    → Raises c vmaid (paging_page_alignsz size) mid
    → Tame c mid
    → place_region mid (some p) rgid size (paging_page_alignsz size) v.sbrk ≡ some after
    → Tame c after
unfolding area_at
grown-Tame malloc c mid after vmaid (suc p) rgid size v at r t h =
    let (ram, swap) =
      place_region-devices mid after (some (suc p)) rgid size (paging_page_alignsz size) v.sbrk h in
    record {
      ram = rw ram t.ram;
      swap = rw swap t.swap;
      regions = λ (x, e, laid). let bad : none ≡ some v = rw (e, area_at) at at in cc;
    }
grown-Tame malloc c mid after vmaid zero rgid size v at r t h =
    let (ram, swap) =
      place_region-devices mid after (some 0) rgid size (paging_page_alignsz size) v.sbrk h in
    record {
      ram = rw ram t.ram;
      swap = rw swap t.swap;
      regions = λ (x, e, laid).
          let here : some x ≡ some v = rw (e, area_at) at at in
          let same : x ≡ v = cc in
          let (w, one_area, sbrk, kept) =
            raised_area c mid vmaid (paging_page_alignsz size) x r e laid in
          placed_LaidOut mid after w rgid size one_area kept (rw (sbrk, same) h);
    }

-- Behind the search, which fails.
raises-Tame :
    (malloc : Malloc) (c : Caller) (vmaid p rgid size addr : ℕ) (v : Area)
    (raised : Status × Caller) {r : Status × ℕ × Caller}
    → area_at c.mm (some p) ≡ some v
    → inc_vma_limit malloc c vmaid (paging_page_alignsz size) ≡ some raised
    → ◌≡◌ {A = Option (Status × ℕ × Caller)}
        (elim raised.0 [
          | ok ↦
              place_region raised.1 (some p) rgid size (paging_page_alignsz size) v.sbrk
              >>= λ placed. some (ok, v.sbrk, placed)
          | _ ↦ some (ok, addr, raised.1)
        ])
        (some r)
    → Tame c r.2
raises-Tame malloc c vmaid p rgid size addr v (stat, mid) {r} at done h =
    by_status stat (inc_vma_limit-Raises malloc c vmaid (paging_page_alignsz size) done)
      (inc_vma_limit-Tame malloc c vmaid (paging_page_alignsz size) done) h
  where
    third : Option (Status × ℕ × Caller) → Caller
    third o = elim o [ none ↦ c | some y ↦ y.2 ]

    by_status :
        (stat : Status)
        → Raises c vmaid (paging_page_alignsz size) mid
        → Tame c mid
        → ◌≡◌ {A = Option (Status × ℕ × Caller)}
            (elim stat [
              | ok ↦
                  place_region mid (some p) rgid size (paging_page_alignsz size) v.sbrk
                  >>= λ placed. some (ok, v.sbrk, placed)
              | _ ↦ some (ok, addr, mid)
            ])
            (some r)
        → Tame c r.2
    by_status ok x t h =
        let (after, placed, last) =
          >>=-eq-some (place_region mid (some p) rgid size (paging_page_alignsz size) v.sbrk) _ h in
        subst (Tame c) (ap third last)
          (grown-Tame malloc c mid after vmaid p rgid size v at x t placed)
    by_status minus_one x t h = subst (Tame c) (ap third h) t
    by_status one x t h = subst (Tame c) (ap third h) t

alloc-Tame :
    (malloc : Malloc) (c : Caller) (vmaid rgid size addr : ℕ) {r : Status × ℕ × Caller}
    → alloc malloc c vmaid rgid size addr ≡ some r
    → Tame c r.2
unfolding alloc
alloc-Tame malloc c vmaid rgid size addr {r} e =
    let (x, searched, more) = >>=-eq-some (get_free_vmrg_area c.mm vmaid size (region 0 0)) _ e in
    by_search x.0 x.1 searched more
  where
    third : Option (Status × ℕ × Caller) → Caller
    third o = elim o [ none ↦ c | some y ↦ y.2 ]

    by_place :
        (place : Option ℕ)
        → ◌≡◌ {A = Option (Status × ℕ × Caller)}
            (elim place [
              | none ↦ some (minus_one, addr, c)
              | some p ↦ area_at c.mm (some p) >>= λ cur_vma.
                  inc_vma_limit malloc c vmaid (paging_page_alignsz size) >>= λ raised.
                  elim raised.0 [
                    | ok ↦
                        place_region raised.1
                          (some p)
                          rgid
                          size
                          (paging_page_alignsz size)
                          cur_vma.sbrk
                        >>= λ placed. some (ok, cur_vma.sbrk, placed)
                    | _ ↦ some (ok, addr, raised.1)
                  ]
            ])
            (some r)
        → Tame c r.2
    by_place none h = subst (Tame c) (ap third h) (Tame-refl c)
    by_place (some p) h =
        let (v, at, h1) = >>=-eq-some (area_at c.mm (some p)) _ h in
        let (x, done, h2) =
          >>=-eq-some (inc_vma_limit malloc c vmaid (paging_page_alignsz size)) _ h1 in
        raises-Tame malloc c vmaid p rgid size addr v x at done h2

    by_search :
        (found : Status) (rgnode : Region)
        → get_free_vmrg_area c.mm vmaid size (region 0 0) ≡ some (found, rgnode)
        → ◌≡◌ {A = Option (Status × ℕ × Caller)}
            (elim found [
              | ok ↦ put_symrg c.mm rgid rgnode >>= λ mm.
                  some (ok, rgnode.rg_start, record c { mm = mm })
              | _ ↦ get_vma_by_num c.mm vmaid >>= λ place. elim place [
                | none ↦ some (minus_one, addr, c)
                | some p ↦ area_at c.mm (some p) >>= λ cur_vma.
                    inc_vma_limit malloc c vmaid (paging_page_alignsz size) >>= λ raised.
                    elim raised.0 [
                      | ok ↦
                          place_region raised.1
                            (some p)
                            rgid
                            size
                            (paging_page_alignsz size)
                            cur_vma.sbrk
                          >>= λ placed. some (ok, cur_vma.sbrk, placed)
                      | _ ↦ some (ok, addr, raised.1)
                    ]
              ]
            ])
            (some r)
        → Tame c r.2
    by_search ok rgnode s h =
        elim (get_free_vmrg_area_fails c.mm vmaid size (region 0 0) rgnode s) [ ]
    by_search minus_one rgnode s h =
        let (place, found, h1) = >>=-eq-some (get_vma_by_num c.mm vmaid) _ h in by_place place h1
    by_search one rgnode s h =
        let (place, found, h1) = >>=-eq-some (get_vma_by_num c.mm vmaid) _ h in by_place place h1

pub liballoc-Tame :
    (malloc : Malloc) (c : Caller) (size rgid : ℕ) {r : Status × Caller}
    → liballoc malloc c size rgid ≡ some r
    → Tame c r.1
unfolding liballoc
liballoc-Tame malloc c size rgid {r} e =
    let (x, done, last) = >>=-eq-some (alloc malloc c 0 rgid size 0) _ e in
    subst (Tame c) (ap (λ (o : Option (Status × Caller)). elim o [ none ↦ c | some y ↦ y.1 ]) last)
      (alloc-Tame malloc c 0 rgid size 0 done)
