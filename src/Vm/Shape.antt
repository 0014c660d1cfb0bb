-- ===== src/Vm/Shape.antt =====
-- What raising the limit of an area leaves of the memory of a process and of the devices, on every
-- branch.
use mathlib.Core.Path.{subst}
use easter_egg.Common.{ℕ, zero, suc, ◌+◌, ◌≡◌, inl, inr, refl, sym, ap, arith}
use easter_egg.Common.{List, [], ◌∷◌, ◌++◌, Option, none, some, Status, ok, minus_one, one}
use easter_egg.Common.{Bool, true, false, ◌/◌, Option-cases, >>=-eq-some, ◌>>=◌, if◌then◌else◌}
use easter_egg.Pte.{paging_page_alignsz, paging_pagesz}
use easter_egg.Memphy.{Memphy, get_freefp}
use easter_egg.Memphy.Shape.{Shrinks, Shrinks-refl, Shrinks-trans, get_freefp-Shrinks}
use easter_egg.Vm.{Region, Area, Mm, Malloc, Caller, region, alloc_pages_loop, alloc_pages_range}
use easter_egg.Vm.{vmap_loop, vmap_page_range, vm_map_ram, get_vma_by_num, area_at, put_area}
use easter_egg.Vm.{get_vm_area_node_at_brk, validate_overlap_vm_area, inc_vma_limit}

alloc_pages_loop-Shrinks :
    (link_null : Bool) (rounds : ℕ) (got : List ℕ) (mram : Memphy) {r : Status × List ℕ × Memphy}
    → alloc_pages_loop link_null rounds got mram ≡ some r
    → Shrinks mram r.2
unfolding alloc_pages_loop
alloc_pages_loop-Shrinks link_null zero got mram {r} e =
    let same : (ok, got, mram) ≡ r = cc in
    subst (λ (x : Status × List ℕ × Memphy). Shrinks mram x.2) same (Shrinks-refl mram)
alloc_pages_loop-Shrinks link_null (suc rounds) got mram {r} e =
    by_status (get_freefp mram 0) (get_freefp-Shrinks mram 0)
      (λ more rest. alloc_pages_loop-Shrinks link_null rounds more rest {r = r}) e
  where
    stays :
        (b : Bool) → (if b then some (minus_one, got, mram) else none) ≡ some r → Shrinks mram r.2
    stays true h =
        let same : (minus_one, got, mram) ≡ r = cc in
        subst (λ (x : Status × List ℕ × Memphy). Shrinks mram x.2) same (Shrinks-refl mram)
    stays false h = cc

    by_status :
        (x : Status × ℕ × Memphy)
        → Shrinks mram x.2
        → ((more : List ℕ) (rest : Memphy)
            → alloc_pages_loop link_null rounds more rest ≡ some r
            → Shrinks rest r.2)
        → ◌≡◌ {A = Option (Status × List ℕ × Memphy)}
            (elim x.0 [
              | ok ↦ alloc_pages_loop link_null rounds (got ++ x.1 ∷ []) x.2
              | _ ↦ (if link_null then some (minus_one, got, mram) else none)
            ])
            (some r)
        → Shrinks mram r.2
    by_status (ok, fpn, rest) s ih h = Shrinks-trans s (ih (got ++ fpn ∷ []) rest h)
    by_status (minus_one, fpn, rest) s ih h = stays link_null h
    by_status (one, fpn, rest) s ih h = stays link_null h

maps_nothing :
    (mm : Mm) (addr n : ℕ) (rg : Region) {r : Status × Region × Mm}
    → vmap_page_range mm addr n [] rg ≡ some r
    → r.2 ≡ mm
unfolding vmap_page_range vmap_loop
maps_nothing mm addr n rg e = ground arith

-- The memory map and the swap device stay, and RAM loses frames at most.
abbrev pub TakesFrames : Caller → Caller → Type 0
TakesFrames c after =
    (after.mm ≡ c.mm) × Shrinks c.mram after.mram × (after.active_mswp ≡ c.active_mswp)

maps :
    (malloc : Malloc) (c : Caller) (start n : ℕ) (rg : Region) (stat : Status) (rest : Memphy)
    {r : Status × Region × Caller}
    → Shrinks c.mram rest
    → ◌≡◌ {A = Option (Status × Region × Caller)}
        (elim stat [
          | ok ↦ vmap_page_range c.mm start n [] rg >>= λ r.
              some (ok, r.1, record c { mm = r.2; mram = rest })
          | _ ↦ some (minus_one, rg, record c { mram = rest })
        ])
        (some r)
    → TakesFrames c r.2
maps malloc c start n rg ok rest {r} s e =
    let (x, mapped, last) = >>=-eq-some (vmap_page_range c.mm start n [] rg) _ e in
    let same : record c { mm = x.2; mram = rest } ≡ r.2 =
      ap (λ (o : Option (Status × Region × Caller)). elim o [ none ↦ c | some y ↦ y.2 ]) last in
    subst (TakesFrames c) same (maps_nothing c.mm start n rg {r = x} mapped, s, refl)
maps malloc c start n rg minus_one rest {r} s e =
    let same : record c { mram = rest } ≡ r.2 =
      ap (λ (o : Option (Status × Region × Caller)). elim o [ none ↦ c | some y ↦ y.2 ]) e in
    subst (TakesFrames c) same (refl, s, refl)
maps malloc c start n rg one rest {r} s e =
    let same : record c { mram = rest } ≡ r.2 =
      ap (λ (o : Option (Status × Region × Caller)). elim o [ none ↦ c | some y ↦ y.2 ]) e in
    subst (TakesFrames c) same (refl, s, refl)

-- `vm_map_ram` maps nothing: `alloc_pages_range` hands back the empty list that it was given.
vm_map_ram-TakesFrames :
    (malloc : Malloc) (c : Caller) (start n : ℕ) (rg : Region) {r : Status × Region × Caller}
    → vm_map_ram malloc c start n rg ≡ some r
    → TakesFrames c r.2
unfolding vm_map_ram alloc_pages_range
vm_map_ram-TakesFrames malloc c start n rg {r} e =
    elim (Option-cases (alloc_pages_loop malloc.link_null n [] c.mram)) [
      | inl fault ↦ (let bad : none ≡ some r = rw (fault, vm_map_ram, alloc_pages_range) at e in cc)
      | inr (y, taken) ↦
          maps malloc c start n rg y.0 y.2 {r = r}
            (alloc_pages_loop-Shrinks malloc.link_null n [] c.mram {r = y} taken)
            (rw (taken, vm_map_ram, alloc_pages_range) at e)
    ]

-- What `inc_vma_limit` leaves: the caller as it was, or with another end of the area in hand and
-- fewer frames.
pub data Raises (c : Caller) (vmaid size : ℕ) (after : Caller) : Type 0 where
  refused : after ≡ c → Raises c vmaid size after
  raised :
      (place : Option ℕ) (v : Area)
      → get_vma_by_num c.mm vmaid ≡ some place
      → area_at c.mm place ≡ some v
      → TakesFrames
          (record c { mm = put_area c.mm place (record v { vm_end = v.vm_end + size }) })
          after
      → Raises c vmaid size after

pub inc_vma_limit-Raises :
    (malloc : Malloc) (c : Caller) (vmaid size : ℕ) {r : Status × Caller}
    → inc_vma_limit malloc c vmaid size ≡ some r
    → Raises c vmaid size r.1
unfolding inc_vma_limit
inc_vma_limit-Raises malloc c vmaid size {r} e =
    let (node, at_brk, e1) = >>=-eq-some (get_vm_area_node_at_brk c.mm vmaid size) _ e in
    let (place, found, e2) = >>=-eq-some (get_vma_by_num c.mm vmaid) _ e1 in
    let (v, area, e3) = >>=-eq-some (area_at c.mm place) _ e2 in
    let (valid, checked, e4) =
      >>=-eq-some (validate_overlap_vm_area c.mm vmaid node.rg_start node.rg_end) _ e3 in
    by_status place v found area valid e4
  where
    grows :
        (place : Option ℕ) (v : Area)
        → get_vma_by_num c.mm vmaid ≡ some place
        → area_at c.mm place ≡ some v
        → (vm_map_ram malloc
              (record c { mm = put_area c.mm place (record v { vm_end = v.vm_end + size }) })
              v.vm_end
              (paging_page_alignsz size / paging_pagesz)
              (region 0 0)
            >>= λ r. some (r.0, r.2))
          ≡ some r
        → Raises c vmaid size r.1
    grows place v found area h =
        let next = record c { mm = put_area c.mm place (record v { vm_end = v.vm_end + size }) } in
        let (x, mapped, last) =
          >>=-eq-some
            (vm_map_ram malloc next v.vm_end (paging_page_alignsz size / paging_pagesz)
              (region 0 0))
            _ h in
        let same : x.2 ≡ r.1 =
          ap (λ (o : Option (Status × Caller)). elim o [ none ↦ c | some y ↦ y.1 ]) last in
        raised place v found area (
          subst (TakesFrames next) same
            (vm_map_ram-TakesFrames malloc next v.vm_end _ (region 0 0) {r = x} mapped))

    by_status :
        (place : Option ℕ) (v : Area)
        → get_vma_by_num c.mm vmaid ≡ some place
        → area_at c.mm place ≡ some v
        → (valid : Status)
        → ◌≡◌ {A = Option (Status × Caller)}
            (elim valid [
              | minus_one ↦ some (minus_one, c)
              | _ ↦
                  vm_map_ram malloc
                    (record c { mm = put_area c.mm place (record v { vm_end = v.vm_end + size }) })
                    v.vm_end
                    (paging_page_alignsz size / paging_pagesz)
                    (region 0 0)
                  >>= λ r. some (r.0, r.2)
            ])
            (some r)
        → Raises c vmaid size r.1
    by_status place v found area minus_one h =
        refused (ap (λ (o : Option (Status × Caller)). elim o [ none ↦ c | some y ↦ y.1 ]) (sym h))
    by_status place v found area ok h = grows place v found area h
    by_status place v found area one h = grows place v found area h
