-- ===== src/Paging/Tame/Access.antt =====
-- Reading and writing a byte of a region.
use mathlib.Core.Path.{subst}
use easter_egg.Common.{ℕ, ◌-◌, ◌^◌, ◌≡◌, ap, Option, none, some, Status, ok}
use easter_egg.Common.{minus_one, one, >>=-eq-some, ◌>>=◌}
use easter_egg.Pte.{paging_pgn, paging_offst, paging_fpn}
use easter_egg.Memphy
use easter_egg.Memphy.{Memphy}
use easter_egg.Memphy.Shape.{write-SameFrames, read-SameFrames}
use easter_egg.Vm.{Malloc, Caller, get_vma_by_num}
use easter_egg.Libmem.{get_symrg_byid, symrg_at}
use easter_egg.Print.{print_pgtbl}
use easter_egg.Libmem.Tame.{Tame, Tame-refl, Tame-trans}
use easter_egg.Paging.{pg_getpage, pg_getval, pg_setval, read, write, libread, libwrite}
use easter_egg.Paging.{phys_addr, region_addr, sign_extend}
use easter_egg.Paging.Tame.{mid, end, with_ram-Tame, pg_getpage-Tame}

pg_getval-Tame :
    (malloc : Malloc) (c : Caller) (addr byte : ℕ) {r : Status × ℕ × Caller}
    → pg_getval malloc c addr byte ≡ some r
    → Tame c r.2
unfolding pg_getval
pg_getval-Tame malloc c addr byte {r} e =
    let (x, got, more) =
      >>=-eq-some (pg_getpage malloc c (paging_pgn addr) (paging_fpn (c.mm.pgd (paging_pgn addr))))
        _ e in
    by_status x.0 x.1 x.2 (pg_getpage-Tame malloc c _ _ got) more
  where
    by_read :
        (paged : Caller) (stat : Status) (value : ℕ) (ram : Memphy)
        → Tame c (record paged { mram = ram })
        → ◌≡◌ {A = Option (Status × ℕ × Caller)}
            (elim stat [
              | ok ↦ some (ok, value, record paged { mram = ram })
              | _ ↦ some (minus_one, value, record paged { mram = ram })
            ])
            (some r)
        → Tame c r.2
    by_read paged ok value ram t h = subst (Tame c) (ap (mid c) h) t
    by_read paged minus_one value ram t h = subst (Tame c) (ap (mid c) h) t
    by_read paged one value ram t h = subst (Tame c) (ap (mid c) h) t

    by_status :
        (stat : Status) (fpn : ℕ) (paged : Caller)
        → Tame c paged
        → ◌≡◌ {A = Option (Status × ℕ × Caller)}
            (elim stat [
              | ok ↦ Memphy.read paged.mram (phys_addr fpn (paging_offst addr)) byte >>= λ r.
                  elim r.0 [
                    | ok ↦ some (ok, r.1, record paged { mram = r.2 })
                    | _ ↦ some (minus_one, r.1, record paged { mram = r.2 })
                  ]
              | _ ↦ some (minus_one, byte, paged)
            ])
            (some r)
        → Tame c r.2
    by_status ok fpn paged t h =
        let (x, done, last) =
          >>=-eq-some (Memphy.read paged.mram (phys_addr fpn (paging_offst addr)) byte) _ h in
        by_read paged x.0 x.1 x.2
          (Tame-trans t (with_ram-Tame paged x.2 (read-SameFrames paged.mram _ byte done))) last
    by_status minus_one fpn paged t h = subst (Tame c) (ap (mid c) h) t
    by_status one fpn paged t h = subst (Tame c) (ap (mid c) h) t

pg_setval-Tame :
    (malloc : Malloc) (c : Caller) (addr value : ℕ) {r : Status × Caller}
    → pg_setval malloc c addr value ≡ some r
    → Tame c r.1
unfolding pg_setval
pg_setval-Tame malloc c addr value {r} e =
    let (x, got, more) = >>=-eq-some (pg_getpage malloc c (paging_pgn addr) 0) _ e in
    by_status x.0 x.1 x.2 (pg_getpage-Tame malloc c _ _ got) more
  where
    by_write :
        (paged : Caller) (stat : Status) (ram : Memphy)
        → Tame c (record paged { mram = ram })
        → ◌≡◌ {A = Option (Status × Caller)}
            (elim stat [
              | ok ↦ some (ok, record paged { mram = ram })
              | _ ↦ some (minus_one, record paged { mram = ram })
            ])
            (some r)
        → Tame c r.1
    by_write paged ok ram t h = subst (Tame c) (ap (end c) h) t
    by_write paged minus_one ram t h = subst (Tame c) (ap (end c) h) t
    by_write paged one ram t h = subst (Tame c) (ap (end c) h) t

    by_status :
        (stat : Status) (fpn : ℕ) (paged : Caller)
        → Tame c paged
        → ◌≡◌ {A = Option (Status × Caller)}
            (elim stat [
              | ok ↦ Memphy.write paged.mram (phys_addr fpn (paging_offst addr)) value >>= λ r.
                  elim r.0 [
                    | ok ↦ some (ok, record paged { mram = r.1 })
                    | _ ↦ some (minus_one, record paged { mram = r.1 })
                  ]
              | _ ↦ some (minus_one, paged)
            ])
            (some r)
        → Tame c r.1
    by_status ok fpn paged t h =
        let (x, done, last) =
          >>=-eq-some (Memphy.write paged.mram (phys_addr fpn (paging_offst addr)) value) _ h in
        by_write paged x.0 x.1
          (Tame-trans t (with_ram-Tame paged x.1 (write-SameFrames paged.mram _ value done))) last
    by_status minus_one fpn paged t h = subst (Tame c) (ap (end c) h) t
    by_status one fpn paged t h = subst (Tame c) (ap (end c) h) t

read-Tame :
    (malloc : Malloc) (c : Caller) (vmaid rgid offset byte : ℕ) {r : Status × ℕ × Caller}
    → read malloc c vmaid rgid offset byte ≡ some r
    → Tame c r.2
unfolding read
read-Tame malloc c vmaid rgid offset byte {r} e =
    let (place, found, more) = >>=-eq-some (get_vma_by_num c.mm vmaid) _ e in
    by_entry place (get_symrg_byid rgid) more
  where
    stays : some (minus_one, byte, c) ≡ some r → Tame c r.2
    stays h = subst (Tame c) (ap (mid c) h) (Tame-refl c)

    by_entry :
        (place entry : Option ℕ)
        → ◌≡◌ {A = Option (Status × ℕ × Caller)}
            (elim entry [
              | none ↦ some (minus_one, byte, c)
              | some id ↦ elim place [
                | none ↦ some (minus_one, byte, c)
                | some _ ↦
                    symrg_at c.mm id >>= λ currg. pg_getval malloc c (region_addr currg offset) byte
              ]
            ])
            (some r)
        → Tame c r.2
    by_entry place none h = stays h
    by_entry none (some id) h = stays h
    by_entry (some p) (some id) h =
        let (currg, at, done) = >>=-eq-some (symrg_at c.mm id) _ h in
        pg_getval-Tame malloc c (region_addr currg offset) byte done

write-Tame :
    (malloc : Malloc) (c : Caller) (vmaid rgid offset value : ℕ) {r : Status × Caller}
    → write malloc c vmaid rgid offset value ≡ some r
    → Tame c r.1
unfolding write
write-Tame malloc c vmaid rgid offset value {r} e =
    let (place, found, more) = >>=-eq-some (get_vma_by_num c.mm vmaid) _ e in
    by_entry place (get_symrg_byid rgid) more
  where
    stays : some (minus_one, c) ≡ some r → Tame c r.1
    stays h = subst (Tame c) (ap (end c) h) (Tame-refl c)

    by_entry :
        (place entry : Option ℕ)
        → ◌≡◌ {A = Option (Status × Caller)}
            (elim entry [
              | none ↦ some (minus_one, c)
              | some id ↦ elim place [
                | none ↦ some (minus_one, c)
                | some _ ↦ symrg_at c.mm id >>= λ currg.
                    pg_setval malloc c (region_addr currg offset) value
              ]
            ])
            (some r)
        → Tame c r.1
    by_entry place none h = stays h
    by_entry none (some id) h = stays h
    by_entry (some p) (some id) h =
        let (currg, at, done) = >>=-eq-some (symrg_at c.mm id) _ h in
        pg_setval-Tame malloc c (region_addr currg offset) value done

pub libread-Tame :
    (malloc : Malloc) (c : Caller) (source offset : ℕ) {r : Status × ℕ × Caller}
    → libread malloc c source offset ≡ some r
    → Tame c r.2
unfolding libread
libread-Tame malloc c source offset {r} e =
    let (x, done, more) = >>=-eq-some (read malloc c 0 source offset malloc.byte) _ e in
    by_status x.0 x.1 x.2 (read-Tame malloc c 0 source offset malloc.byte done) more
  where
    by_status :
        (stat : Status) (value : ℕ) (after : Caller)
        → Tame c after
        → ◌≡◌ {A = Option (Status × ℕ × Caller)}
            (elim stat [
              | ok ↦ print_pgtbl after 0 (2 ^ 32 - 1) >>= λ _. some (ok, sign_extend value, after)
              | _ ↦ some (minus_one, 2 ^ 32 - 1, after)
            ])
            (some r)
        → Tame c r.2
    by_status ok value after t h =
        let (lines, printed, last) = >>=-eq-some (print_pgtbl after 0 (2 ^ 32 - 1)) _ h in
        subst (Tame c) (ap (mid c) last) t
    by_status minus_one value after t h = subst (Tame c) (ap (mid c) h) t
    by_status one value after t h = subst (Tame c) (ap (mid c) h) t

pub libwrite-Tame :
    (malloc : Malloc) (c : Caller) (byte destination offset : ℕ) {r : Status × Caller}
    → libwrite malloc c byte destination offset ≡ some r
    → Tame c r.1
unfolding libwrite
libwrite-Tame malloc c byte destination offset {r} e =
    let (lines, printed, written) = >>=-eq-some (print_pgtbl c 0 (2 ^ 32 - 1)) _ e in
    write-Tame malloc c 0 destination offset byte written
