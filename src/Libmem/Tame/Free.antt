-- ===== src/Libmem/Tame/Free.antt =====
-- `__free` on any process.
use mathlib.Core.Path.{subst}
use easter_egg.Common.{ℕ, ◌<◌, ◌≡◌, inl, inr, refl, ap, arith}
use easter_egg.Common.{[], ◌∷◌, Option, none, some, Status, ok, minus_one, leb}
use easter_egg.Common.{false, Bool-cases, >>=-eq-some, ◌>>=◌, update}
use easter_egg.Common.{lt→ltb}
use easter_egg.Memphy.Shape.{Shrinks-refl, SameDevice-refl}
use easter_egg.Vm.{Area, Mm, Caller, region, get_vma_by_num}
use easter_egg.Libmem.{enlist_vm_freerg_list, put_symrg, free}
use easter_egg.Libmem.{libfree}
use easter_egg.Libmem.Layout.{LaidOut, freed-IsLaidOut}
use easter_egg.Libmem.Tame.{Tame, Tame-refl}

-- The two ends of `__free` that change something.
free_entry :
    (mm next last : Mm) (stat : Status) (rgid : ℕ)
    → rgid < 30
    → enlist_vm_freerg_list mm (region (mm.symrgtbl rgid).rg_start (mm.symrgtbl rgid).rg_end)
      ≡ some (stat, next)
    → (leb (mm.symrgtbl rgid).rg_end (mm.symrgtbl rgid).rg_start) ≡ false
    → put_symrg next rgid (region 0 0) ≡ some last
    → LaidOut mm
    → LaidOut last
unfolding enlist_vm_freerg_list put_symrg
free_entry mm next last stat rgid known listed some_bytes put (v, e, laid) =
    let rg = region (mm.symrgtbl rgid).rg_start (mm.symrgtbl rgid).rg_end in
    let w : Area = record v { vm_freerg_list = rg ∷ v.vm_freerg_list } in
    let first : ◌≡◌ {A = Option (Status × Mm)} (some (ok, record mm { mmap = w ∷ [] }))
        (some (stat, next)) =
      rw (e, some_bytes, enlist_vm_freerg_list) at listed in
    let kept : record mm { mmap = w ∷ [] } ≡ next = cc in
    let second : some (record next { symrgtbl = update next.symrgtbl rgid (region 0 0) })
        ≡ some last =
      rw (lt→ltb rgid 30 known, put_symrg) at put in
    let ended : record next { symrgtbl = update next.symrgtbl rgid (region 0 0) } ≡ last = cc in
    subst LaidOut ended (
      subst (λ (x : Mm). LaidOut (record x { symrgtbl = update x.symrgtbl rgid (region 0 0) })) kept
        (w, refl, freed-IsLaidOut v mm.symrgtbl rgid laid known))

pub free-Tame :
    (c : Caller) (vmaid rgid : ℕ) {r : Status × Caller} → free c vmaid rgid ≡ some r → Tame c r.1
unfolding free
free-Tame c vmaid rgid {r} e = elim (Bool-cases (leb 30 rgid)) [
  | inl outside ↦ stays (rw (outside, free) at e)
  | inr inside ↦ elim (Bool-cases (leb (c.mm.symrgtbl rgid).rg_end (c.mm.symrgtbl rgid).rg_start)) [
    | inl no_byte ↦ stays (rw (inside, no_byte, free) at e)
    | inr some_bytes ↦
        (let (place, found, more) =
            >>=-eq-some (get_vma_by_num c.mm vmaid) _ (rw (inside, some_bytes, free) at e) in
          by_place (ground arith) some_bytes place more)
  ]
]
  where
    stays : {stat : Status} → some (stat, c) ≡ some r → Tame c r.1
    stays {stat} h =
        subst (Tame c) (ap (λ (o : Option (Status × Caller)). elim o [ none ↦ c | some y ↦ y.1 ]) h)
          (Tame-refl c)

    by_place :
        rgid < 30
        → leb (c.mm.symrgtbl rgid).rg_end (c.mm.symrgtbl rgid).rg_start ≡ false
        → (place : Option ℕ)
        → ◌≡◌ {A = Option (Status × Caller)}
            (elim place [
              | none ↦ some (minus_one, c)
              | some _ ↦
                  enlist_vm_freerg_list c.mm
                    (region (c.mm.symrgtbl rgid).rg_start (c.mm.symrgtbl rgid).rg_end)
                  >>= λ r. put_symrg r.1 rgid (region 0 0) >>= λ mm. some (ok, record c { mm = mm })
            ])
            (some r)
        → Tame c r.1
    by_place known some_bytes none h = stays h
    by_place known some_bytes (some p) h =
        let (x, listed, h1) =
          >>=-eq-some
            (enlist_vm_freerg_list c.mm
              (region (c.mm.symrgtbl rgid).rg_start (c.mm.symrgtbl rgid).rg_end))
            _ h in
        let (last, put, h2) = >>=-eq-some (put_symrg x.1 rgid (region 0 0)) _ h1 in
        let same : record c { mm = last } ≡ r.1 =
          ap (λ (o : Option (Status × Caller)). elim o [ none ↦ c | some y ↦ y.1 ]) h2 in
        subst (Tame c) same (record {
          ram = Shrinks-refl c.mram;
          swap = SameDevice-refl c.active_mswp;
          regions = free_entry c.mm x.1 last x.0 rgid known listed some_bytes put;
        })

pub libfree-Tame :
    (c : Caller) (rgid : ℕ) {r : Status × Caller} → libfree c rgid ≡ some r → Tame c r.1
unfolding libfree
libfree-Tame c rgid {r} e = free-Tame c 0 rgid e
