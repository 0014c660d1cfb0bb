-- ===== src/Paging/Tame.antt =====
-- What paging leaves of the regions of a process and the free frames of RAM.
pub mod Access
use mathlib.Core.Path.{subst}
use easter_egg.Common.{ℕ, ◌-◌, ◌^◌, ◌≡◌, refl, ap, Option, none, some, Status, ok}
use easter_egg.Common.{List, ◌∙◌, minus_one, one, >>=-eq-some, ◌>>=◌, leb}
use easter_egg.Common.{◌==◌, update, Bool-cases, inl, inr}
use easter_egg.Pte.{paging_pgn, paging_offst, paging_fpn, paging_page_present, paging_pte_swp}
use easter_egg.Pte.{paging_max_pgn, pte_set_fpn, pte_set_swap}
use easter_egg.Memphy
use easter_egg.Memphy.{Memphy}
use easter_egg.Memphy.Shape.{SameFrames, Shrinks, SameDevice, Shrinks-refl, SameDevice-refl}
use easter_egg.Memphy.Shape.{SameFrames-Shrinks, write-SameFrames, read-SameFrames}
use easter_egg.Memphy.Shape.{swap_cp_page-SameFrames, get_freefp-Shrinks}
use easter_egg.Vm.{Malloc, Caller, get_vma_by_num, enlist_pgn_node}
use easter_egg.Libmem.{get_symrg_byid, symrg_at}
use easter_egg.Print.{print_pgtbl}
use easter_egg.Libmem.Tame.{Tame, Tame-refl, Tame-trans, same-LaidOut}
use easter_egg.Paging.{swap_in, pg_getpage, pg_getval, pg_setval, read, write, libread, libwrite}
use easter_egg.Paging.{find_victim_page, phys_addr, region_addr, sign_extend}

-- The memory of a result with a value, and of one without.
abbrev pub mid : Caller → Option (Status × ℕ × Caller) → Caller
mid c o = elim o [ none ↦ c | some y ↦ y.2 ]

abbrev pub end : Caller → Option (Status × Caller) → Caller
end c o = elim o [ none ↦ c | some y ↦ y.1 ]

pub with_ram-Tame :
    (c : Caller) (after : Memphy) → SameFrames c.mram after → Tame c (record c { mram = after })
with_ram-Tame c after s = record {
  ram = SameFrames-Shrinks s;
  swap = SameDevice-refl c.active_mswp;
  regions = λ l. l;
}

with_fifo-Tame :
    (c : Caller) (fifo : List ℕ) → Tame c (record c { mm = record (c.mm) { fifo_pgn = fifo } })
with_fifo-Tame c fifo = record {
  ram = Shrinks-refl c.mram;
  swap = SameDevice-refl c.active_mswp;
  regions = λ l. same-LaidOut c.mm (record (c.mm) { fifo_pgn = fifo }) refl refl l;
}

swapped-SameDevice :
    (d mswp swapped : Memphy) (fpn : ℕ)
    → Shrinks d mswp
    → SameFrames mswp swapped
    → SameDevice d (Memphy.put_freefp swapped fpn)
unfolding Memphy.put_freefp
swapped-SameDevice d mswp swapped fpn s t = record {
  maxsz = t.maxsz ∙ s.maxsz;
  rdmflg = t.rdmflg ∙ s.rdmflg;
}

swap_in-Tame :
    (malloc : Malloc) (c : Caller) (pgn fpn vicpgn : ℕ) {r : Status × ℕ × Caller}
    → swap_in malloc c pgn fpn vicpgn ≡ some r
    → Tame c r.2
unfolding swap_in
swap_in-Tame malloc c pgn fpn vicpgn {r} e = elim (Bool-cases (leb paging_max_pgn vicpgn)) [
  | inl outside ↦ stays (rw (outside, swap_in) at e)
  | inr inside ↦ elim (Bool-cases (paging_page_present (c.mm.pgd vicpgn) == 0)) [
    | inl absent ↦ stays (rw (inside, absent, swap_in) at e)
    | inr present ↦
        by_frame (Memphy.get_freefp c.active_mswp 0) (get_freefp-Shrinks c.active_mswp 0)
          (rw (inside, present, swap_in) at e)
  ]
]
  where
    stays : some (minus_one, fpn, c) ≡ some r → Tame c r.2
    stays h = subst (Tame c) (ap (mid c) h) (Tame-refl c)

    by_frame :
        (x : Status × ℕ × Memphy)
        → Shrinks c.active_mswp x.2
        → ◌≡◌ {A = Option (Status × ℕ × Caller)}
            (elim x.0 [
              | ok ↦
                  Memphy.swap_cp_page malloc.byte c.mram (paging_fpn (c.mm.pgd vicpgn)) x.2 x.1
                  >>= λ swapped_out.
                      Memphy.swap_cp_page malloc.byte swapped_out
                        (paging_pte_swp (c.mm.pgd pgn))
                        c.mram
                        (paging_fpn (c.mm.pgd vicpgn))
                      >>= λ ram. some (
                        ok,
                        paging_fpn (pte_set_fpn (c.mm.pgd pgn) (paging_fpn (c.mm.pgd vicpgn))),
                        record c {
                          mm = record (c.mm) {
                            pgd = update c.mm.pgd vicpgn (pte_set_swap (c.mm.pgd vicpgn) 0 x.1);
                            fifo_pgn = enlist_pgn_node c.mm.fifo_pgn pgn;
                          };
                          mram = ram;
                          active_mswp =
                              Memphy.put_freefp swapped_out (paging_pte_swp (c.mm.pgd pgn));
                        },
                      )
              | _ ↦ some (minus_one, fpn, c)
            ])
            (some r)
        → Tame c r.2
    by_frame (ok, swpfpn, mswp) s h =
        let (swapped, out, h1) =
          >>=-eq-some
            (Memphy.swap_cp_page malloc.byte c.mram (paging_fpn (c.mm.pgd vicpgn)) mswp swpfpn) _
            h in
        let (ram, in_, h2) =
          >>=-eq-some
            (Memphy.swap_cp_page malloc.byte swapped (paging_pte_swp (c.mm.pgd pgn)) c.mram
              (paging_fpn (c.mm.pgd vicpgn)))
            _ h1 in
        subst (Tame c) (ap (mid c) h2) (record {
          ram = SameFrames-Shrinks (swap_cp_page-SameFrames malloc.byte swapped _ c.mram _ in_);
          swap =
              swapped-SameDevice c.active_mswp mswp swapped (paging_pte_swp (c.mm.pgd pgn)) s
                (swap_cp_page-SameFrames malloc.byte c.mram _ mswp swpfpn out);
          regions = λ l.
              same-LaidOut c.mm
                (record (c.mm) {
                  pgd = update c.mm.pgd vicpgn (pte_set_swap (c.mm.pgd vicpgn) 0 swpfpn);
                  fifo_pgn = enlist_pgn_node c.mm.fifo_pgn pgn;
                })
                refl refl l;
        })
    by_frame (minus_one, swpfpn, mswp) s h = stays h
    by_frame (one, swpfpn, mswp) s h = stays h

pub pg_getpage-Tame :
    (malloc : Malloc) (c : Caller) (pgn fpn : ℕ) {r : Status × ℕ × Caller}
    → pg_getpage malloc c pgn fpn ≡ some r
    → Tame c r.2
unfolding pg_getpage
pg_getpage-Tame malloc c pgn fpn {r} e = elim (Bool-cases (leb paging_max_pgn pgn)) [
  | inl outside ↦ stays (rw (outside, pg_getpage) at e)
  | inr inside ↦ elim (Bool-cases (paging_page_present (c.mm.pgd pgn) == 0)) [
    | inr present ↦ stays (rw (inside, present, pg_getpage) at e)
    | inl absent ↦
        by_victim (find_victim_page c.mm.fifo_pgn 0) (rw (inside, absent, pg_getpage) at e)
  ]
]
  where
    stays : {stat : Status} {x : ℕ} → some (stat, x, c) ≡ some r → Tame c r.2
    stays h = subst (Tame c) (ap (mid c) h) (Tame-refl c)

    by_victim :
        (x : Status × ℕ × List ℕ)
        → ◌≡◌ {A = Option (Status × ℕ × Caller)}
            (elim x.0 [
              | ok ↦ swap_in malloc (record c { mm = record (c.mm) { fifo_pgn = x.2 } }) pgn fpn x.1
              | _ ↦ some (minus_one, fpn, c)
            ])
            (some r)
        → Tame c r.2
    by_victim (ok, vicpgn, fifo) h =
        Tame-trans (with_fifo-Tame c fifo) (swap_in-Tame malloc _ pgn fpn vicpgn h)
    by_victim (minus_one, vicpgn, fifo) h = stays h
    by_victim (one, vicpgn, fifo) h = stays h
