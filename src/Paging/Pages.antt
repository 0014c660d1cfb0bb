-- ===== src/Paging/Pages.antt =====
-- Bytes of pages that are present, and a page that is brought in from the swap device.
use mathlib.Core.Logic.{◌≢◌}
use easter_egg.Common.{ℕ, ◌+◌, ◌*◌, ◌^◌, ◌≤◌, ◌<◌, ◌≡◌, refl, ap, arith, some, none, ok}
use easter_egg.Common.{List, [], ◌∷◌, ◌++◌, ltb, ◌==◌, if◌then◌else◌, update, true}
use easter_egg.Common.{Status, ◌>>=◌, lt→ltb, not-leb, not-==}
use easter_egg.Pte.{paging_pgn, paging_offst, paging_fpn, paging_page_present, paging_pte_swp}
use easter_egg.Pte.{pte_set_swap, paging_max_pgn}
use easter_egg.Pte.Fields.{fpn_field}
use easter_egg.Pte.Entries.{pgn-offst, pte_set_fpn_fields}
use easter_egg.Memphy
use easter_egg.Memphy.{Memphy}
use easter_egg.Memphy.Copy.{copied, swap_cp_page_lem}
use easter_egg.Vm.{Caller, Malloc}
use easter_egg.Paging.{find_victim_page, swap_in, pg_getpage, pg_getval, pg_setval, phys_addr}
use easter_egg.Vm.{enlist_pgn_node}
use easter_egg.Paging.Victim.{find_victim_page_oldest}

-- The address in RAM of a byte whose page is present.
abbrev pub ram_addr : Caller → ℕ → ℕ
ram_addr c a = phys_addr (paging_fpn (c.mm.pgd (paging_pgn a))) (paging_offst a)

getpage_present :
    (malloc : Malloc) (c : Caller) (a fpn : ℕ)
    → paging_page_present (c.mm.pgd (paging_pgn a)) ≢ 0
    → pg_getpage malloc c (paging_pgn a) fpn ≡ some (ok, paging_fpn (c.mm.pgd (paging_pgn a)), c)
unfolding pg_getpage
getpage_present malloc c a fpn present = ground (arith, pgn-offst a)

getval_present :
    (malloc : Malloc) (c : Caller) (a byte : ℕ)
    → paging_page_present (c.mm.pgd (paging_pgn a)) ≢ 0
    → c.mram.rdmflg ≡ true
    → pg_getval malloc c a byte ≡ (
        if ltb (ram_addr c a) c.mram.maxsz
        then some (ok, c.mram.storage (ram_addr c a), c)
        else none)
unfolding pg_getval Memphy.read
getval_present malloc c a byte present random =
    rw (getpage_present malloc c a _ present) (ground arith)

setval_present :
    (malloc : Malloc) (c : Caller) (a value : ℕ)
    → paging_page_present (c.mm.pgd (paging_pgn a)) ≢ 0
    → c.mram.rdmflg ≡ true
    → ram_addr c a < c.mram.maxsz
    → pg_setval malloc c a value
      ≡ some (
        ok,
        record c {
          mram = record (c.mram) { storage = update c.mram.storage (ram_addr c a) value };
        },
      )
unfolding pg_setval Memphy.write
setval_present malloc c a value present random inside =
    rw (getpage_present malloc c a _ present) (rw (random, lt→ltb _ _ inside))

-- On random-access RAM, for two addresses whose pages are present and whose bytes lie inside RAM:
-- after `pg_setval` at the first, `pg_getval` at the second gives 0 and the value set if both
-- are the same byte of RAM, and otherwise the byte that stood there; only RAM has changed.
pub getval-setval :
    (malloc : Malloc) (c : Caller) (a b value byte : ℕ)
    → paging_page_present (c.mm.pgd (paging_pgn a)) ≢ 0
    → paging_page_present (c.mm.pgd (paging_pgn b)) ≢ 0
    → c.mram.rdmflg ≡ true
    → ram_addr c a < c.mram.maxsz
    → ram_addr c b < c.mram.maxsz
    → (pg_setval malloc c a value >>= λ r. pg_getval malloc r.1 b byte)
      ≡ some (
        ok,
        (if ram_addr c a == ram_addr c b then value else c.mram.storage (ram_addr c b)),
        record c {
          mram = record (c.mram) { storage = update c.mram.storage (ram_addr c a) value };
        },
      )
getval-setval malloc c a b value byte present_a present_b random inside_a inside_b =
    let written = record c {
      mram = record (c.mram) { storage = update c.mram.storage (ram_addr c a) value };
    } in
    rw
      (
        setval_present malloc c a value present_a random inside_a,
        getval_present malloc written b byte present_b random,
        lt→ltb _ _ inside_b,
      )
      (ground arith)

-- The process's memory after `swap_in`.
abbrev pub swapped_in : Caller → ℕ → ℕ → ℕ → List ℕ → Caller
swapped_in c pgn victim f frames =
    let frame = paging_fpn (c.mm.pgd victim) in
    let page = paging_pte_swp (c.mm.pgd pgn) in
    let out = copied c.mram.storage frame c.active_mswp.storage f in
    record c {
      mm = record (c.mm) {
        pgd = update c.mm.pgd victim (pte_set_swap (c.mm.pgd victim) 0 f);
        fifo_pgn = pgn ∷ c.mm.fifo_pgn;
      };
      mram = record (c.mram) { storage = copied out page c.mram.storage frame };
      active_mswp = record (c.active_mswp) { storage = out; free_fp_list = page ∷ frames };
    }

takes_frame :
    (mp : Memphy) (f : ℕ) (frames : List ℕ)
    → mp.free_fp_list ≡ f ∷ frames
    → ((Memphy.get_freefp mp 0).0 ≡ ok)
      × ((Memphy.get_freefp mp 0).1 ≡ f)
      × ((Memphy.get_freefp mp 0).2 ≡ record mp { free_fp_list = frames })
unfolding Memphy.get_freefp
takes_frame mp f frames e = (rw e refl, rw e refl, rw e refl)

finds_victim :
    (fifo others : List ℕ) (victim : ℕ)
    → fifo ≡ others ++ victim ∷ []
    → ((find_victim_page fifo 0).0 ≡ ok)
      × ((find_victim_page fifo 0).1 ≡ victim)
      × ((find_victim_page fifo 0).2 ≡ others)
finds_victim fifo others victim e =
    let found : find_victim_page fifo 0 ≡ (ok, victim, others) =
      rw e (find_victim_page_oldest others victim 0) in
    (
      ap (λ (r : Status × ℕ × List ℕ). r.0) found,
      ap (λ (r : Status × ℕ × List ℕ). r.1) found,
      ap (λ (r : Status × ℕ × List ℕ). r.2) found,
    )

swap_in_lem :
    (malloc : Malloc) (c : Caller) (pgn fpn victim f : ℕ) (frames : List ℕ)
    → victim < paging_max_pgn
    → paging_page_present (c.mm.pgd victim) ≢ 0
    → c.active_mswp.free_fp_list ≡ f ∷ frames
    → c.mram.rdmflg ≡ true
    → c.active_mswp.rdmflg ≡ true
    → c.mm.pgd pgn < 2 ^ 32
    → paging_fpn (c.mm.pgd victim) * 256 + 256 ≤ c.mram.maxsz
    → paging_pte_swp (c.mm.pgd pgn) * 256 + 256 ≤ c.active_mswp.maxsz
    → f * 256 + 256 ≤ c.active_mswp.maxsz
    → swap_in malloc c pgn fpn victim
      ≡ some (ok, paging_fpn (c.mm.pgd victim), swapped_in c pgn victim f frames)
unfolding swap_in Memphy.put_freefp enlist_pgn_node
swap_in_lem malloc c pgn fpn victim f frames vsmall present free random srandom word fits_ram
      fits_page fits_free =
    let taken = takes_frame c.active_mswp f frames free in
    let frame = paging_fpn (c.mm.pgd victim) in
    let got = fpn_field (c.mm.pgd victim) in
    let back = pte_set_fpn_fields (c.mm.pgd pgn) frame word (omega arith) in
    rw
      (
        taken.0,
        taken.1,
        taken.2,
        not-leb _ _ vsmall,
        not-== _ _ present,
        swap_cp_page_lem malloc.byte c.mram frame (record (c.active_mswp) { free_fp_list = frames })
            f random srandom fits_ram fits_free,
        swap_cp_page_lem malloc.byte
            (record (c.active_mswp) {
              free_fp_list = frames;
              storage = copied c.mram.storage frame c.active_mswp.storage f;
            })
            (paging_pte_swp (c.mm.pgd pgn)) c.mram frame srandom random fits_page fits_ram,
        back.3,
      )
      refl

-- For a page of the table that is not present, with an entry of 32 bits, when the last page of the
-- list, the victim, is present, both devices are random-access, the frames concerned lie inside
-- them, and `f` is the first free frame of the swap device: `pg_getpage` gives 0 and the victim's
-- frame. That frame then holds the bytes of the swap frame that the entry of the page names, which
-- is free again, and `f` holds the victim's bytes. The victim leaves the list and the page enters
-- it in front. The entry of the victim is set to `f`; the entry of the page stays as it was.
pub getpage_swaps :
    (malloc : Malloc) (c : Caller) (pgn fpn victim f : ℕ) (others frames : List ℕ)
    → pgn < paging_max_pgn
    → victim < paging_max_pgn
    → paging_page_present (c.mm.pgd pgn) ≡ 0
    → paging_page_present (c.mm.pgd victim) ≢ 0
    → c.mm.fifo_pgn ≡ others ++ victim ∷ []
    → c.active_mswp.free_fp_list ≡ f ∷ frames
    → c.mram.rdmflg ≡ true
    → c.active_mswp.rdmflg ≡ true
    → c.mm.pgd pgn < 2 ^ 32
    → paging_fpn (c.mm.pgd victim) * 256 + 256 ≤ c.mram.maxsz
    → paging_pte_swp (c.mm.pgd pgn) * 256 + 256 ≤ c.active_mswp.maxsz
    → f * 256 + 256 ≤ c.active_mswp.maxsz
    → (after : Caller) × (pg_getpage malloc c pgn fpn
        ≡ some (ok, paging_fpn (c.mm.pgd victim), after))
      × (after.mm.pgd pgn ≡ c.mm.pgd pgn)
      × (after.mm.pgd victim ≡ pte_set_swap (c.mm.pgd victim) 0 f)
      × (after.mm.fifo_pgn ≡ pgn ∷ others)
      × (after.active_mswp.free_fp_list ≡ paging_pte_swp (c.mm.pgd pgn) ∷ frames)
      × (after.active_mswp.storage
          ≡ copied c.mram.storage (paging_fpn (c.mm.pgd victim)) c.active_mswp.storage f)
      × (after.mram.storage
          ≡ copied after.active_mswp.storage
              (paging_pte_swp (c.mm.pgd pgn))
              c.mram.storage
              (paging_fpn (c.mm.pgd victim)))
unfolding pg_getpage
getpage_swaps malloc c pgn fpn victim f others frames small vsmall absent present fifo free random
      srandom word fits_ram fits_page fits_free =
    let found = finds_victim c.mm.fifo_pgn others victim fifo in
    (
      swapped_in (record c { mm = record (c.mm) { fifo_pgn = others } }) pgn victim f frames,
      rw
          (
            found.0,
            found.1,
            found.2,
            not-leb _ _ small,
            absent,
            swap_in_lem malloc (record c { mm = record (c.mm) { fifo_pgn = others } }) pgn fpn
                victim f frames vsmall present free random srandom word fits_ram fits_page
                fits_free,
          )
          refl,
      ground arith,
      ground arith,
      refl,
      refl,
      refl,
      refl,
    )
