-- ===== src/Vm/Entries.antt =====
-- The page table entries that `vmap_page_range` sets.
use easter_egg.Common.{ℕ, zero, suc, ◌+◌, ◌*◌, ◌≤◌, ◌<◌, ◌≡◌, refl, arith, ◌⊎◌, inl, ap, ◌∙◌}
use easter_egg.Common.{List, [], ◌∷◌, length, get_elem?, some, ok, update, not-==}
use mathlib.Core.Path.{subst}
use easter_egg.Pte.{paging_pgn, paging_max_pgn, paging_pagesz, pte_set_fpn}
use easter_egg.Vm.{Region, Mm, region, enlist_pgn_node, vmap_loop, vmap_page_range}

-- `after` is `mm` with `frames` mapped from page `first` on.
pub record IsMapped (mm after : Mm) (first : ℕ) (frames : List ℕ) : Type 0 where
  pub entry : (i f : ℕ) → get_elem? frames i ≡ some f → after.pgd (first + i) ≡ pte_set_fpn 0 f
  pub others : (q : ℕ) → (q < first) ⊎ (first + length frames ≤ q) → after.pgd q ≡ mm.pgd q
  pub areas : after.mmap ≡ mm.mmap
  pub names : after.symrgtbl ≡ mm.symrgtbl

-- The memory map after one round.
abbrev mapped_one : Mm → ℕ → ℕ → Mm
mapped_one mm p f = record mm {
  pgd = update mm.pgd p (pte_set_fpn 0 f);
  fifo_pgn = enlist_pgn_node mm.fifo_pgn p;
}

one_entry :
    (mm : Mm) (p f i g : ℕ)
    → get_elem? (f ∷ []) i ≡ some g
    → (mapped_one mm p f).pgd (p + i) ≡ pte_set_fpn 0 g
one_entry mm p f zero g e = ground arith
one_entry mm p f (suc i) g e = cc

more_entries :
    (mm after : Mm) (p f : ℕ) (frames : List ℕ)
    → IsMapped (mapped_one mm p f) after (p + 1) frames
    → (i g : ℕ) → get_elem? (f ∷ frames) i ≡ some g
    → after.pgd (p + i) ≡ pte_set_fpn 0 g
more_entries mm after p f frames m zero g e = ground (arith, m.others p (inl (omega arith)))
more_entries mm after p f frames m (suc i) g e =
    let place : p + suc i ≡ p + 1 + i = omega arith in ap after.pgd place ∙ m.entry i g e

IsMapped-more :
    (mm after : Mm) (p f : ℕ) (frames : List ℕ)
    → IsMapped (mapped_one mm p f) after (p + 1) frames
    → IsMapped mm after p (f ∷ frames)
IsMapped-more mm after p f frames m = record {
  entry = more_entries mm after p f frames m;
  others = λ q o. ground (arith, m.others q);
  areas = m.areas;
  names = m.names;
}

vmap_step :
    (f : ℕ) (frames : List ℕ) (pgn pgit n addr : ℕ) (mm : Mm)
    → pgn + pgit < paging_max_pgn
    → pgit + 1 < n
    → vmap_loop (f ∷ frames) pgn pgit n addr mm
      ≡ vmap_loop frames pgn (pgit + 1) n addr (mapped_one mm (pgn + pgit) f)
unfolding vmap_loop
vmap_step f frames pgn pgit n addr mm inside more = ground arith

vmap_loop-IsMapped :
    (f : ℕ) (frames : List ℕ) (pgn pgit n addr : ℕ) (mm : Mm)
    → pgit + suc (length frames) ≡ n
    → pgn + n ≤ paging_max_pgn
    → (after : Mm) × (vmap_loop (f ∷ frames) pgn pgit n addr mm ≡ some (addr + n * 256, after))
      × IsMapped mm after (pgn + pgit) (f ∷ frames)
vmap_loop-IsMapped f [] pgn pgit n addr mm e fits = (
  mapped_one mm (pgn + pgit) f,
  (unfold vmap_loop in ground arith),
  record {
    entry = one_entry mm (pgn + pgit) f;
    others = λ q o. ground arith;
    areas = refl;
    names = refl;
  },
)
vmap_loop-IsMapped f (g ∷ frames) pgn pgit n addr mm e fits =
    let (after, run, m) =
      vmap_loop-IsMapped g frames pgn (pgit + 1) n addr (mapped_one mm (pgn + pgit) f) (omega arith)
        fits in
    let place : pgn + (pgit + 1) ≡ pgn + pgit + 1 = omega arith in
    (
      after,
      vmap_step f (g ∷ frames) pgn pgit n addr mm (omega arith) (omega arith) ∙ run,
      IsMapped-more mm after (pgn + pgit) f (g ∷ frames)
          (subst (λ k. IsMapped (mapped_one mm (pgn + pgit) f) after k (g ∷ frames)) place m),
    )

-- `vmap_page_range` of as many pages as there are frames, at least one, that end inside the page
-- table: it gives 0 and the region of these pages, sets the entry of each page to its frame, and
-- changes no other entry, no area and no named region.
pub vmap_page_range-IsMapped :
    (mm : Mm) (addr : ℕ) (frames : List ℕ) (rg : Region)
    → 0 < length frames
    → paging_pgn addr + length frames ≤ paging_max_pgn
    → (after : Mm) × (vmap_page_range mm addr (length frames) frames rg
        ≡ some (ok, region addr (addr + length frames * paging_pagesz), after))
      × IsMapped mm after (paging_pgn addr) frames
unfolding vmap_page_range
vmap_page_range-IsMapped mm addr [] rg some_frames fits = absurd (omega arith)
vmap_page_range-IsMapped mm addr (f ∷ frames) rg some_frames fits =
    let (after, run, m) =
      vmap_loop-IsMapped f frames (paging_pgn addr) 0 (length (f ∷ frames)) addr mm (omega arith)
        fits in
    let first : paging_pgn addr + 0 ≡ paging_pgn addr = omega arith in
    (
      after,
      rw (run, not-== (length (f ∷ frames)) 0 (omega arith)) refl,
      subst (λ k. IsMapped mm after k (f ∷ frames)) first m,
    )
