-- ===== src/Print/Table.antt =====
-- What `print_pgtbl` prints for a process with an area.
use easter_egg.Common.{ℕ, zero, suc, ◌+◌, ◌-◌, ◌*◌, ◌%◌, ◌^◌, ◌<◌, ◌≡◌, refl, ap, ◌∙◌, arith}
use easter_egg.Common.{some, List, ◌∷◌, get_elem?, length, ok}
use easter_egg.Pte.{paging_pgn}
use easter_egg.Vm.{Area, Caller, get_vma_by_num, area_at, walk}
use easter_egg.Print.{Line, entry, pgtbl, list_pgd, last_address, print_pgtbl}

list_pgd_lem :
    (pgd : ℕ → ℕ) (rounds pgit k : ℕ)
    → k < rounds
    → get_elem? (list_pgd pgd rounds pgit) k ≡ some (entry ((pgit + k) * 4) (pgd (pgit + k)))
unfolding list_pgd
list_pgd_lem pgd zero pgit k h = absurd (omega arith)
list_pgd_lem pgd (suc rounds) pgit zero h =
    ap (λ (x : ℕ). some (entry (x * 4) (pgd x))) (omega arith)
list_pgd_lem pgd (suc rounds) pgit (suc k) h =
    list_pgd_lem pgd rounds (pgit + 1) k (omega arith)
    ∙ ap (λ (x : ℕ). some (entry (x * 4) (pgd x))) (omega arith)

length-list_pgd : (pgd : ℕ → ℕ) (rounds pgit : ℕ) → length (list_pgd pgd rounds pgit) ≡ rounds
unfolding list_pgd
length-list_pgd pgd zero pgit = refl
length-list_pgd pgd (suc rounds) pgit =
    ap (λ (x : ℕ). suc x) (length-list_pgd pgd rounds (pgit + 1))

-- With -1 as the end, `print_pgtbl` of a process whose first area is `v`, with the number 0, returns
-- 0. It prints the two ends, and then one line for each page from that of `start` to the one before
-- that of the end of the area, each with the place of its entry in the table and the entry.
print_pgtbl-lists :
    (c : Caller) (v : Area) (rest : List Area) (start : ℕ)
    → c.mm.mmap ≡ v ∷ rest
    → v.vm_id ≡ 0
    → let first = paging_pgn start in
      let rounds = paging_pgn (v.vm_end % 2 ^ 32) - first in
      (lines : List Line) × (print_pgtbl c start (2 ^ 32 - 1)
        ≡ some (ok, pgtbl start (v.vm_end % 2 ^ 32) ∷ lines))
      × (length lines ≡ rounds)
      × ((k : ℕ)
          → k < rounds
          → get_elem? lines k ≡ some (entry ((first + k) * 4) (c.mm.pgd (first + k))))
unfolding print_pgtbl last_address get_vma_by_num area_at walk
print_pgtbl-lists c v rest start e number = (
  list_pgd c.mm.pgd (paging_pgn (v.vm_end % 2 ^ 32) - paging_pgn start) (paging_pgn start),
  rw (e, number) refl,
  length-list_pgd c.mm.pgd _ (paging_pgn start),
  λ k h. list_pgd_lem c.mm.pgd _ (paging_pgn start) k h,
)
