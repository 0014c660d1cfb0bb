-- ===== src/Paging/Victim.antt =====
-- The choice of a victim page.
use easter_egg.Common.{ℕ, ◌≡◌, refl, List, [], ◌∷◌, ◌++◌, ok}
use easter_egg.Paging.{last_page, find_victim_page}

last_page_lem : (x p : ℕ) (l : List ℕ) → last_page x (l ++ p ∷ []) ≡ (p, x ∷ l)
unfolding last_page
last_page_lem x p [] = refl
last_page_lem x p (y ∷ l) = rw (last_page_lem y p l)

-- `find_victim_page` gives the page that has been in the list longest, the last one, and leaves the
-- others in their order: pages are enlisted in front.
pub find_victim_page_oldest :
    (l : List ℕ) (p retpgn : ℕ) → find_victim_page (l ++ p ∷ []) retpgn ≡ (ok, p, l)
unfolding find_victim_page last_page
find_victim_page_oldest [] p retpgn = refl
find_victim_page_oldest (x ∷ l) p retpgn = rw (last_page_lem x p l)
