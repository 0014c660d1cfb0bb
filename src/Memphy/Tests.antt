-- ===== src/Memphy/Tests.antt =====
-- Runs of the device routines, and the theorems about them at concrete devices.
use easter_egg.Common.{◌≡◌, refl, arith, true, false, some, [], ◌∷◌}
use easter_egg.Common.{minus_one}
use easter_egg.Memphy.{Memphy, read, write, seq_read, seq_write}
use easter_egg.Memphy.{init_memphy, swap_cp_page, mv_csr}
use easter_egg.Memphy.Access.{sequential_refused}
use easter_egg.Memphy.Frames.{IsValid}
use easter_egg.Memphy.Copy.{copied, swap_cp_page_lem}

abbrev before : Memphy
before = record { storage = λ a. a; maxsz = 7; rdmflg = false; cursor = 5; free_fp_list = 9 ∷ [] }

-- Three frames; frame 1 is in use.
abbrev ram : Memphy
ram = record { storage = λ a. a; maxsz = 768; rdmflg = true; cursor = 0; free_fp_list = 2 ∷ 0 ∷ [] }

abbrev swap : Memphy
swap = record { storage = λ _. 0; maxsz = 512; rdmflg = true; cursor = 0; free_fp_list = 1 ∷ [] }

abbrev tape : Memphy
tape = record { storage = λ _. 3; maxsz = 512; rdmflg = false; cursor = 0; free_fp_list = [] }

init_runs :
    (init_memphy [] before 1000 1 ≡ record before {
      storage = λ _. 0;
      maxsz = 1000;
      rdmflg = true;
      free_fp_list = 0 ∷ 1 ∷ 2 ∷ [];
    })
    × ((init_memphy [] before 100 1).free_fp_list ≡ 9 ∷ [])
unfolding init_memphy
init_runs = (refl, refl)

cursor_runs : ((mv_csr tape 5).cursor ≡ 5) × ((mv_csr tape 900).cursor ≡ 0)
unfolding mv_csr
cursor_runs = (refl, refl)

ram-IsValid : IsValid ram
ram-IsValid = record { inside = omega arith; distinct = omega arith }

tape_refuses :
    (read tape 4 8 ≡ some (minus_one, 8, tape))
    × (seq_read tape 4 8 ≡ some (minus_one, 8, tape))
    × (write tape 4 8 ≡ some (minus_one, tape))
    × (seq_write tape 4 8 ≡ some (minus_one, tape))
tape_refuses = sequential_refused tape 4 8 refl

swap_cp_page_lem_example :
    swap_cp_page 0 ram 2 swap 1
    ≡ some (record swap { storage = copied ram.storage 2 swap.storage 1 })
swap_cp_page_lem_example = swap_cp_page_lem 0 ram 2 swap 1 refl refl (omega arith) (omega arith)
