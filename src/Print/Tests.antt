-- ===== src/Print/Tests.antt =====
-- Lines printed for a small process.
use easter_egg.Common.{◌≡◌, refl, [], ◌∷◌, ok, minus_one}
use easter_egg.Vm.{region}
use easter_egg.Print.{null_list, fp, rg, print_list_fp, list_fp, print_list_rg, list_rg}

two_frames : print_list_fp (3 ∷ 7 ∷ []) ≡ (ok, fp 3 ∷ fp 7 ∷ [])
unfolding print_list_fp list_fp
two_frames = refl

one_region : print_list_rg (region 10 60 ∷ []) ≡ (ok, rg 10 60 ∷ [])
unfolding print_list_rg list_rg
one_region = refl

no_region : print_list_rg [] ≡ (minus_one, null_list ∷ [])
unfolding print_list_rg
no_region = refl
