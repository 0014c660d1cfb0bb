-- ===== src/Memphy/Copy.antt =====
-- `__swap_cp_page` of src/mm.c: the copy of one frame.
use mathlib.Core.Path.{fun_ext}
use easter_egg.Common.{ℕ, zero, suc, ◌+◌, ◌-◌, ◌*◌, ◌/◌, ◌%◌, ◌≤◌, ◌<◌, ◌≡◌, true, arith, ap, ◌∙◌}
use easter_egg.Common.{some, ltb, leb, ◌==◌, if◌then◌else◌, ◌&&◌, update, refl}
use easter_egg.Memphy.{Memphy, read, write, swap_cp_loop, swap_cp_page}

-- The storage of `dst` with the bytes of frame `d` from offset `c` on taken from frame `s` of `src`.
abbrev pub copied_from : ℕ → (ℕ → ℕ) → ℕ → (ℕ → ℕ) → ℕ → ℕ → ℕ
copied_from c src s dst d a =
    if leb (d * 256 + c) a && ltb a (d * 256 + 256) then src (s * 256 + (a - d * 256)) else dst a

copied_step :
    (c : ℕ) (src : ℕ → ℕ) (s : ℕ) (dst : ℕ → ℕ) (d : ℕ)
    → c < 256
    → copied_from (c + 1) src s (update dst (d * 256 + c) (src (s * 256 + c))) d
      ≡ copied_from c src s dst d
copied_step c src s dst d h = fun_ext λ a. ground arith

copied_end :
    (c : ℕ) (src : ℕ → ℕ) (s : ℕ) (dst : ℕ → ℕ) (d : ℕ) → c ≡ 256 → copied_from c src s dst d ≡ dst
copied_end c src s dst d h = fun_ext λ a. ground arith

-- One round stores one byte.
swap_cp_loop_step :
    (n c byte : ℕ) (src : Memphy) (s : ℕ) (dst : Memphy) (d : ℕ)
    → c < 256
    → src.rdmflg ≡ true
    → dst.rdmflg ≡ true
    → s * 256 + 256 ≤ src.maxsz
    → d * 256 + 256 ≤ dst.maxsz
    → swap_cp_loop (suc n) c byte src s dst d
      ≡ swap_cp_loop n
          (c + 1)
          byte
          src
          s
          (record dst { storage = update dst.storage (d * 256 + c) (src.storage (s * 256 + c)) })
          d
unfolding swap_cp_loop read write
swap_cp_loop_step n c byte src s dst d h hs hd fs fd = ground arith

swap_cp_loop_lem :
    (n c byte : ℕ) (src : Memphy) (s : ℕ) (dst : Memphy) (d : ℕ)
    → c + n ≡ 256
    → src.rdmflg ≡ true
    → dst.rdmflg ≡ true
    → s * 256 + 256 ≤ src.maxsz
    → d * 256 + 256 ≤ dst.maxsz
    → swap_cp_loop n c byte src s dst d
      ≡ some (record dst { storage = copied_from c src.storage s dst.storage d })
swap_cp_loop_lem zero c byte src s dst d e hs hd fs fd =
    unfold swap_cp_loop in rw (copied_end c src.storage s dst.storage d (omega arith)) refl
swap_cp_loop_lem (suc n) c byte src s dst d e hs hd fs fd =
    swap_cp_loop_step n c byte src s dst d (omega arith) hs hd fs fd
    ∙ swap_cp_loop_lem n (c + 1) byte src s
        (record dst { storage = update dst.storage (d * 256 + c) (src.storage (s * 256 + c)) }) d
        (omega arith) hs hd fs fd
    ∙ ap (λ (f : ℕ → ℕ). some (record dst { storage = f }))
        (copied_step c src.storage s dst.storage d (omega arith))

-- The storage of a device after frame `s` of `src` has been copied into its frame `d`.
abbrev pub copied : (ℕ → ℕ) → ℕ → (ℕ → ℕ) → ℕ → ℕ → ℕ
copied src s dst d a = if a / 256 == d then src (s * 256 + a % 256) else dst a

-- Between two random-access devices whose frames `s` and `d` lie inside them, `__swap_cp_page`
-- returns; the target then holds in frame `d` the 256 bytes of frame `s` of the source, and
-- nothing else of the target has changed.
pub swap_cp_page_lem :
    (byte : ℕ) (src : Memphy) (s : ℕ) (dst : Memphy) (d : ℕ)
    → src.rdmflg ≡ true
    → dst.rdmflg ≡ true
    → s * 256 + 256 ≤ src.maxsz
    → d * 256 + 256 ≤ dst.maxsz
    → swap_cp_page byte src s dst d
      ≡ some (record dst { storage = copied src.storage s dst.storage d })
swap_cp_page_lem byte src s dst d hs hd fs fd =
    unfold swap_cp_page in
    swap_cp_loop_lem 256 0 byte src s dst d (omega arith) hs hd fs fd
    ∙ ap (λ (f : ℕ → ℕ). some (record dst { storage = f })) (fun_ext λ a. ground arith)
