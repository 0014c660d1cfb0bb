-- ===== src/Memphy/Shape.antt =====
-- What the operations on a device leave of its size, its kind and its free frames.
use mathlib.Core.List.{append_assoc}
use easter_egg.Common.{ℕ, zero, suc, ◌+◌, ◌*◌, ◌≡◌, refl, sym, ap, ◌∙◌, arith}
use easter_egg.Common.{List, [], ◌∷◌, ◌++◌, none, some, Status}
use easter_egg.Common.{Option-cases, inl, inr}
use mathlib.Core.Path.{subst}
use easter_egg.Memphy.{Memphy, mv_csr, seq_read, read, seq_write, write, get_freefp}
use easter_egg.Memphy.{swap_cp_loop, swap_cp_page}

-- Only bytes and the cursor may be others.
pub record SameFrames (d after : Memphy) : Type 0 where
  pub maxsz : after.maxsz ≡ d.maxsz
  pub rdmflg : after.rdmflg ≡ d.rdmflg
  pub free : after.free_fp_list ≡ d.free_fp_list

-- Frames at the front of the list of free frames may be gone besides.
pub record Shrinks (d after : Memphy) : Type 0 where
  pub maxsz : after.maxsz ≡ d.maxsz
  pub rdmflg : after.rdmflg ≡ d.rdmflg
  pub taken : List ℕ
  pub free : d.free_fp_list ≡ taken ++ after.free_fp_list

-- The list of free frames may be any other.
pub record SameDevice (d after : Memphy) : Type 0 where
  pub maxsz : after.maxsz ≡ d.maxsz
  pub rdmflg : after.rdmflg ≡ d.rdmflg

SameFrames-refl : (d : Memphy) → SameFrames d d
SameFrames-refl d = record { maxsz = refl; rdmflg = refl; free = refl }

SameFrames-trans : {a b c : Memphy} → SameFrames a b → SameFrames b c → SameFrames a c
SameFrames-trans s t = record {
  maxsz = t.maxsz ∙ s.maxsz;
  rdmflg = t.rdmflg ∙ s.rdmflg;
  free = t.free ∙ s.free;
}

pub SameFrames-Shrinks : {d after : Memphy} → SameFrames d after → Shrinks d after
SameFrames-Shrinks s = record { maxsz = s.maxsz; rdmflg = s.rdmflg; taken = []; free = sym s.free }

pub Shrinks-refl : (d : Memphy) → Shrinks d d
Shrinks-refl d = record { maxsz = refl; rdmflg = refl; taken = []; free = refl }

pub Shrinks-trans : {a b c : Memphy} → Shrinks a b → Shrinks b c → Shrinks a c
Shrinks-trans {a} {b} {c} s t = record {
  maxsz = t.maxsz ∙ s.maxsz;
  rdmflg = t.rdmflg ∙ s.rdmflg;
  taken = s.taken ++ t.taken;
  free = s.free ∙ ap (λ l. s.taken ++ l) t.free ∙ sym (append_assoc s.taken t.taken c.free_fp_list);
}

pub SameDevice-refl : (d : Memphy) → SameDevice d d
SameDevice-refl d = record { maxsz = refl; rdmflg = refl }

pub SameDevice-trans : {a b c : Memphy} → SameDevice a b → SameDevice b c → SameDevice a c
SameDevice-trans s t = record { maxsz = t.maxsz ∙ s.maxsz; rdmflg = t.rdmflg ∙ s.rdmflg }

pub write-SameFrames :
    (d : Memphy) (addr byte : ℕ) {stat : Status} {after : Memphy}
    → write d addr byte ≡ some (stat, after)
    → SameFrames d after
unfolding write seq_write mv_csr
write-SameFrames d addr byte e = ground arith

pub read-SameFrames :
    (d : Memphy) (addr byte : ℕ) {stat : Status} {value : ℕ} {after : Memphy}
    → read d addr byte ≡ some (stat, value, after)
    → SameFrames d after
unfolding read seq_read mv_csr
read-SameFrames d addr byte e = ground arith

pub get_freefp-Shrinks : (d : Memphy) (fpn : ℕ) → Shrinks d (get_freefp d fpn).2
unfolding get_freefp
get_freefp-Shrinks d fpn = from d.free_fp_list
  where
    from :
        (l : List ℕ)
        → Shrinks (record d { free_fp_list = l }) (get_freefp (record d { free_fp_list = l }) fpn).2
    from [] = Shrinks-refl (record d { free_fp_list = [] })
    from (f ∷ l) = record { maxsz = refl; rdmflg = refl; taken = f ∷ []; free = refl }

swap_cp_loop-SameFrames :
    (n c byte : ℕ) (src : Memphy) (s : ℕ) (dst : Memphy) (d : ℕ) {after : Memphy}
    → swap_cp_loop n c byte src s dst d ≡ some after
    → SameFrames dst after
unfolding swap_cp_loop
swap_cp_loop-SameFrames zero c byte src s dst d {after} e =
    let same : dst ≡ after = cc in subst (SameFrames dst) same (SameFrames-refl dst)
swap_cp_loop-SameFrames (suc n) c byte src s dst d {after} e =
    elim (Option-cases (read src (s * 256 + c) byte)) [
      | inl fault ↦ (let bad : none ≡ some after = rw (fault, swap_cp_loop) at e in cc)
      | inr (x, got) ↦ elim (Option-cases (write dst (d * 256 + c) x.1)) [
        | inl fault ↦ (let bad : none ≡ some after = rw (got, fault, swap_cp_loop) at e in cc)
        | inr (y, stored) ↦ SameFrames-trans (write-SameFrames dst (d * 256 + c) x.1 stored) (
            swap_cp_loop-SameFrames n (c + 1) byte src s y.1 d
              (rw (got, stored, swap_cp_loop) at e))
      ]
    ]

pub swap_cp_page-SameFrames :
    (byte : ℕ) (src : Memphy) (s : ℕ) (dst : Memphy) (d : ℕ) {after : Memphy}
    → swap_cp_page byte src s dst d ≡ some after
    → SameFrames dst after
unfolding swap_cp_page
swap_cp_page-SameFrames byte src s dst d e = swap_cp_loop-SameFrames 256 0 byte src s dst d e
