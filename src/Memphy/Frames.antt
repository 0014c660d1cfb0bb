-- ===== src/Memphy/Frames.antt =====
-- The list of free frames of a device: MEMPHY_format, MEMPHY_get_freefp, MEMPHY_put_freefp.
use mathlib.Core.Path.{subst₂, sym}
use easter_egg.Common.{ℕ, zero, suc, ◌+◌, ◌-◌, ◌*◌, ◌/◌, ◌≤◌, ◌<◌, ◌≡◌, ◌≢◌, arith, refl}
use easter_egg.Common.{List, [], ◌∷◌, length, All, Status, ok, minus_one, Distinct}
use easter_egg.Memphy.{Memphy, format_loop, format, init_memphy, get_freefp, put_freefp}

-- Frame `f` lies inside a device of `maxsz` bytes.
abbrev pub Fits : ℕ → ℕ → Type 0
Fits maxsz f = f * 256 + 256 ≤ maxsz

-- Every free frame lies inside the device, and none is free twice.
pub record IsValid (mp : Memphy) : Type 0 where
  pub inside : All (Fits mp.maxsz) mp.free_fp_list
  pub distinct : Distinct mp.free_fp_list

format_loop-Fits : (n i maxsz : ℕ) → (i + n) * 256 ≤ maxsz → All (Fits maxsz) (format_loop n i)
unfolding format_loop
format_loop-Fits zero i maxsz h = tt
format_loop-Fits (suc n) i maxsz h = (omega arith, format_loop-Fits n (i + 1) maxsz (omega arith))

format_loop-Fresh : (x n i : ℕ) → x < i → All (λ y. x ≢ y) (format_loop n i)
unfolding format_loop
format_loop-Fresh x zero i h = tt
format_loop-Fresh x (suc n) i h = (omega arith, format_loop-Fresh x n (i + 1) (omega arith))

format_loop-Distinct : (n i : ℕ) → Distinct (format_loop n i)
unfolding format_loop
format_loop-Distinct zero i = tt
format_loop-Distinct (suc n) i =
    (format_loop-Fresh i n (i + 1) (omega arith), format_loop-Distinct n (i + 1))

length-format_loop : (n i : ℕ) → length (format_loop n i) ≡ n
unfolding format_loop
length-format_loop zero i = refl
length-format_loop (suc n) i = omega (arith, length-format_loop n (i + 1))

init_free :
    (link : List ℕ) (mp : Memphy) (size flag : ℕ)
    → 512 ≤ size
    → (init_memphy link mp size flag).free_fp_list ≡ 0 ∷ format_loop (size / 256 - 1) 1
unfolding init_memphy format
init_free link mp size flag h = ground arith

init_size :
    (link : List ℕ) (mp : Memphy) (size flag : ℕ) → (init_memphy link mp size flag).maxsz ≡ size
unfolding init_memphy format
init_size link mp size flag = ground arith

IsValid-of :
    (m : ℕ) (l : List ℕ) (mp : Memphy)
    → mp.maxsz ≡ m
    → mp.free_fp_list ≡ l
    → All (Fits m) l
    → Distinct l
    → IsValid mp
IsValid-of m l mp e f h d = record {
  inside = subst₂ (λ k xs. All (Fits k) xs) (sym e) (sym f) h;
  distinct = rw f d;
}

-- A device of at least two frames starts with a valid list of free frames that has each of its
-- `size / 256` whole frames, with all bytes 0.
pub init_memphy-IsValid :
    (link : List ℕ) (mp : Memphy) (size flag a : ℕ)
    → 512 ≤ size
    → IsValid (init_memphy link mp size flag)
      × (length (init_memphy link mp size flag).free_fp_list ≡ size / 256)
      × ((init_memphy link mp size flag).storage a ≡ 0)
init_memphy-IsValid link mp size flag a h = (
  IsValid-of size (0 ∷ format_loop (size / 256 - 1) 1) (init_memphy link mp size flag)
      (init_size link mp size flag) (init_free link mp size flag h)
      (omega arith, format_loop-Fits (size / 256 - 1) 1 size (omega arith))
      (format_loop-Fresh 0 (size / 256 - 1) 1 (omega arith), format_loop-Distinct _ 1),
  rw (init_free link mp size flag h) (omega (arith, length-format_loop (size / 256 - 1) 1)),
  unfold init_memphy format in ground arith,
)

-- What `MEMPHY_get_freefp` does to a valid device: with no free frame it returns -1 and changes
-- nothing; otherwise it returns 0 with the first free frame, which lies inside the device and is
-- no longer free, the device stays valid, and putting the frame back restores it.
data GetsFrame (mp : Memphy) (fpn : ℕ) (result : Status × ℕ × Memphy) : Type 0 where
  none_free : mp.free_fp_list ≡ [] → result ≡ (minus_one, fpn, mp) → GetsFrame mp fpn result
  one_taken :
      result.0 ≡ ok
      → Fits mp.maxsz result.1
      → All (λ y. result.1 ≢ y) result.2.free_fp_list
      → IsValid result.2
      → put_freefp result.2 result.1 ≡ mp
      → GetsFrame mp fpn result

get_freefp_cases :
    (mp : Memphy) (l : List ℕ) (fpn : ℕ)
    → mp.free_fp_list ≡ l
    → IsValid mp
    → GetsFrame mp fpn (get_freefp mp fpn)
unfolding get_freefp put_freefp
get_freefp_cases mp [] fpn e v = rw e (none_free refl refl)
get_freefp_cases mp (x ∷ l) fpn e v =
    let inside : All (Fits mp.maxsz) (x ∷ l) = rw e at v.inside in
    let distinct : Distinct (x ∷ l) = rw e at v.distinct in
    rw e (
      one_taken refl inside.0 distinct.0 (record { inside = inside.1; distinct = distinct.1 }) refl)

-- `MEMPHY_get_freefp` on a valid device either finds no free frame, returns -1 and changes nothing,
-- or returns 0 with a frame inside the device that is no longer free, leaves the device valid, and
-- `MEMPHY_put_freefp` of that frame restores the device.
get_freefp-GetsFrame : (mp : Memphy) (fpn : ℕ) → IsValid mp → GetsFrame mp fpn (get_freefp mp fpn)
get_freefp-GetsFrame mp fpn v = get_freefp_cases mp mp.free_fp_list fpn refl v

-- Giving back a frame of the device that is not free keeps the list of free frames valid.
put_freefp-IsValid :
    (mp : Memphy) (fpn : ℕ)
    → IsValid mp
    → Fits mp.maxsz fpn
    → All (λ y. fpn ≢ y) mp.free_fp_list
    → IsValid (put_freefp mp fpn)
unfolding put_freefp
put_freefp-IsValid mp fpn v f fresh = record {
  inside = (f, v.inside);
  distinct = (fresh, v.distinct);
}
