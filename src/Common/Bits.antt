-- ===== src/Common/Bits.antt =====
-- `&` and `|` on words: one equation for the lowest digit, then the law that the operations work
-- on the two halves of a word apart. The macros of include/mm.h are built from these.
use Prim.Native.Nat.{ℕ, zero, suc, ◌+◌, ◌-◌, ◌*◌, ◌/◌, ◌%◌, ◌^◌, ◌≤◌, ◌<◌, min, max}
use Prim.Native.Nat.{bit_and, bit_or, digits, bitwise, bit_and-bitwise, bit_or-bitwise}
use mathlib.Core.Path.{◌≡◌, refl, ap, ◌∙◌}
use mathlib.Core.Logic.{inl, inr}
use easter_egg.Common.{leb, Bool-cases}
use native.Mathlib.Nat.{pow-suc, one-le-pow}
use native.Mathlib.Omega.{arith}

-- A number needs no more fuel than itself: one spare round changes nothing, so none does.
module _ (out : ℕ → ℕ) (op : ℕ → ℕ → ℕ) where
  spare_round : (fuel x y : ℕ) → x ≤ fuel → digits out op (suc fuel) x y ≡ digits out op fuel x y
  spare_round zero zero y h = refl
  spare_round (suc fuel) zero y h = refl
  spare_round zero (suc x) y h = absurd (omega arith)
  spare_round (suc fuel) (suc x) y h =
      ap (λ (t : ℕ). t * 2 + op (suc x % 2) (y % 2))
        (spare_round fuel (suc x / 2) (y / 2) (omega arith))

  own_fuel : (fuel x y : ℕ) → x ≤ fuel → digits out op fuel x y ≡ bitwise out op x y
  own_fuel zero x y h = let same : 0 ≡ x = omega arith in ap (λ (t : ℕ). digits out op t x y) same
  own_fuel (suc fuel) x y h = elim (Bool-cases (leb x fuel)) [
    | inl below ↦ spare_round fuel x y (ground arith) ∙ own_fuel fuel x y (ground arith)
    | inr above ↦
        (let same : suc fuel ≡ x = ground arith in ap (λ (t : ℕ). digits out op t x y) same)
  ]

  peel :
      (x y : ℕ)
      → bitwise out op (suc x) y ≡ bitwise out op (suc x / 2) (y / 2) * 2 + op (suc x % 2) (y % 2)
  peel x y =
      ap (λ (t : ℕ). t * 2 + op (suc x % 2) (y % 2)) (own_fuel x (suc x / 2) (y / 2) (omega arith))

lowest_or : (x y : ℕ) → bit_or x y ≡ max (x % 2) (y % 2) + 2 * bit_or (x / 2) (y / 2)
lowest_or zero y = rw (bit_or-bitwise 0 y, bit_or-bitwise 0 (y / 2)) (omega arith)
lowest_or (suc x) y =
    omega
      (arith, bit_or-bitwise (suc x) y, bit_or-bitwise (suc x / 2) (y / 2), peel (λ b. b) max x y)

lowest_and : (x y : ℕ) → bit_and x y ≡ min (x % 2) (y % 2) + 2 * bit_and (x / 2) (y / 2)
lowest_and zero y = rw (bit_and-bitwise 0 y, bit_and-bitwise 0 (y / 2)) (omega arith)
lowest_and (suc x) y =
    omega
      (arith, bit_and-bitwise (suc x) y, bit_and-bitwise (suc x / 2) (y / 2), peel (λ _. 0) min x y)

mul-pow-suc : (q k : ℕ) → q * 2 ^ suc k ≡ 2 * (q * 2 ^ k)
mul-pow-suc q k = omega (arith, ap (λ (t : ℕ). q * t) (pow-suc 2 k))

-- Below bit `k` and from bit `k` on, `|` and `&` are computed apart.
pub bit_or_split :
    (k a b r s : ℕ)
    → r < 2 ^ k
    → s < 2 ^ k
    → bit_or (a * 2 ^ k + r) (b * 2 ^ k + s) ≡ bit_or a b * 2 ^ k + bit_or r s
bit_or_split zero a b r s p q =
    let hr : r ≡ 0 = omega arith in
    let hs : s ≡ 0 = omega arith in
    let ha : a * 2 ^ 0 + 0 ≡ a = omega arith in
    let hb : b * 2 ^ 0 + 0 ≡ b = omega arith in rw (hr, hs, ha, hb) (omega arith)
bit_or_split (suc k) a b r s p q = ground (
  arith,
  lowest_or (a * 2 ^ suc k + r) (b * 2 ^ suc k + s),
  lowest_or r s,
  mul-pow-suc a k,
  mul-pow-suc b k,
  mul-pow-suc (bit_or a b) k,
  pow-suc 2 k,
  bit_or_split k a b (r / 2) (s / 2) (omega (arith, pow-suc 2 k)) (omega (arith, pow-suc 2 k)),
)

bit_and_split :
    (k a b r s : ℕ)
    → r < 2 ^ k
    → s < 2 ^ k
    → bit_and (a * 2 ^ k + r) (b * 2 ^ k + s) ≡ bit_and a b * 2 ^ k + bit_and r s
bit_and_split zero a b r s p q =
    let hr : r ≡ 0 = omega arith in
    let hs : s ≡ 0 = omega arith in
    let ha : a * 2 ^ 0 + 0 ≡ a = omega arith in
    let hb : b * 2 ^ 0 + 0 ≡ b = omega arith in rw (hr, hs, ha, hb) (omega arith)
bit_and_split (suc k) a b r s p q = ground (
  arith,
  lowest_and (a * 2 ^ suc k + r) (b * 2 ^ suc k + s),
  lowest_and r s,
  mul-pow-suc a k,
  mul-pow-suc b k,
  mul-pow-suc (bit_and a b) k,
  pow-suc 2 k,
  bit_and_split k a b (r / 2) (s / 2) (omega (arith, pow-suc 2 k)) (omega (arith, pow-suc 2 k)),
)

or_kept : (fuel x : ℕ) → x ≤ fuel → digits (λ b. b) max fuel x 0 ≡ x
or_kept zero x h = omega arith
or_kept (suc fuel) zero h = refl
or_kept (suc fuel) (suc x) h = omega (arith, or_kept fuel (suc x / 2) (omega arith))

pub bit_or-zero : (a : ℕ) → bit_or a 0 ≡ a
bit_or-zero a = bit_or-bitwise a 0 ∙ or_kept a a (omega arith)

pub zero-bit_or : (a : ℕ) → bit_or 0 a ≡ a
zero-bit_or a = simp bit_or-bitwise refl

zero-bit_and : (a : ℕ) → bit_and 0 a ≡ 0
zero-bit_and a = bit_and-bitwise 0 a

nothing_common : (fuel x : ℕ) → digits (λ _. 0) min fuel x 0 ≡ 0
nothing_common zero x = refl
nothing_common (suc fuel) zero = refl
nothing_common (suc fuel) (suc x) = omega (arith, nothing_common fuel (suc x / 2))

pub bit_and-zero : (a : ℕ) → bit_and a 0 ≡ 0
bit_and-zero a = bit_and-bitwise a 0 ∙ nothing_common a a

bit_and-ones_fields : (k q r : ℕ) → r < 2 ^ k → bit_and (q * 2 ^ k + r) (2 ^ k - 1) ≡ r
bit_and-ones_fields zero q r h = rw bit_and-zero (omega arith)
bit_and-ones_fields (suc k) q r h = ground (
  arith,
  lowest_and (q * 2 ^ suc k + r) (2 ^ suc k - 1),
  mul-pow-suc q k,
  pow-suc 2 k,
  bit_and-ones_fields k q (r / 2) (omega (arith, pow-suc 2 k)),
)

-- A mask of `k` ones cuts the word at bit `k`.
pub bit_and-ones : (k a : ℕ) → bit_and a (2 ^ k - 1) ≡ a % 2 ^ k
bit_and-ones k a = ground (arith, one-le-pow k 2, bit_and-ones_fields k (a / 2 ^ k) (a % 2 ^ k))

-- `&` and `|` of any word with a constant whose bits are given in two groups.
pub bit_and_at :
    (k v b s : ℕ)
    → s < 2 ^ k
    → bit_and v (b * 2 ^ k + s) ≡ bit_and (v / 2 ^ k) b * 2 ^ k + bit_and (v % 2 ^ k) s
bit_and_at k v b s h = ground (arith, one-le-pow k 2, bit_and_split k (v / 2 ^ k) b (v % 2 ^ k) s)

pub bit_or_at :
    (k v b s : ℕ)
    → s < 2 ^ k
    → bit_or v (b * 2 ^ k + s) ≡ bit_or (v / 2 ^ k) b * 2 ^ k + bit_or (v % 2 ^ k) s
bit_or_at k v b s h = ground (arith, one-le-pow k 2, bit_or_split k (v / 2 ^ k) b (v % 2 ^ k) s)

-- `|` of two words with no bit in common, the one from bit `k` on and the other below.
pub bit_or_fields : (k q r : ℕ) → r < 2 ^ k → bit_or (q * 2 ^ k) r ≡ q * 2 ^ k + r
bit_or_fields k q r h =
    ground (arith, one-le-pow k 2, bit_or_split k q 0 0 r, bit_or-zero q, zero-bit_or r)
