-- ===== src/Common/Unique.antt =====
-- Lists without repetition, and what holds of every entry of a list after some have gone.
use Prim.Native.Nat.{ℕ, zero, suc}
use mathlib.Core.Path.{sym}
use mathlib.Core.Logic.{◌≢◌}
use mathlib.Core.List.{List, [], ◌∷◌, ◌++◌}
use easter_egg.Common.Lists.{All, drop}

abbrev pub Distinct : List ℕ → Type 0
Distinct [] = Unit
Distinct (x ∷ xs) = All (λ y. x ≢ y) xs × Distinct xs

module _ {ℓ} {A : Type ℓ} where
  pub All-implies {κ μ} :
      {P : A → Type κ} {Q : A → Type μ} → ((x : A) → P x → Q x) → (l : List A) → All P l → All Q l
  All-implies f [] h = tt
  All-implies f (x ∷ xs) h = (f x h.0, All-implies f xs h.1)

  pub All-drop {κ} : (P : A → Type κ) (k : ℕ) (l : List A) → All P l → All P (drop k l)
  All-drop P zero l h = h
  All-drop P (suc k) [] h = tt
  All-drop P (suc k) (x ∷ xs) h = All-drop P k xs h.1

  pub All-without {κ} :
      (P : A → Type κ) (front : List A) (p : A) (back : List A)
      → All P (front ++ p ∷ back)
      → P p × All P (front ++ back)
  All-without P [] p back h = h
  All-without P (x ∷ front) p back h =
      let (at, rest) = All-without P front p back h.1 in (at, (h.0, rest))

pub Distinct-drop : (k : ℕ) (l : List ℕ) → Distinct l → Distinct (drop k l)
Distinct-drop zero l d = d
Distinct-drop (suc k) [] d = tt
Distinct-drop (suc k) (x ∷ xs) d = Distinct-drop k xs d.1

-- Without one of its entries a list has no repetition either, and that entry does not occur.
pub Distinct-without :
    (front : List ℕ) (p : ℕ) (back : List ℕ)
    → Distinct (front ++ p ∷ back)
    → Distinct (front ++ back) × All (λ x. x ≢ p) (front ++ back)
Distinct-without [] p back d = (d.1, All-implies (λ x ne e. ne (sym e)) back d.0)
Distinct-without (x ∷ front) p back d =
    let (first, fresh) = All-without (λ y. x ≢ y) front p back d.0 in
    let (rest, others) = Distinct-without front p back d.1 in ((fresh, rest), (first, others))

pub Distinct-end : (l : List ℕ) (p : ℕ) → Distinct l → All (λ x. x ≢ p) l → Distinct (l ++ p ∷ [])
Distinct-end [] p d h = (tt, tt)
Distinct-end (x ∷ l) p d h = (fresh l d.0, Distinct-end l p d.1 h.1)
  where
    fresh : (l : List ℕ) → All (λ y. x ≢ y) l → All (λ y. x ≢ y) (l ++ p ∷ [])
    fresh [] a = (h.0, tt)
    fresh (y ∷ l) a = (a.0, fresh l a.1)
