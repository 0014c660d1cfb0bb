-- ===== src/Queue/Window.antt =====
-- Parts of an array as lists, and what the shifting loop does to an array.
use mathlib.Core.Path.{fun_ext}
use easter_egg.Common.{ℕ, zero, suc, ◌+◌, ◌≤◌, ◌<◌, ◌≡◌, ap, ap₂, refl, ◌∙◌, arith}
use easter_egg.Common.{List, [], ◌∷◌, ◌++◌, All, length, update, ltb, leb, ◌&&◌, if◌then◌else◌}
use easter_egg.Queue.{shift_loop}

-- The `n` entries of an array from index `i` on.
abbrev pub window {ℓ} : {A : Type ℓ} → (ℕ → A) → ℕ → ℕ → List A
window f i zero = []
window f i (suc n) = f i ∷ window f (i + 1) n

module _ {ℓ} {A : Type ℓ} where
  pub length-window : (f : ℕ → A) (i n : ℕ) → length (window f i n) ≡ n
  length-window f i zero = refl
  length-window f i (suc n) = ap suc (length-window f (i + 1) n)

  pub window-append :
      (f : ℕ → A) (i a b n k : ℕ)
      → n ≡ a + b
      → k ≡ i + a
      → window f i n ≡ window f i a ++ window f k b
  window-append f i zero b n k e d =
      let e' : n ≡ b = omega arith in let d' : k ≡ i = omega arith in rw (e', d')
  window-append f i (suc a) b zero k e d = absurd (omega arith)
  window-append f i (suc a) b (suc n) k e d =
      ap (λ l. f i ∷ l) (window-append f (i + 1) a b n k (omega arith) (omega arith))

  pub window_ext :
      (f g : ℕ → A) (i k n : ℕ)
      → ((j : ℕ) → j < n → f (i + j) ≡ g (k + j))
      → window f i n ≡ window g k n
  window_ext f g i k zero h = refl
  window_ext f g i k (suc n) h =
      let here : f (i + 0) ≡ g (k + 0) = h 0 (omega arith) in
      let ei : i + 0 ≡ i = omega arith in
      let ek : k + 0 ≡ k = omega arith in
      ap₂ ◌∷◌ (rw (ei, ek) at here) (
        window_ext f g (i + 1) (k + 1) n λ j p.
          let next : f (i + suc j) ≡ g (k + suc j) = h (suc j) (omega arith) in
          let ei : i + suc j ≡ i + 1 + j = omega arith in
          let ek : k + suc j ≡ k + 1 + j = omega arith in rw (ei, ek) at next)

  pub All-window {κ} :
      (P : A → Type κ) (f : ℕ → A) (i n : ℕ)
      → ((j : ℕ) → i ≤ j → j < i + n → P (f j))
      → All P (window f i n)
  All-window P f i zero h = tt
  All-window P f i (suc n) h = (
    h i (omega arith) (omega arith),
    All-window P f (i + 1) n λ j a b. h j (omega arith) (omega arith),
  )

-- The array after `proc[j] = proc[j + 1]` for every `j` from `from` to `from + rounds - 1`.
abbrev pub shifted : ℕ → ℕ → (ℕ → ℕ) → ℕ → ℕ
shifted rounds from f j = if leb from j && ltb j (from + rounds) then f (j + 1) else f j

pub shift_loop_lem :
    (rounds from : ℕ) (f : ℕ → ℕ) → shift_loop rounds from f ≡ shifted rounds from f
unfolding shift_loop
shift_loop_lem zero from f = fun_ext λ j. ground arith
shift_loop_lem (suc n) from f =
    shift_loop_lem n (from + 1) (update f from (f (from + 1))) ∙ fun_ext λ j. ground arith
