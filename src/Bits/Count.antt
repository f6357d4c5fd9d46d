-- ===== src/Bits/Count.antt =====
-- The population count of a word.
use native.Mathlib.Nat.{two-pow-succ}
use qf.Prelude.{ℕ, zero, suc, ◌+◌, ◌/◌, ◌%◌, ◌^◌, ◌<◌, ◌≡◌, refl, arith, ◌≢◌, ◌⊎◌, inl, inr}
use qf.Bits.Digit.{bit}

-- The number of ones among the `w` lowest digits.
unfoldable pub ones : ℕ → ℕ → ℕ
ones zero x = 0
ones (suc w) x = x % 2 + ones w (x / 2)

pub ones-eq-zero : (w x : ℕ) → x < 2 ^ w → ones w x ≡ 0 → x ≡ 0
unfolding ones
ones-eq-zero zero x hx h = omega arith
ones-eq-zero (suc w) x hx h =
    omega (arith, ones-eq-zero w (x / 2) (omega (arith, two-pow-succ w)) (omega arith))

-- A word with a single one is a power of two.
pub ones-eq-one : (w x : ℕ) → x < 2 ^ w → ones w x ≡ 1 → (k : ℕ) × (k < w) × (x ≡ 2 ^ k)
unfolding ones
ones-eq-one zero x hx h = absurd (omega arith)
ones-eq-one (suc w) x hx h = elim (parity x) [
  | inl even ↦
      let (k, below, half) = ones-eq-one w (x / 2) (omega (arith, two-pow-succ w)) (omega arith) in
      (suc k, omega arith, omega (arith, two-pow-succ k))
  | inr odd ↦
      let half : x / 2 ≡ 0 = ones-eq-zero w (x / 2) (omega (arith, two-pow-succ w)) (omega arith) in
      (0, omega arith, omega arith)
]
  where
    parity : (n : ℕ) → (n % 2 ≡ 0) ⊎ (n % 2 ≡ 1)
    parity n = omega arith

pub ones_congr : (w x y : ℕ) → ((j : ℕ) → j < w → bit x j ≡ bit y j) → ones w x ≡ ones w y
unfolding ones bit
ones_congr zero x y same = refl
ones_congr (suc w) x y same =
    omega (
      arith,
      same 0 (omega arith),
      ones_congr w (x / 2) (y / 2) (λ j h. same (suc j) (omega arith)),
    )

-- Turning one digit on adds one.
pub ones_step :
    (w x y k : ℕ)
    → k < w
    → bit x k ≡ 0
    → bit y k ≡ 1
    → ((j : ℕ) → j < w → j ≢ k → bit y j ≡ bit x j)
    → ones w y ≡ ones w x + 1
unfolding ones bit
ones_step zero x y k hk off on same = absurd (omega arith)
ones_step (suc w) x y zero hk off on same =
    omega (
      arith,
      ones_congr w (x / 2) (y / 2) (λ j h. sym_of (same (suc j) (omega arith) (omega arith))),
    )
  where
    sym_of : {a b : ℕ} → a ≡ b → b ≡ a
    sym_of e = omega arith
ones_step (suc w) x y (suc k) hk off on same = omega (
  arith,
  same 0 (omega arith) (omega arith),
  ones_step w (x / 2) (y / 2) k (omega arith) off on
      (λ j h ne. same (suc j) (omega arith) (omega arith)),
)

-- The highest digit counted on its own.
pub ones_last : (k x : ℕ) → ones (suc k) x ≡ ones k x + bit x k
unfolding ones bit
ones_last zero x = omega arith
ones_last (suc k) x = omega (arith, ones_last k (x / 2))
