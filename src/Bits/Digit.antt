-- ===== src/Bits/Digit.antt =====
-- The digits of `bit_and`, `bit_or` and `bit_xor`. The native operations stand for a recursion on binary
-- digits with fuel; here they are read one digit at a time.
use Prim.Native.Nat.{digits, differ, bit_xor, bit_and-bitwise, bit_or-bitwise, bit_xor-bitwise}
use qf.Prelude.{
  ℕ, zero, suc, ◌+◌, ◌*◌, ◌/◌, ◌%◌, ◌≤◌, ◌<◌, min, max, bit_and, bit_or, ◌≡◌, refl, arith,
}

-- Digit `j` of `x`, counted from the least significant one.
unfoldable pub bit : ℕ → ℕ → ℕ
bit x zero = x % 2
bit x (suc j) = bit (x / 2) j

pub bit-lt : (x j : ℕ) → bit x j < 2
unfolding bit
bit-lt x zero = omega arith
bit-lt x (suc j) = bit-lt (x / 2) j

pub bit_of_zero : (j : ℕ) → bit 0 j ≡ 0
unfolding bit
bit_of_zero zero = refl
bit_of_zero (suc j) = bit_of_zero j

-- A native operation whose rest `rest` and digit operation `op` agree acts digit by digit.
module _ (rest : ℕ → ℕ) (op : ℕ → ℕ → ℕ) where
  bit-digits :
      ((y j : ℕ) → bit (rest y) j ≡ op 0 (bit y j))
      → ((a b : ℕ) → a < 2 → b < 2 → op a b < 2)
      → (n x y j : ℕ) → x ≤ n
      → bit (digits rest op n x y) j ≡ op (bit x j) (bit y j)
  unfolding bit
  bit-digits out small zero zero y j h = rw (bit_of_zero j) (out y j)
  bit-digits out small zero (suc x) y j h = absurd (omega arith)
  bit-digits out small (suc n) zero y j h = rw (bit_of_zero j) (out y j)
  bit-digits out small (suc n) (suc x) y zero h =
      omega (arith, small (suc x % 2) (y % 2) (omega arith) (omega arith))
  bit-digits out small (suc n) (suc x) y (suc j) h =
      let rest_of = digits rest op n (suc x / 2) (y / 2) in
      let digit = op (suc x % 2) (y % 2) in
      let half : (rest_of * 2 + digit) / 2 ≡ rest_of =
        omega (arith, small (suc x % 2) (y % 2) (omega arith) (omega arith)) in
      rw half (bit-digits out small n (suc x / 2) (y / 2) j (omega arith))

pub bit-bit_and : (x y j : ℕ) → bit (bit_and x y) j ≡ min (bit x j) (bit y j)
bit-bit_and x y j = rw (bit_and-bitwise x y) (
    bit-digits (λ b. 0) min (λ b k. rw (bit_of_zero k) (omega arith)) (λ a b p q. omega arith) x x y
      j (omega arith))

pub bit-bit_or : (x y j : ℕ) → bit (bit_or x y) j ≡ max (bit x j) (bit y j)
bit-bit_or x y j =
    rw (bit_or-bitwise x y)
      (bit-digits (λ b. b) max (λ b k. omega arith) (λ a b p q. omega arith) x x y j (omega arith))

differ-lt : (a b : ℕ) → a < 2 → b < 2 → differ a b < 2
differ-lt zero b p q = q
differ-lt (suc a) zero p q = p
differ-lt (suc zero) (suc b) p q = omega arith
differ-lt (suc (suc a)) (suc b) p q = absurd (omega arith)

pub bit-bit_xor : (x y j : ℕ) → bit (bit_xor x y) j ≡ differ (bit x j) (bit y j)
bit-bit_xor x y j =
    rw (bit_xor-bitwise x y)
      (bit-digits (λ b. b) differ (λ b k. refl) differ-lt x x y j (omega arith))
