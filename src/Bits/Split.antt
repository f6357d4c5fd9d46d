-- ===== src/Bits/Split.antt =====
-- `&` and `|` of words that are cut at digit `k`.
use native.Mathlib.Nat.{two-pow-succ, div-div-eq-div-mul, pow-succ'}
use qf.Prelude.{
  ℕ, zero, suc, ◌+◌, ◌*◌, ◌/◌, ◌%◌, ◌^◌, ◌<◌, min, max, bit_and, bit_or, ◌≡◌, sym, ap, ◌∙◌, arith,
}
use qf.Bits.Digit.{bit, bit_of_zero, bit-bit_and, bit-bit_or}
use qf.Bits.Word.{ext_bits, mod-half, mod_parity}

-- Halving an operation on words is the operation on the halves.
bit_and-half : (x y : ℕ) → bit_and x y / 2 ≡ bit_and (x / 2) (y / 2)
unfolding bit
bit_and-half x y = ext_bits _ _ λ j. bit-bit_and x y (suc j) ∙ sym (bit-bit_and (x / 2) (y / 2) j)

bit_or-half : (x y : ℕ) → bit_or x y / 2 ≡ bit_or (x / 2) (y / 2)
unfolding bit
bit_or-half x y = ext_bits _ _ λ j. bit-bit_or x y (suc j) ∙ sym (bit-bit_or (x / 2) (y / 2) j)

-- The lowest digit apart from the rest.
pub bit_and_halves : (x y : ℕ) → bit_and x y ≡ bit_and (x / 2) (y / 2) * 2 + min (x % 2) (y % 2)
unfolding bit
bit_and_halves x y = omega (arith, bit_and-half x y, bit-bit_and x y 0)

pub bit_or_halves : (x y : ℕ) → bit_or x y ≡ bit_or (x / 2) (y / 2) * 2 + max (x % 2) (y % 2)
unfolding bit
bit_or_halves x y = omega (arith, bit_or-half x y, bit-bit_or x y 0)

pub bit_and_of_zero : (x : ℕ) → bit_and x 0 ≡ 0
bit_and_of_zero x = ext_bits _ _ λ j. omega (arith, bit-bit_and x 0 j, bit_of_zero j)

pub bit_or_of_zero : (x : ℕ) → bit_or x 0 ≡ x
bit_or_of_zero x = ext_bits _ _ λ j. omega (arith, bit-bit_or x 0 j, bit_of_zero j)

product_doubled : (m k : ℕ) → m * 2 ^ suc k ≡ 2 * (m * 2 ^ k)
product_doubled m k = omega (arith, ap (λ (t : ℕ). m * t) (two-pow-succ k))

half-shift : (m r k : ℕ) → (m * 2 ^ suc k + r) / 2 ≡ m * 2 ^ k + r / 2
half-shift m r k = omega (arith, product_doubled m k)

-- A mask in two fields masks the fields.
pub bit_and_fields :
    (k x m r : ℕ)
    → r < 2 ^ k
    → bit_and x (m * 2 ^ k + r) ≡ bit_and (x / 2 ^ k) m * 2 ^ k + bit_and (x % 2 ^ k) r
bit_and_fields zero x m r h =
    let none_left : r ≡ 0 = omega arith in
    let cut : x % 2 ^ 0 ≡ 0 = omega arith in
    let whole : x / 2 ^ 0 ≡ x = omega arith in
    let times : m * 2 ^ 0 + 0 ≡ m = omega arith in
    rw (none_left, times, cut, whole) (omega (arith, bit_and_of_zero 0))
bit_and_fields (suc k) x m r h =
    let cut : x / 2 ^ suc k ≡ x / 2 / 2 ^ k =
      rw (pow-succ' 2 k) (sym (div-div-eq-div-mul x 2 (2 ^ k))) in
    let rest : bit_and (x / 2) (m * 2 ^ k + r / 2)
        ≡ bit_and (x / 2 / 2 ^ k) m * 2 ^ k + bit_and (x / 2 % 2 ^ k) (r / 2) =
      bit_and_fields k (x / 2) m (r / 2) (omega (arith, two-pow-succ k)) in
    rw
      (
        bit_and_halves x (m * 2 ^ suc k + r),
        half-shift m r k,
        rest,
        cut,
        bit_and_halves (x % 2 ^ suc k) r,
        ← mod-half k x,
        mod_parity k x,
      )
      (omega (arith, product_doubled (bit_and (x / 2 / 2 ^ k) m) k, product_doubled m k))

-- Fields that do not overlap are joined by `|` as by `+`.
pub bit_or_fields : (k q r : ℕ) → r < 2 ^ k → bit_or (q * 2 ^ k) r ≡ q * 2 ^ k + r
bit_or_fields zero q r h =
    let none_left : r ≡ 0 = omega arith in rw none_left (omega (arith, bit_or_of_zero (q * 2 ^ 0)))
bit_or_fields (suc k) q r h =
    let rest : bit_or (q * 2 ^ k) (r / 2) ≡ q * 2 ^ k + r / 2 =
      bit_or_fields k q (r / 2) (omega (arith, two-pow-succ k)) in
    let half : q * 2 ^ suc k / 2 ≡ q * 2 ^ k = omega (arith, product_doubled q k) in
    rw (bit_or_halves (q * 2 ^ suc k) r, half, rest) (omega (arith, product_doubled q k))
