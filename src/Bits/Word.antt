-- ===== src/Bits/Word.antt =====
-- Words of `w` bits: their digits determine them, and `~`, powers of two and low masks by digits.
use native.Mathlib.Nat.{
  two-pow-succ, one-le-pow, mod-lt, div-add-mod', mul-add-mod_self_right, mod-eq_of_lt, add-zero,
  add-suc, add_comm,
}
use qf.Prelude.{
  ℕ, zero, suc, ◌+◌, ◌-◌, ◌*◌, ◌/◌, ◌%◌, ◌^◌, ◌≤◌, ◌<◌, bit_and, ◌≡◌, refl, arith, ap, ◌∙◌,
  if◌then◌else◌, ◌==◌, ltb, ltb→lt, Bool-cases, inl, inr,
}
use qf.Bits.Digit.{bit, bit-lt, bit_of_zero, bit-bit_and}

-- `~ x` in `w` bits.
unfoldable pub complement : ℕ → ℕ → ℕ
complement w x = 2 ^ w - 1 - x

pub eq_of_bits : (w x y : ℕ) → x < 2 ^ w → y < 2 ^ w → ((j : ℕ) → j < w → bit x j ≡ bit y j) → x ≡ y
unfolding bit
eq_of_bits zero x y hx hy same = omega arith
eq_of_bits (suc w) x y hx hy same =
    let halves : x / 2 ≡ y / 2 =
      eq_of_bits w (x / 2) (y / 2) (omega (arith, two-pow-succ w)) (omega (arith, two-pow-succ w))
        λ j h. same (suc j) (omega arith) in
    omega (arith, same 0 (omega arith))

lt_two_pow : (x : ℕ) → x < 2 ^ x
lt_two_pow zero = omega arith
lt_two_pow (suc x) = omega (arith, lt_two_pow x, two-pow-succ x)

lt_two_pow_add : (x n : ℕ) → x < 2 ^ (x + n)
lt_two_pow_add x zero = rw add-zero (lt_two_pow x)
lt_two_pow_add x (suc n) = rw add-suc (omega (arith, lt_two_pow_add x n, two-pow-succ (x + n)))

-- Numbers with the same digits are equal.
pub ext_bits : (x y : ℕ) → ((j : ℕ) → bit x j ≡ bit y j) → x ≡ y
ext_bits x y same =
    eq_of_bits (x + y) x y (lt_two_pow_add x y) (rw add_comm (lt_two_pow_add y x)) λ j h. same j

pub bit_of_small : (w x j : ℕ) → x < 2 ^ w → w ≤ j → bit x j ≡ 0
unfolding bit
bit_of_small zero x j hx h = let e : x ≡ 0 = omega arith in rw e (bit_of_zero j)
bit_of_small (suc w) x zero hx h = absurd (omega arith)
bit_of_small (suc w) x (suc j) hx h =
    bit_of_small w (x / 2) j (omega (arith, two-pow-succ w)) (omega arith)

lt_of_bits_fuel : (n w x : ℕ) → x < 2 ^ n → ((j : ℕ) → w ≤ j → bit x j ≡ 0) → x < 2 ^ w
unfolding bit
lt_of_bits_fuel zero w x hx top = omega (arith, one-le-pow w 2)
lt_of_bits_fuel (suc n) zero x hx top =
    let half : x / 2 < 2 ^ 0 =
      lt_of_bits_fuel n zero (x / 2) (omega (arith, two-pow-succ n))
        λ j h. top (suc j) (omega arith) in
    omega (arith, top 0 (omega arith))
lt_of_bits_fuel (suc n) (suc w) x hx top =
    let half : x / 2 < 2 ^ w =
      lt_of_bits_fuel n w (x / 2) (omega (arith, two-pow-succ n))
        λ j h. top (suc j) (omega arith) in
    omega (arith, two-pow-succ w)

-- A number whose digits from `w` on are zero fits `w` bits.
pub lt_of_bits : (w x : ℕ) → ((j : ℕ) → w ≤ j → bit x j ≡ 0) → x < 2 ^ w
lt_of_bits w x top = lt_of_bits_fuel x w x (lt_two_pow x) top

pub bit-two_pow : (k j : ℕ) → bit (2 ^ k) j ≡ (if k == j then 1 else 0)
unfolding bit
bit-two_pow zero zero = refl
bit-two_pow zero (suc j) = ground (arith, bit_of_zero j)
bit-two_pow (suc k) zero = ground (arith, two-pow-succ k)
bit-two_pow (suc k) (suc j) =
    let half : 2 ^ suc k / 2 ≡ 2 ^ k = omega (arith, two-pow-succ k) in
    rw half (ground (arith, bit-two_pow k j))

pub bit-complement : (w x j : ℕ) → x < 2 ^ w → j < w → bit (complement w x) j ≡ 1 - bit x j
unfolding bit complement
bit-complement zero x j hx h = absurd (omega arith)
bit-complement (suc w) x zero hx h = omega (arith, two-pow-succ w)
bit-complement (suc w) x (suc j) hx h =
    let half : (2 ^ suc w - 1 - x) / 2 ≡ 2 ^ w - 1 - x / 2 = omega (arith, two-pow-succ w) in
    rw half (bit-complement w (x / 2) j (omega (arith, two-pow-succ w)) (omega arith))

pub complement-lt : (w x : ℕ) → complement w x < 2 ^ w
unfolding complement
complement-lt w x = omega (arith, one-le-pow w 2)

-- A remainder by `2 ^ suc k`, halved.
module _ (k x : ℕ) where
  pub quotient_doubled : x / 2 ^ suc k * 2 ^ suc k ≡ 2 * (x / 2 ^ suc k * 2 ^ k)
  quotient_doubled = omega (arith, ap (λ (t : ℕ). x / 2 ^ suc k * t) (two-pow-succ k))

  half_remainder-lt : (x % 2 ^ suc k) / 2 < 2 ^ k
  half_remainder-lt =
      omega (arith, two-pow-succ k, mod-lt x {m = 2 ^ suc k} (one-le-pow (suc k) 2 (omega arith)))

  pub mod-half : (x / 2) % 2 ^ k ≡ (x % 2 ^ suc k) / 2
  mod-half =
      let halved : x / 2 ≡ x / 2 ^ suc k * 2 ^ k + (x % 2 ^ suc k) / 2 =
        omega (arith, quotient_doubled, div-add-mod' x (2 ^ suc k)) in
      rw halved (
        mul-add-mod_self_right (x / 2 ^ suc k) (2 ^ k) ((x % 2 ^ suc k) / 2)
        ∙ mod-eq_of_lt half_remainder-lt)

  pub mod_parity : x % 2 ^ suc k % 2 ≡ x % 2
  mod_parity = omega (arith, quotient_doubled, div-add-mod' x (2 ^ suc k))

-- The digits of a remainder by a power of two, and of a mask of low ones.
pub bit-mod : (k x j : ℕ) → bit (x % 2 ^ k) j ≡ (if ltb j k then bit x j else 0)
unfolding bit
bit-mod zero x j = let e : x % 2 ^ 0 ≡ 0 = omega arith in rw e (ground (arith, bit_of_zero j))
bit-mod (suc k) x zero = ground (arith, mod_parity k x)
bit-mod (suc k) x (suc j) = rw (← mod-half k x) (ground (arith, bit-mod k (x / 2) j))

pub bit-low_mask : (k j : ℕ) → bit (2 ^ k - 1) j ≡ (if ltb j k then 1 else 0)
bit-low_mask k j = elim (Bool-cases (ltb j k)) [
  | inl below ↦ rw below (
      let pos : 0 < 2 ^ k = one-le-pow k 2 (omega arith) in
      let e : bit (complement k 0) j ≡ 1 - bit 0 j = bit-complement k 0 j pos (ltb→lt j k below) in
      let same : complement k 0 ≡ 2 ^ k - 1 = unfold complement in omega arith in
      rw (← same) (omega (arith, e, bit_of_zero j)))
  | inr above ↦
      rw above (bit_of_small k (2 ^ k - 1) j (omega (arith, one-le-pow k 2)) (ground arith))
]

-- `x & (2 ^ k - 1)` is the remainder.
pub bit_and-low_mask : (k x : ℕ) → bit_and x (2 ^ k - 1) ≡ x % 2 ^ k
bit_and-low_mask k x =
    ext_bits _ _
      λ j. ground (arith, bit-bit_and x (2 ^ k - 1) j, bit-low_mask k j, bit-mod k x j, bit-lt x j)

-- Masking with a single bit.
pub bit_and-two_pow : (x k : ℕ) → bit_and x (2 ^ k) ≡ (if bit x k == 1 then 2 ^ k else 0)
bit_and-two_pow x k = ext_bits _ _ λ j.
    ground (arith, bit-bit_and x (2 ^ k) j, bit-two_pow k j, bit-lt x j, bit-lt x k, bit_of_zero j)
