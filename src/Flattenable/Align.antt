-- ===== src/Flattenable/Align.antt =====
-- Rounding up to a power of two.
use native.Mathlib.Nat.{
  one-le-pow, div-lt_iff_lt-mul, mod-eq_of_lt, div-mul-le_self, lt-div-mul-add, mul-mod_left,
}
use qf.Prelude.{
  ℕ, ◌+◌, ◌-◌, ◌*◌, ◌/◌, ◌%◌, ◌^◌, ◌<◌, ◌≤◌, ◌≡◌, ◌∙◌, refl, true, arith, ◌==◌, ◌&&&◌, ==_iff,
}
use qf.Bits.Word.{complement, bit_and-low_mask}
use qf.Bits.Split.{bit_and_fields, bit_and_of_zero}
use qf.Bits.Table.{holds_below, holds_below_at}
use qf.Flattenable.{align_size, align_buffer}

split_table : holds_below 32 (λ k. 2 ^ (32 - k) * 2 ^ k == 2 ^ 32) ≡ true
unfolding holds_below
split_table = refl

mask_table :
    holds_below 32 (λ k. complement 32 (2 ^ k - 1) == (2 ^ (32 - k) - 1) * 2 ^ k + 0) ≡ true
unfolding holds_below complement
mask_table = refl

-- The mask cuts off the low digits.
cut_low : (k x : ℕ) → k < 32 → x < 2 ^ 32 → x &&& complement 32 (2 ^ k - 1) ≡ x / 2 ^ k * 2 ^ k
cut_low k x h small =
    let pos : 0 < 2 ^ k = one-le-pow k 2 (omega arith) in
    let split : 2 ^ (32 - k) * 2 ^ k ≡ 2 ^ 32 =
      (==_iff _ _).0 (holds_below_at 32 (λ j. 2 ^ (32 - j) * 2 ^ j == 2 ^ 32) k split_table h) in
    let mask : complement 32 (2 ^ k - 1) ≡ (2 ^ (32 - k) - 1) * 2 ^ k + 0 = (==_iff _ _).0 (
      holds_below_at 32 (λ j. complement 32 (2 ^ j - 1) == (2 ^ (32 - j) - 1) * 2 ^ j + 0) k
        mask_table h) in
    let high : x / 2 ^ k < 2 ^ (32 - k) = (div-lt_iff_lt-mul pos).1 (omega (arith, split)) in
    let kept : (x / 2 ^ k) % 2 ^ (32 - k) ≡ x / 2 ^ k = mod-eq_of_lt high in
    rw mask (
      bit_and_fields k x (2 ^ (32 - k) - 1) 0 pos
      ∙ rw (bit_and-low_mask (32 - k) (x / 2 ^ k), bit_and_of_zero (x % 2 ^ k), kept) (omega arith))

-- The least multiple of `2 ^ k` that is not below `size`.
abbrev pub IsRoundedUp : ℕ → ℕ → ℕ → Type 0
IsRoundedUp k size r = (r % 2 ^ k ≡ 0) × (size ≤ r) × (r < size + 2 ^ k)

rounded_up :
    (k x : ℕ)
    → k < 32
    → x + (2 ^ k - 1) < 2 ^ 32
    → IsRoundedUp k x ((x + (2 ^ k - 1)) % 2 ^ 32 &&& complement 32 (2 ^ k - 1))
rounded_up k x h small =
    let pos : 0 < 2 ^ k = one-le-pow k 2 (omega arith) in
    let y = x + (2 ^ k - 1) in
    let whole : y % 2 ^ 32 ≡ y = omega arith in
    let low : y / 2 ^ k * 2 ^ k ≤ y = div-mul-le_self y (2 ^ k) in
    let high : y < y / 2 ^ k * 2 ^ k + 2 ^ k = lt-div-mul-add {a = y} {b = 2 ^ k} pos in
    rw (whole, cut_low k y h small)
      (mul-mod_left (y / 2 ^ k) (2 ^ k), omega (arith, high), omega (arith, low))

-- For a power of two below 2 ^ 32, `align` of a size returns the least multiple of it that is not
-- below the size, if the sum in the code does not wrap around.
pub align_size_lem :
    (k size : ℕ)
    → k < 32
    → size + (2 ^ k - 1) < 2 ^ 32
    → IsRoundedUp k size (align_size (2 ^ k) size)
unfolding align_size
align_size_lem k size h small = rounded_up k size h small

-- For a power of two below 2 ^ 32, `align` of a pointer moves it to the least multiple that is not
-- below it, and returns the distance by which it moved, which is less than the power of two, if
-- the sum in the code does not wrap around.
pub align_buffer_lem :
    (k buffer : ℕ)
    → k < 32
    → buffer + (2 ^ k - 1) < 2 ^ 32
    → let (distance, buffer') = align_buffer (2 ^ k) buffer in
      IsRoundedUp k buffer buffer' × (buffer' ≡ buffer + distance) × (distance < 2 ^ k)
unfolding align_buffer
align_buffer_lem k buffer h small =
    let pos : 0 < 2 ^ k = one-le-pow k 2 (omega arith) in
    let up = rounded_up k buffer h small in
    let (aligned, above, near) = up in
    let b = (buffer + (2 ^ k - 1)) % 2 ^ 32 &&& complement 32 (2 ^ k - 1) in
    let distance : (b + (2 ^ 32 - buffer)) % 2 ^ 32 ≡ b - buffer =
      omega (arith, pos, above, near) in
    (up, rw distance (omega (arith, above)), rw distance (omega (arith, above, near)))
