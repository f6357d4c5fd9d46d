-- ===== src/BitSet/Members.antt =====
-- What the operations of `BitSet32` do to membership.
use qf.Prelude.{
  ℕ, ◌-◌, ◌^◌, ◌<◌, ◌≤◌, min, max, ◌≡◌, refl, arith, true, ◌==◌, if◌then◌else◌, ◌&&◌, ◌||◌, not,
  ==_iff,
}
use native.Mathlib.Nat.{one-le-pow, pow-le-pow_right}
use qf.Bits.Digit.{bit, bit-lt, bit-bit_and, bit-bit_or}
use qf.Bits.Word.{
  complement, bit-two_pow, bit-complement, bit_and-two_pow, bit_of_small, lt_of_bits,
}
use qf.Bits.Table.{holds_below, holds_below_at}
use qf.BitSet.{BitSet32, value_for_bit, has_bit, mark_bit, clear_bit, IsWord}

shift_table : holds_below 32 (λ n. value_for_bit n == 2 ^ (31 - n)) ≡ true
unfolding holds_below value_for_bit
shift_table = refl

pub value_for_bit_lem : (n : ℕ) → n < 32 → value_for_bit n ≡ 2 ^ (31 - n)
value_for_bit_lem n h =
    (==_iff _ _).0 (holds_below_at 32 (λ k. value_for_bit k == 2 ^ (31 - k)) n shift_table h)

two_pow-lt-word : (n : ℕ) → 2 ^ (31 - n) < 2 ^ 32
two_pow-lt-word n =
    let le : 2 ^ (31 - n) ≤ 2 ^ 31 =
      pow-le-pow_right {n = 2} (omega arith) {i = 31 - n} {j = 31} (omega arith) in
    omega arith

-- Membership is a digit of the word.
pub has_bit-bit : (s : BitSet32) (n : ℕ) → n < 32 → has_bit s n ≡ (bit s.value (31 - n) == 1)
unfolding has_bit
has_bit-bit s n h =
    rw (value_for_bit_lem n h, bit_and-two_pow s.value (31 - n))
      (ground (arith, one-le-pow (31 - n) 2, bit-lt s.value (31 - n)))

-- The digits of a set with a bit marked or cleared.
pub bit-mark_bit :
    (s : BitSet32) (n j : ℕ)
    → n < 32
    → bit (mark_bit s n).value j ≡ max (bit s.value j) (if 31 - n == j then 1 else 0)
unfolding mark_bit
bit-mark_bit s n j h =
    rw (value_for_bit_lem n h, bit-bit_or s.value (2 ^ (31 - n)) j, bit-two_pow (31 - n) j)

pub bit-clear_bit :
    (s : BitSet32) (n j : ℕ)
    → n < 32
    → j < 32
    → bit (clear_bit s n).value j ≡ min (bit s.value j) (1 - (if 31 - n == j then 1 else 0))
unfolding clear_bit
bit-clear_bit s n j h hj = rw (
  value_for_bit_lem n h,
  bit-bit_and s.value (complement 32 (2 ^ (31 - n))) j,
  bit-complement 32 (2 ^ (31 - n)) j (two_pow-lt-word n) hj,
  bit-two_pow (31 - n) j,
)

-- For indices below 32, marking a bit adds it to the set and leaves every other bit alone.
pub has_bit-mark_bit :
    (s : BitSet32) (n m : ℕ) → n < 32 → m < 32 → has_bit (mark_bit s n) m ≡ (n == m || has_bit s m)
has_bit-mark_bit s n m hn hm =
    rw (has_bit-bit (mark_bit s n) m hm, has_bit-bit s m hm)
      (ground (arith, bit-mark_bit s n (31 - m) hn, bit-lt s.value (31 - m)))

-- For indices below 32, clearing a bit takes it out of the set and leaves every other bit alone.
pub has_bit-clear_bit :
    (s : BitSet32) (n m : ℕ)
    → n < 32
    → m < 32
    → has_bit (clear_bit s n) m ≡ (not (n == m) && has_bit s m)
has_bit-clear_bit s n m hn hm =
    rw (has_bit-bit (clear_bit s n) m hm, has_bit-bit s m hm)
      (ground (arith, bit-clear_bit s n (31 - m) hn (omega arith), bit-lt s.value (31 - m)))

-- The operations keep the value a 32-bit word.
pub mark_bit-IsWord : (s : BitSet32) (n : ℕ) → n < 32 → IsWord s → IsWord (mark_bit s n)
mark_bit-IsWord s n h w =
    lt_of_bits 32 _ λ j hj. ground (arith, bit-mark_bit s n j h, bit_of_small 32 s.value j w hj)

pub clear_bit-IsWord : (s : BitSet32) (n : ℕ) → IsWord s → IsWord (clear_bit s n)
unfolding clear_bit
clear_bit-IsWord s n w = lt_of_bits 32 _ λ j hj.
    omega (
      arith,
      bit-bit_and s.value (complement 32 (value_for_bit n)) j,
      bit_of_small 32 s.value j w hj,
    )
