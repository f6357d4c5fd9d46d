-- ===== src/BitSet/Index.antt =====
-- `getIndexOfBit` of `BitSet32` counts the marked bits before an index.
use qf.Prelude.{
  ℕ, zero, suc, ◌+◌, ◌-◌, ◌^◌, ◌<◌, ◌≤◌, ◌≡◌, refl, arith, true, ◌==◌, if◌then◌else◌, ◌&&&◌, ◌>>>◌,
  ==_iff, Bool-cases, inl, inr, ◌∙◌, ap, ltb,
}
use native.Mathlib.Nat.{pow-le-pow_right}
use qf.Bits.Digit.{bit, bit-lt, bit_of_zero, bit-bit_and}
use qf.Bits.Word.{complement, bit-complement, bit-low_mask}
use qf.Bits.Count.{ones, ones_congr, ones_step}
use qf.Bits.Table.{holds_below, holds_below_at}
use qf.BitSet.{BitSet32, has_bit, get_index_of_bit}
use qf.BitSet.Members.{has_bit-bit}

-- The number of members below `n`, one by one.
unfoldable pub members_before : BitSet32 → ℕ → ℕ
members_before s zero = 0
members_before s (suc n) = members_before s n + (if has_bit s n then 1 else 0)

-- `~(0xffffffff >> n)` has the `n` highest digits.
prefix_table : holds_below 33 (λ n. 0xffffffff >>> n == 2 ^ (32 - n) - 1) ≡ true
unfolding holds_below
prefix_table = refl

low_mask-lt-word : (n : ℕ) → 2 ^ (32 - n) - 1 < 2 ^ 32
low_mask-lt-word n =
    let le : 2 ^ (32 - n) ≤ 2 ^ 32 =
      pow-le-pow_right {n = 2} (omega arith) {i = 32 - n} {j = 32} (omega arith) in
    omega arith

-- The word whose ones the code counts.
before_word : BitSet32 → ℕ → ℕ
before_word s n = s.value &&& complement 32 (0xffffffff >>> n)

bit-prefix :
    (s : BitSet32) (n j : ℕ)
    → n ≤ 32
    → j < 32
    → bit (before_word s n) j ≡ (if ltb j (32 - n) then 0 else bit s.value j)
unfolding before_word
bit-prefix s n j hn hj =
    let mask : 0xffffffff >>> n ≡ 2 ^ (32 - n) - 1 = (==_iff _ _).0 (
      holds_below_at 33 (λ k. 0xffffffff >>> k == 2 ^ (32 - k) - 1) n prefix_table (omega arith)) in
    rw mask (
      ground (
        arith,
        bit-bit_and s.value (complement 32 (2 ^ (32 - n) - 1)) j,
        bit-complement 32 (2 ^ (32 - n) - 1) j (low_mask-lt-word n) hj,
        bit-low_mask (32 - n) j,
        bit-lt s.value j,
      ))

ones_of_zero : (w : ℕ) → ones w 0 ≡ 0
unfolding ones
ones_of_zero zero = refl
ones_of_zero (suc w) = omega (arith, ones_of_zero w)

before-zero : (s : BitSet32) → ones 32 (before_word s 0) ≡ 0
before-zero s =
    ones_congr 32 (before_word s 0) 0
      (λ j h. ground (arith, bit-prefix s 0 j (omega arith) h, bit_of_zero j))
    ∙ ones_of_zero 32

before-suc :
    (s : BitSet32) (n : ℕ)
    → n < 32
    → ones 32 (before_word s (suc n)) ≡ ones 32 (before_word s n) + (if has_bit s n then 1 else 0)
before-suc s n h = rw (has_bit-bit s n h) (elim (Bool-cases (bit s.value (31 - n) == 1)) [
  | inl set ↦ rw set (
      ones_step 32 (before_word s n) (before_word s (suc n)) (31 - n) (omega arith)
        (ground (arith, bit-prefix s n (31 - n) (omega arith) (omega arith)))
        (ground (arith, bit-prefix s (suc n) (31 - n) h (omega arith)))
        (λ j hj ne. ground (arith, bit-prefix s n j (omega arith) hj, bit-prefix s (suc n) j h hj)))
  | inr free ↦ rw free (
      omega (
        arith,
        ones_congr 32 (before_word s (suc n)) (before_word s n) (λ j hj. ground (
          arith,
          bit-prefix s n j (omega arith) hj,
          bit-prefix s (suc n) j h hj,
          bit-lt s.value j,
        )),
      ))
])

index-members_before : (s : BitSet32) (n : ℕ) → n ≤ 32 → get_index_of_bit s n ≡ members_before s n
unfolding get_index_of_bit members_before before_word
index-members_before s zero h = before-zero s
index-members_before s (suc n) h =
    before-suc s n h
    ∙ ap (λ k. k + (if has_bit s n then 1 else 0)) (index-members_before s n (omega arith))

-- For every index below 32, `getIndexOfBit` is the number of members below it.
pub get_index_of_bit-members_before :
    (s : BitSet32) (n : ℕ) → n < 32 → get_index_of_bit s n ≡ members_before s n
get_index_of_bit-members_before s n h = index-members_before s n (omega arith)
