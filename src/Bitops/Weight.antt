-- ===== src/Bitops/Weight.antt =====
-- `bitmask_weight` of RS485/tl/native_client/jni/cutils/bitops.h counts the set bits of whole words.
use qf.Prelude.{
  ℕ, zero, suc, ◌+◌, ◌*◌, ◌/◌, ◌%◌, ◌<◌, ◌≤◌, ◌≡◌, refl, sym, ap, ◌∙◌, arith, Bool, true, ◌==◌,
  List, Option, some, length, get_elem?, get_elem?-some,
}
use qf.Bits.Digit.{bit, bit-lt}
use qf.Bits.Count.{ones, ones_last}
use qf.Bitops.{bitmask_test, bits_to_words, weight_loop, bitmask_weight, popcount}
use qf.Bitops.Marks.{bitmask_test-bit}

-- 1 for a bit that tests true.
abbrev pub marked : Option Bool → ℕ
marked (some true) = 1
marked _ = 0

-- The number of bits below `n` that test true, one by one.
unfoldable pub tested_below : List ℕ → ℕ → ℕ
tested_below bm zero = 0
tested_below bm (suc n) = tested_below bm n + marked (bitmask_test bm n)

marked-bit : (d : ℕ) → d < 2 → marked (some (d == 1)) ≡ d
marked-bit zero h = refl
marked-bit (suc zero) h = refl
marked-bit (suc (suc d)) h = absurd (omega arith)

module _ (bm : List ℕ) (i w : ℕ) (here : get_elem? bm i ≡ some w) where
  -- Within a word the tests count its digits.
  tested-ones :
      (k : ℕ) → k ≤ 32 → tested_below bm (k + 32 * i) ≡ tested_below bm (32 * i) + ones k w
  unfolding tested_below ones
  tested-ones zero h = let start : 0 + 32 * i ≡ 32 * i = omega arith in rw start (omega arith)
  tested-ones (suc k) h =
      let word : (k + 32 * i) / 32 ≡ i = omega arith in
      let digit : (k + 32 * i) % 32 ≡ k = omega arith in
      let test : bitmask_test bm (k + 32 * i) ≡ some (bit w ((k + 32 * i) % 32) == 1) =
        bitmask_test-bit bm (k + 32 * i) w (rw word here) in
      let next : suc k + 32 * i ≡ suc (k + 32 * i) = omega arith in
      rw (next, test, digit, marked-bit (bit w k) (bit-lt w k))
        (omega (arith, tested-ones k (omega arith), ones_last k w))

weight_loop-tested_below :
    (bm : List ℕ) (left i : ℕ)
    → left + i ≤ length bm
    → weight_loop bm left i (tested_below bm (32 * i)) ≡ some (tested_below bm (32 * (left + i)))
unfolding weight_loop popcount
weight_loop-tested_below bm zero i fits = let start : 0 + i ≡ i = omega arith in rw start
weight_loop-tested_below bm (suc left) i fits =
    let (w, here) = get_elem?-some bm i (omega arith) in
    let next : tested_below bm (32 * i) + ones 32 w ≡ tested_below bm (32 * (i + 1)) =
      sym (tested-ones bm i w here 32 (omega arith)) ∙ ap (tested_below bm) (omega arith) in
    let last : left + (i + 1) ≡ suc left + i = omega arith in
    rw (here, next)
      (weight_loop-tested_below bm left (i + 1) (omega arith)
        ∙ ap (λ n. some (tested_below bm (32 * n))) last)

-- On an array that holds `num_bits` bits, `bitmask_weight` reads in range and returns the number
-- of bits that test true, up to the end of the last word that it looks at: bits from `num_bits` on
-- count as well.
pub bitmask_weight-tested_below :
    (bm : List ℕ) (num_bits : ℕ)
    → bits_to_words num_bits ≤ length bm
    → bitmask_weight bm num_bits ≡ some (tested_below bm (32 * bits_to_words num_bits))
unfolding bitmask_weight tested_below
bitmask_weight-tested_below bm num_bits fits =
    weight_loop-tested_below bm (bits_to_words num_bits) 0 (omega arith)
    ∙ ap (λ n. some (tested_below bm (32 * n))) (omega arith)
