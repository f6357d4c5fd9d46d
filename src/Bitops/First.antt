-- ===== src/Bitops/First.antt =====
-- `bitmask_ffz` of RS485/tl/native_client/jni/cutils/bitops.h finds the first clear bit.
use qf.Prelude.{
  ℕ, zero, suc, ◌+◌, ◌-◌, ◌*◌, ◌/◌, ◌%◌, ◌^◌, ◌<◌, ◌≤◌, ◌≡◌, refl, ap, ◌∙◌, ◌≢◌, arith, true, false,
  ◌==◌, ◌!=◌, leb, ==_iff, Bool-cases, inl, inr, List, Option, none, some, length, get_elem?,
  get_elem?-some,
}
use qf.Bits.Digit.{bit, bit-lt, bit_of_zero}
use qf.Bits.Word.{complement, bit-complement, complement-lt}
use qf.Bits.Scan.{ffs, ctz, ffs-ctz, ffs_of_zero, ctz-IsBottom}
use qf.Bitops.{bitmask_test, bits_to_words, ffz_loop, bitmask_ffz}
use qf.Bitops.Marks.{bitmask_test-bit}

-- The words of the array are 32-bit words.
abbrev pub IsWords : List ℕ → Type 0
IsWords bm = (i w : ℕ) → get_elem? bm i ≡ some w → w < 2 ^ 32

abbrev pub SetBelow : List ℕ → ℕ → Type 0
SetBelow bm n = (j : ℕ) → j < n → bitmask_test bm j ≡ some true

-- What the result says of the first `n` bits; `none` is the -1 of the code.
abbrev pub IsFirstClear : List ℕ → ℕ → Option ℕ → Type 0
IsFirstClear bm n none = SetBelow bm n
IsFirstClear bm n (some r) = (r < n) × (bitmask_test bm r ≡ some false) × SetBelow bm r

set_of_flip : (c d k : ℕ) → c ≡ 0 → bit c k ≡ 1 - d → d < 2 → (d == 1) ≡ true
set_of_flip c d k off flip small =
    let clear : 0 ≡ 1 - d = rw (off, bit_of_zero k) at flip in ground arith

set_of_clear : (c d : ℕ) → c ≡ 0 → c ≡ 1 - d → d < 2 → (d == 1) ≡ true
set_of_clear c d off flip small = ground arith

clear_of_set : (c d : ℕ) → c ≡ 1 → c ≡ 1 - d → (d == 1) ≡ false
clear_of_set c d one flip = ground arith

module _ (bm : List ℕ) (words : IsWords bm) where
  -- A word whose complement is zero has all its bits set.
  full_word :
      (i w : ℕ)
      → get_elem? bm i ≡ some w
      → complement 32 w ≡ 0
      → SetBelow bm (32 * i)
      → SetBelow bm (32 * (i + 1))
  full_word i w e full before j h = elim (Bool-cases (leb (32 * i) j)) [
    | inr earlier ↦ before j (ground arith)
    | inl here ↦
        let at : j / 32 ≡ i = ground arith in
        rw (bitmask_test-bit bm j w (rw at e)) (
          ap some (
            set_of_flip (complement 32 w) (bit w (j % 32)) (j % 32) full
              (bit-complement 32 w (j % 32) (words i w e) (omega arith)) (bit-lt w (j % 32))))
  ]

  -- The lowest one of a word's complement is its first clear bit.
  first_in_word :
      (i w : ℕ)
      → get_elem? bm i ≡ some w
      → complement 32 w ≢ 0
      → SetBelow bm (32 * i)
      → (ctz 32 (complement 32 w) < 32)
        × (bitmask_test bm (32 * i + ctz 32 (complement 32 w)) ≡ some false)
        × SetBelow bm (32 * i + ctz 32 (complement 32 w))
  first_in_word i w e some_clear before =
      let c = complement 32 w in
      let low = ctz-IsBottom 32 c (complement-lt 32 w) some_clear in
      let at = ctz 32 c in
      let flip = λ (j : ℕ) (h : j < 32). bit-complement 32 w j (words i w e) h in
      let word_at = λ (j : ℕ) (h : j / 32 ≡ i). bitmask_test-bit bm j w (ap (get_elem? bm) h ∙ e) in
      let place : (32 * i + at) / 32 ≡ i = omega (arith, low.inside) in
      let digit : (32 * i + at) % 32 ≡ at = omega (arith, low.inside) in
      (
        low.inside,
        word_at (32 * i + at) place
            ∙ ap some (rw digit (clear_of_set (bit c at) (bit w at) low.one (flip at low.inside))),
        λ j h. elim (Bool-cases (leb (32 * i) j)) [
          | inr earlier ↦ before j (ground arith)
          | inl here ↦
              let inside : j / 32 ≡ i = ground (arith, low.inside) in
              let under : j % 32 < at = ground (arith, low.inside) in
              word_at j inside
              ∙ ap some (
                  set_of_clear (bit c (j % 32)) (bit w (j % 32)) (low.below (j % 32) under)
                    (flip (j % 32) (omega arith)) (bit-lt w (j % 32)))
        ],
      )

  -- The loop from word `i` on, all bits before it set.
  ffz_loop-IsFirstClear :
      (num_bits left i : ℕ)
      → left + i ≡ bits_to_words num_bits
      → bits_to_words num_bits ≤ length bm
      → SetBelow bm (32 * i)
      → (r : Option ℕ) × (ffz_loop bm num_bits left i ≡ some r) × IsFirstClear bm num_bits r
  unfolding ffz_loop
  ffz_loop-IsFirstClear num_bits zero i e fits before = (none, refl, λ j h. before j (omega arith))
  ffz_loop-IsFirstClear num_bits (suc left) i e fits before =
      let (w, here) = get_elem?-some bm i (omega arith) in
      elim (Bool-cases (complement 32 w == 0)) [
        | inl full ↦
            let none_clear : complement 32 w ≡ 0 = (==_iff _ _).0 full in
            let (r, returns, first) =
              ffz_loop-IsFirstClear num_bits left (i + 1) (omega arith) fits
                (full_word i w here none_clear before) in
            (r, rw (here, none_clear, ffs_of_zero 32) returns, first)
        | inr clear ↦
            let some_clear : complement 32 w ≢ 0 = ground arith in
            let found = first_in_word i w here some_clear before in
            let place = 32 * i + ctz 32 (complement 32 w) in
            let bit : ffs 32 (complement 32 w) ≡ ctz 32 (complement 32 w) + 1 =
              ffs-ctz 32 (complement 32 w) (complement-lt 32 w) some_clear in
            let index : 32 * i + (ctz 32 (complement 32 w) + 1 - 1) ≡ place = omega arith in
            let marked : (ctz 32 (complement 32 w) + 1 != 0) ≡ true = ground arith in
            elim (Bool-cases (leb num_bits place)) [
              | inl beyond ↦
                  (none, rw (here, bit, marked, index, beyond), λ j h. found.2 j (ground arith))
              | inr inside ↦ (
                some place,
                rw (here, bit, marked, index, inside),
                (ground arith, found.1, found.2),
              )
            ]
      ]

-- On an array of 32-bit words that holds `num_bits` bits, `bitmask_ffz` reads in range and returns
-- the first clear bit below `num_bits`; it returns -1 exactly when all of them are set.
pub bitmask_ffz-IsFirstClear :
    (bm : List ℕ) (num_bits : ℕ)
    → IsWords bm
    → bits_to_words num_bits ≤ length bm
    → (r : Option ℕ) × (bitmask_ffz bm num_bits ≡ some r) × IsFirstClear bm num_bits r
unfolding bitmask_ffz
bitmask_ffz-IsFirstClear bm num_bits words fits =
    ffz_loop-IsFirstClear bm words num_bits (bits_to_words num_bits) 0 (omega arith) fits
      (λ j h. absurd (omega arith))
