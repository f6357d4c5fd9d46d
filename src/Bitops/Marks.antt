-- ===== src/Bitops/Marks.antt =====
-- `bitmask_set`, `bitmask_clear` and `bitmask_test` of RS485/tl/native_client/jni/cutils/bitops.h
-- against one another.
use qf.Prelude.{
  ℕ, ◌*◌, ◌/◌, ◌%◌, ◌^◌, ◌<◌, ◌≤◌, ◌≡◌, ap, ◌∙◌, ◌≢◌, arith, true, false, ◌==◌, ◌!=◌, if◌then◌else◌,
  ◌&&&◌, ==_iff, Bool-cases, inl, inr, List, some, length, get_elem?, set, length-set,
  get_elem?-set_self, get_elem?-set_ne, get_elem?-some, bit_and, bit_or,
}
use native.Mathlib.Nat.{one-le-pow, pow-le-pow_right}
use qf.Bits.Digit.{bit, bit-lt, bit-bit_and, bit-bit_or}
use qf.Bits.Word.{complement, bit-two_pow, bit-complement, bit_and-two_pow}
use qf.Bitops.{bitmask_set, bitmask_clear, bitmask_test}

-- A test reads one digit of one word.
pub bitmask_test-bit :
    (bm : List ℕ) (j w : ℕ)
    → get_elem? bm (j / 32) ≡ some w
    → bitmask_test bm j ≡ some (bit w (j % 32) == 1)
unfolding bitmask_test
bitmask_test-bit bm j w e = rw e (ap some same)
  where
    same : ((w &&& (1 * 2 ^ (j % 32))) != 0) ≡ (bit w (j % 32) == 1)
    same =
        let one : 1 * 2 ^ (j % 32) ≡ 2 ^ (j % 32) = omega arith in
        rw (one, bit_and-two_pow w (j % 32))
          (ground (arith, one-le-pow (j % 32) 2, bit-lt w (j % 32)))

word_mask-lt : (k : ℕ) → 2 ^ (k % 32) < 2 ^ 32
word_mask-lt k =
    let le : 2 ^ (k % 32) ≤ 2 ^ 31 =
      pow-le-pow_right {n = 2} (omega arith) {i = k % 32} {j = 31} (omega arith) in
    omega arith

-- A word of the mask is replaced by one that differs from it at digit `k % 32` alone.
module _ (bm : List ℕ) (k w v d : ℕ) (range : k / 32 < length bm)
    (old : get_elem? bm (k / 32) ≡ some w)
    (digits : (i : ℕ) → i < 32 → bit v i ≡ (if k % 32 == i then d else bit w i)) where
  test-other :
      (j : ℕ)
      → k / 32 ≢ j / 32
      → j / 32 < length bm
      → bitmask_test (set bm (k / 32) v) j ≡ bitmask_test bm j
  test-other j ne hj =
      let (u, e) = get_elem?-some bm (j / 32) hj in
      rw (
        bitmask_test-bit bm j u e,
        bitmask_test-bit (set bm (k / 32) v) j u (get_elem?-set_ne bm (k / 32) (j / 32) v ne ∙ e),
      )

  test-same :
      (j : ℕ)
      → k / 32 ≡ j / 32
      → bitmask_test (set bm (k / 32) v) j ≡ (if k == j then some (d == 1) else bitmask_test bm j)
  test-same j same =
      let here : get_elem? (set bm (k / 32) v) (j / 32) ≡ some v =
        rw (← same) (get_elem?-set_self bm (k / 32) v range) in
      rw
        (
          bitmask_test-bit bm j w (rw (← same) old),
          bitmask_test-bit (set bm (k / 32) v) j v here,
          digits (j % 32) (omega arith),
        )
        (ground arith)

  test-replaced :
      (j : ℕ)
      → j / 32 < length bm
      → bitmask_test (set bm (k / 32) v) j ≡ (if k == j then some (d == 1) else bitmask_test bm j)
  test-replaced j hj = elim (Bool-cases (k / 32 == j / 32)) [
    | inl same ↦ test-same j ((==_iff _ _).0 same)
    | inr other ↦
        let apart : (k == j) ≡ false = ground arith in rw apart (test-other j (ground arith) hj)
  ]

-- For a bit inside the array, `bitmask_set` writes in range and keeps the array's length;
-- afterwards that bit tests true and every other bit of the array tests as before.
pub bitmask_set-bitmask_test :
    (bm : List ℕ) (k : ℕ)
    → k / 32 < length bm
    → (bm' : List ℕ) × (bitmask_set bm k ≡ some bm')
      × (length bm' ≡ length bm)
      × ((j : ℕ)
          → j / 32 < length bm
          → bitmask_test bm' j ≡ (if k == j then some true else bitmask_test bm j))
unfolding bitmask_set
bitmask_set-bitmask_test bm k range =
    let (w, old) = get_elem?-some bm (k / 32) range in
    let v = bit_or w (1 * 2 ^ (k % 32)) in
    (
      set bm (k / 32) v,
      rw old,
      length-set bm (k / 32) v,
      test-replaced bm k w v 1 range old λ i hi.
          let one : 1 * 2 ^ (k % 32) ≡ 2 ^ (k % 32) = omega arith in
          rw (one, bit-bit_or w (2 ^ (k % 32)) i, bit-two_pow (k % 32) i)
            (ground (arith, bit-lt w i)),
    )

-- For a bit inside the array, `bitmask_clear` writes in range and keeps the array's length;
-- afterwards that bit tests false and every other bit of the array tests as before.
pub bitmask_clear-bitmask_test :
    (bm : List ℕ) (k : ℕ)
    → k / 32 < length bm
    → (bm' : List ℕ) × (bitmask_clear bm k ≡ some bm')
      × (length bm' ≡ length bm)
      × ((j : ℕ)
          → j / 32 < length bm
          → bitmask_test bm' j ≡ (if k == j then some false else bitmask_test bm j))
unfolding bitmask_clear
bitmask_clear-bitmask_test bm k range =
    let (w, old) = get_elem?-some bm (k / 32) range in
    let v = bit_and w (complement 32 (1 * 2 ^ (k % 32))) in
    (
      set bm (k / 32) v,
      rw old,
      length-set bm (k / 32) v,
      test-replaced bm k w v 0 range old λ i hi.
          let one : 1 * 2 ^ (k % 32) ≡ 2 ^ (k % 32) = omega arith in
          rw
            (
              one,
              bit-bit_and w (complement 32 (2 ^ (k % 32))) i,
              bit-complement 32 (2 ^ (k % 32)) i (word_mask-lt k) hi,
              bit-two_pow (k % 32) i,
            )
            (ground (arith, bit-lt w i)),
    )
