-- ===== src/BitSet/Search.antt =====
-- The searches of `BitSet32`, and the operations that mark or clear what they find.
use qf.Prelude.{ℕ, ◌+◌, ◌-◌, ◌<◌, ◌≡◌, ◌≢◌, arith, Bool, true, false, ◌==◌, ◌&&◌, ◌||◌, not}
use qf.Bits.Digit.{bit, bit-lt}
use qf.Bits.Word.{complement, complement-lt, bit-complement}
use qf.Bits.Count.{ones_step}
use qf.Bits.Scan.{clz, ctz, clz-IsTop, ctz-IsBottom}
use qf.BitSet.{
  BitSet32, has_bit, mark_bit, clear_bit, IsWord, count, first_marked_bit, first_unmarked_bit,
  last_marked_bit, clear_first_marked_bit, mark_first_unmarked_bit, clear_last_marked_bit,
}
use qf.BitSet.Members.{
  has_bit-bit, bit-mark_bit, bit-clear_bit, has_bit-mark_bit, has_bit-clear_bit,
}

-- `n` is the first index at which membership is `b`.
pub record IsFirst (s : BitSet32) (b : Bool) (n : ℕ) : Type 0 where
  pub inside : n < 32
  pub found : has_bit s n ≡ b
  pub before : (m : ℕ) → m < n → has_bit s m ≡ not b

-- `n` is the last index in the set.
pub record IsLast (s : BitSet32) (n : ℕ) : Type 0 where
  pub inside : n < 32
  pub found : has_bit s n ≡ true
  pub behind : (m : ℕ) → n < m → m < 32 → has_bit s m ≡ false

first_marked_bit-IsFirst :
    (s : BitSet32) → IsWord s → s.value ≢ 0 → IsFirst s true (first_marked_bit s)
unfolding first_marked_bit
first_marked_bit-IsFirst s w pos =
    let top = clz-IsTop 32 s.value w pos in
    record {
      inside = top.inside;
      found = rw (has_bit-bit s (clz 32 s.value) top.inside) (ground (arith, top.one));
      before = λ m below.
          rw (has_bit-bit s m (omega (arith, top.inside))) (ground (arith, top.above m below));
    }

digit_off : (a b : ℕ) → a ≡ 1 → a ≡ 1 - b → (b == 1) ≡ false
digit_off a b one flip = ground arith

digit_on : (a b : ℕ) → a ≡ 0 → a ≡ 1 - b → b < 2 → (b == 1) ≡ true
digit_on a b none flip small = ground arith

first_unmarked_bit-IsFirst :
    (s : BitSet32) → IsWord s → s.value ≢ 0xffffffff → IsFirst s false (first_unmarked_bit s)
unfolding first_unmarked_bit
first_unmarked_bit-IsFirst s w some_free =
    let rest = complement 32 s.value in
    let top =
      clz-IsTop 32 rest (complement-lt 32 s.value)
        (λ z. some_free (unfold complement in omega arith)) in
    let flip = λ (j : ℕ) (h : j < 32). bit-complement 32 s.value j w h in
    record {
      inside = top.inside;
      found =
          rw (has_bit-bit s (clz 32 rest) top.inside)
            (digit_off _ _ top.one (flip (31 - clz 32 rest) (omega arith)));
      before = λ m below. rw (has_bit-bit s m (omega (arith, top.inside))) (
          digit_on _ _ (top.above m below) (flip (31 - m) (omega arith)) (bit-lt s.value (31 - m)));
    }

last_marked_bit-IsLast : (s : BitSet32) → IsWord s → s.value ≢ 0 → IsLast s (last_marked_bit s)
unfolding last_marked_bit
last_marked_bit-IsLast s w pos =
    let low = ctz-IsBottom 32 s.value w pos in
    let at = ctz 32 s.value in
    let back : 31 - (31 - at) ≡ at = omega (arith, low.inside) in
    record {
      inside = omega arith;
      found = rw (has_bit-bit s (31 - at) (omega arith), back) (ground (arith, low.one));
      behind = λ m after small.
          rw (has_bit-bit s m small) (ground (arith, low.below (31 - m) (omega arith)));
    }

-- A marked bit adds one to the count, if it was not marked.
count-mark_bit :
    (s : BitSet32) (n : ℕ) → n < 32 → has_bit s n ≡ false → count (mark_bit s n) ≡ count s + 1
unfolding count
count-mark_bit s n h free =
    let off : (bit s.value (31 - n) == 1) ≡ false = rw (has_bit-bit s n h) at free in
    ones_step 32 s.value (mark_bit s n).value (31 - n) (omega arith)
      (ground (arith, bit-lt s.value (31 - n)))
      (ground (arith, bit-mark_bit s n (31 - n) h, bit-lt s.value (31 - n)))
      (λ j hj ne. ground (arith, bit-mark_bit s n j h, bit-lt s.value j))

count-clear_bit :
    (s : BitSet32) (n : ℕ)
    → IsWord s
    → n < 32
    → has_bit s n ≡ true
    → count s ≡ count (clear_bit s n) + 1
unfolding count
count-clear_bit s n w h set =
    let on : (bit s.value (31 - n) == 1) ≡ true = rw (has_bit-bit s n h) at set in
    ones_step 32 (clear_bit s n).value s.value (31 - n) (omega arith)
      (ground (arith, bit-clear_bit s n (31 - n) h, bit-lt s.value (31 - n)))
      (ground (arith, bit-lt s.value (31 - n)))
      (λ j hj ne. ground (arith, bit-clear_bit s n j h hj, bit-lt s.value j))

-- On a 32-bit set that is not empty, `clearFirstMarkedBit` returns the first marked index and takes just
-- that one out: every other index keeps its membership, and the count falls by one.
pub clear_first_marked_bit_lem :
    (s : BitSet32)
    → IsWord s
    → s.value ≢ 0
    → let (n, s') = clear_first_marked_bit s in
      IsFirst s true n
      × ((m : ℕ) → m < 32 → has_bit s' m ≡ (not (n == m) && has_bit s m))
      × (count s ≡ count s' + 1)
unfolding clear_first_marked_bit
clear_first_marked_bit_lem s w pos =
    let first = first_marked_bit-IsFirst s w pos in
    let n = first_marked_bit s in
    (
      first,
      λ m small. has_bit-clear_bit s n m first.inside small,
      count-clear_bit s n w first.inside first.found,
    )

-- On a 32-bit set that is not full, `markFirstUnmarkedBit` returns the first unmarked index and adds just
-- that one: every other index keeps its membership, and the count grows by one.
pub mark_first_unmarked_bit_lem :
    (s : BitSet32)
    → IsWord s
    → s.value ≢ 0xffffffff
    → let (n, s') = mark_first_unmarked_bit s in
      IsFirst s false n
      × ((m : ℕ) → m < 32 → has_bit s' m ≡ (n == m || has_bit s m))
      × (count s' ≡ count s + 1)
unfolding mark_first_unmarked_bit
mark_first_unmarked_bit_lem s w some_free =
    let first = first_unmarked_bit-IsFirst s w some_free in
    let n = first_unmarked_bit s in
    (
      first,
      λ m small. has_bit-mark_bit s n m first.inside small,
      count-mark_bit s n first.inside first.found,
    )

-- On a 32-bit set that is not empty, `clearLastMarkedBit` returns the last marked index and takes just
-- that one out: every other index keeps its membership, and the count falls by one.
pub clear_last_marked_bit_lem :
    (s : BitSet32)
    → IsWord s
    → s.value ≢ 0
    → let (n, s') = clear_last_marked_bit s in
      IsLast s n
      × ((m : ℕ) → m < 32 → has_bit s' m ≡ (not (n == m) && has_bit s m))
      × (count s ≡ count s' + 1)
unfolding clear_last_marked_bit
clear_last_marked_bit_lem s w pos =
    let last = last_marked_bit-IsLast s w pos in
    let n = last_marked_bit s in
    (
      last,
      λ m small. has_bit-clear_bit s n m last.inside small,
      count-clear_bit s n w last.inside last.found,
    )
