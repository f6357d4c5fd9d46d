-- ===== src/Bits/Scan.antt =====
-- The zeros above and below the ones of a word: the compiler's `__builtin_clz` and
-- `__builtin_ctz`, and the C library's `ffs`.
use qf.Prelude.{
  ℕ, zero, suc, ◌+◌, ◌-◌, ◌/◌, ◌%◌, ◌^◌, ◌<◌, ◌≤◌, ◌≡◌, refl, ◌≢◌, arith, ◌==◌, if◌then◌else◌,
  ==_iff, Bool-cases, inl, inr,
}
use native.Mathlib.Nat.{two-pow-succ}
use native.Mathlib.Numerals.{add-one}
use qf.Bits.Digit.{bit, bit-lt}
use qf.Bits.Word.{bit_of_small, lt_of_bits}

-- `__builtin_clz` and `__builtin_ctz` on a word of `w` bits.
unfoldable pub clz : ℕ → ℕ → ℕ
clz zero x = 0
clz (suc w) x = let rest = clz w x in if bit x w == 1 then 0 else rest + 1

unfoldable pub ctz : ℕ → ℕ → ℕ
ctz zero x = 0
ctz (suc w) x = let rest = ctz w (x / 2) in if x % 2 == 1 then 0 else rest + 1

-- The place of the lowest one, counted from 1, or 0.
unfoldable pub ffs : ℕ → ℕ → ℕ
ffs zero x = 0
ffs (suc w) x =
    let rest = ffs w (x / 2) in if x % 2 == 1 then 1 else if rest == 0 then 0 else rest + 1

-- `at` is the highest digit of `x` that is one, counted from the top of `w` digits.
pub record IsTop (w x at : ℕ) : Type 0 where
  pub inside : at < w
  pub one : bit x (w - 1 - at) ≡ 1
  pub above : (m : ℕ) → m < at → bit x (w - 1 - m) ≡ 0

pub clz-IsTop : (w x : ℕ) → x < 2 ^ w → x ≢ 0 → IsTop w x (clz w x)
unfolding clz
clz-IsTop zero x h pos = absurd (pos (omega arith))
clz-IsTop (suc w) x h pos = elim (Bool-cases (bit x w == 1)) [
  | inl set ↦ rw set (record {
    inside = omega arith;
    one = let e : suc w - 1 - 0 ≡ w = omega arith in rw e ((==_iff _ _).0 set);
    above = λ m below. absurd (omega arith);
  })
  | inr free ↦
      let top_free : bit x w ≡ 0 = ground (arith, bit-lt x w) in
      let small : x < 2 ^ w = lt_of_bits w x (λ j hj. beyond_free w x h top_free j hj) in
      let rest = clz-IsTop w x small pos in
      rw free (record {
        inside = omega (arith, rest.inside);
        one = let e : suc w - 1 - (clz w x + 1) ≡ w - 1 - clz w x = omega arith in rw e rest.one;
        above = λ m below. top_or_rest w x top_free (clz w x) rest.above m below;
      })
]
  where
    beyond_free : (w x : ℕ) → x < 2 ^ suc w → bit x w ≡ 0 → (j : ℕ) → w ≤ j → bit x j ≡ 0
    beyond_free w x h free j hj = elim (Bool-cases (w == j)) [
      | inl same ↦ rw (← (==_iff w j).0 same) free
      | inr other ↦ bit_of_small (suc w) x j h (ground arith)
    ]

    top_or_rest :
        (w x : ℕ)
        → bit x w ≡ 0
        → (at : ℕ) → ((m : ℕ) → m < at → bit x (w - 1 - m) ≡ 0)
        → (m : ℕ) → m < at + 1
        → bit x (suc w - 1 - m) ≡ 0
    top_or_rest w x free at above zero h = let e : suc w - 1 - 0 ≡ w = omega arith in rw e free
    top_or_rest w x free at above (suc m) h =
        let e : suc w - 1 - suc m ≡ w - 1 - m = omega arith in rw e (above m (omega arith))

-- `at` is the lowest digit of `x` that is one.
pub record IsBottom (w x at : ℕ) : Type 0 where
  pub inside : at < w
  pub one : bit x at ≡ 1
  pub below : (j : ℕ) → j < at → bit x j ≡ 0

pub ctz-IsBottom : (w x : ℕ) → x < 2 ^ w → x ≢ 0 → IsBottom w x (ctz w x)
unfolding ctz bit
ctz-IsBottom zero x h pos = absurd (pos (omega arith))
ctz-IsBottom (suc w) x h pos = elim (Bool-cases (x % 2 == 1)) [
  | inl odd ↦ rw odd (record {
    inside = omega arith;
    one = (==_iff _ _).0 odd;
    below = λ j below. absurd (omega arith);
  })
  | inr even ↦
      let rest = ctz-IsBottom w (x / 2) (omega (arith, two-pow-succ w)) (λ z. pos (ground arith)) in
      rw even (record {
        inside = omega (arith, rest.inside);
        one = next (ctz w (x / 2)) rest.one;
        below = first (ctz w (x / 2)) (ground arith) rest.below;
      })
]
  where
    next : (at : ℕ) → bit (x / 2) at ≡ 1 → bit x (at + 1) ≡ 1
    next at e = rw add-one e

    first :
        (at : ℕ)
        → x % 2 ≡ 0
        → ((j : ℕ) → j < at → bit (x / 2) j ≡ 0)
        → (j : ℕ) → j < at + 1
        → bit x j ≡ 0
    first at even below zero h = even
    first at even below (suc j) h = below j (omega arith)

pub ffs_of_zero : (w : ℕ) → ffs w 0 ≡ 0
unfolding ffs
ffs_of_zero zero = refl
ffs_of_zero (suc w) = rw (ffs_of_zero w)

pub ffs-ctz : (w x : ℕ) → x < 2 ^ w → x ≢ 0 → ffs w x ≡ ctz w x + 1
unfolding ffs ctz
ffs-ctz zero x h pos = absurd (pos (omega arith))
ffs-ctz (suc w) x h pos = elim (Bool-cases (x % 2 == 1)) [
  | inl odd ↦ rw odd
  | inr even ↦
      rw (even, ffs-ctz w (x / 2) (omega (arith, two-pow-succ w)) (λ z. pos (ground arith)))
        (ground arith)
]
