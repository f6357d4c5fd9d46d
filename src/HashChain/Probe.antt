-- ===== src/HashChain/Probe.antt =====
-- The chains of buckets of RS485/tl/native_client/jni/utils/BasicHashtable.h.
use Prim.Native.Nat.{bit_xor}
use native.Mathlib.Nat.{
  mod-lt, mod-eq_of_lt, mod-eq-sub-mod, mod-add-mod, add-mul-mod_self_left, suc-mul,
}
use qf.Prelude.{
  ℕ, zero, suc, ◌+◌, ◌-◌, ◌*◌, ◌%◌, ◌^◌, ◌&&&◌, ◌|||◌, ◌<<<◌, ◌>>>◌, ◌<◌, ◌≤◌, ◌≡◌, ◌≢◌, inl, inr,
  refl, sym, ap, ◌∙◌, arith, ltb, Bool-cases,
}
use qf.Bits.Digit.{bit-bit_xor}
use qf.Bits.Word.{bit_and-low_mask, bit_of_small, lt_of_bits}
use qf.HashChain.{trim_hash, hash_mask, chain_start, chain_increment, chain_seek}

-- The hash code of a cookie leaves the bits of the two flags clear, for every 32-bit hash code.
pub trim_hash-lt : (hash : ℕ) → hash < 2 ^ 32 → trim_hash hash < 2 ^ 30
unfolding trim_hash
trim_hash-lt hash word =
    let low : (hash &&& hash_mask) < 2 ^ 30 = rw (bit_and-low_mask 30 hash) (omega arith) in
    let high : hash >>> 30 < 2 ^ 30 = omega arith in
    lt_of_bits 30 (bit_xor (hash &&& hash_mask) (hash >>> 30)) λ j le.
      bit-bit_xor (hash &&& hash_mask) (hash >>> 30) j
      ∙ rw (bit_of_small 30 (hash &&& hash_mask) j low le, bit_of_small 30 (hash >>> 30) j high le)
          refl

seek_once :
    (index increment count : ℕ)
    → index < count
    → 1 ≤ increment
    → increment < count
    → count ≤ 2 ^ 31
    → (chain_seek index increment count < count) × (chain_seek index increment count ≢ index)
unfolding chain_seek
seek_once index increment count inside more less small =
    let word : (index + increment) % 2 ^ 32 ≡ index + increment = omega arith in
    elim (Bool-cases (ltb (index + increment) count)) [
      | inl before ↦
          let lt : index + increment < count = ground arith in
          let e : (index + increment) % count ≡ index + increment = mod-eq_of_lt lt in
          rw (word, e) (lt, λ same. absurd (omega (arith, same)))
      | inr beyond ↦
          let le : count ≤ index + increment = ground arith in
          let lt : index + increment - count < count = omega arith in
          let e : (index + increment) % count ≡ index + increment - count =
            mod-eq-sub-mod le ∙ mod-eq_of_lt lt in
          rw (word, e) (lt, λ same. absurd (omega (arith, same)))
    ]

-- Of a table with 2 buckets at least and 2 ^ 31 at most, a chain starts at a bucket of the table,
-- and each step of it leads from a bucket of the table to another one.
pub chain_seek_lem :
    (hash index count : ℕ)
    → 2 ≤ count
    → count ≤ 2 ^ 31
    → index < count
    → (chain_start hash count < count)
      × (chain_seek index (chain_increment hash count) count < count)
      × (chain_seek index (chain_increment hash count) count ≢ index)
unfolding chain_start chain_increment
chain_seek_lem hash index count two small inside =
    let some_bucket : 0 < count = omega arith in
    let others : 0 < count - 1 = omega arith in
    let spread = (hash >>> 7) ||| ((hash <<< 25) % 2 ^ 32) in
    let step : spread % (count - 1) < count - 1 = mod-lt spread others in
    let (there, apart) =
      seek_once index (chain_increment hash count) count inside (omega arith) (omega (arith, step))
        small in
    (mod-lt hash some_bucket, there, apart)

abbrev pub seek_times : ℕ → ℕ → ℕ → ℕ → ℕ
seek_times zero start increment count = start
seek_times (suc n) start increment count =
    chain_seek (seek_times n start increment count) increment count

seek_times-mod :
    (n start increment count : ℕ)
    → start < count
    → increment < count
    → count ≤ 2 ^ 31
    → seek_times n start increment count ≡ (start + n * increment) % count
unfolding chain_seek
seek_times-mod zero start increment count inside less small =
    let none_yet : start + 0 * increment ≡ start = omega arith in
    rw none_yet (sym (mod-eq_of_lt inside))
seek_times-mod (suc n) start increment count inside less small =
    let here = (start + n * increment) % count in
    let bound : here < count = mod-lt (start + n * increment) (omega arith) in
    let word : (here + increment) % 2 ^ 32 ≡ here + increment = omega (arith, bound) in
    let one_more : start + n * increment + increment ≡ start + suc n * increment =
      omega (arith, suc-mul n increment) in
    rw (seek_times-mod n start increment count inside less small)
      (rw word (mod-add-mod (start + n * increment) count increment ∙ ap (λ x. x % count) one_more))

-- In a table with at most 2 ^ 31 buckets, `n` steps of a chain lead from its start to the bucket `n`
-- increments further, modulo the number of buckets, and as many steps as there are buckets lead
-- back to the start.
pub seek_times-chain :
    (n start increment count : ℕ)
    → start < count
    → increment < count
    → count ≤ 2 ^ 31
    → (seek_times n start increment count ≡ (start + n * increment) % count)
      × (seek_times count start increment count ≡ start)
seek_times-chain n start increment count inside less small = (
  seek_times-mod n start increment count inside less small,
  seek_times-mod count start increment count inside less small
      ∙ add-mul-mod_self_left start count increment
      ∙ mod-eq_of_lt inside,
)
