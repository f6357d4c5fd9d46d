-- ===== src/Timers/Units.antt =====
-- Round trips between the units of RS485/tl/native_client/jni/utils/Timers.h.
use qf.Prelude.{ℕ, ◌+◌, ◌-◌, ◌*◌, ◌/◌, ◌^◌, ◌<◌, ◌≤◌, ◌≡◌, ◌⊎◌, arith, ltb, true, false, inl, inr}
use qf.Timers.{
  Nsecs, times, quotient, ns2s, ns2ms, ns2us, seconds, milliseconds, microseconds, s2ns, ms2ns,
  us2ns, seconds_to_nanoseconds, milliseconds_to_nanoseconds, microseconds_to_nanoseconds,
  nanoseconds_to_seconds, nanoseconds_to_milliseconds, nanoseconds_to_microseconds,
}

-- The signed value of `v` is from `- bound` to `bound`.
abbrev pub IsAtMost : ℕ → Nsecs → Type 0
IsAtMost bound v = (v ≤ bound) ⊎ ((v < 2 ^ 64) × (2 ^ 64 ≤ v + bound))

nonnegative :
    (v unit : ℕ) → v * unit < 2 ^ 63 → v * unit / unit ≡ v → quotient (times v unit) unit ≡ v
nonnegative v unit small exact =
    let same : times v unit ≡ v * unit = omega (arith, small) in
    let on : ltb (v * unit) (2 ^ 63) ≡ true = ground (arith, small) in rw same (rw on exact)

negative :
    (v w unit : ℕ)
    → v + w ≡ 2 ^ 64
    → 0 < w
    → times v unit + w * unit ≡ 2 ^ 64
    → w * unit ≤ 2 ^ 63
    → w * unit / unit ≡ w
    → quotient (times v unit) unit ≡ v
negative v w unit total more product small exact =
    let off : ltb (times v unit) (2 ^ 63) ≡ false = ground (arith, product, small) in
    let back : 2 ^ 64 - times v unit ≡ w * unit = omega (arith, product) in
    rw off (rw back (rw exact (omega (arith, total, more))))

seconds-exact : (v : Nsecs) → IsAtMost 9223372036 v → quotient (times v 1000000000) 1000000000 ≡ v
seconds-exact v (inl small) = nonnegative v 1000000000 (omega (arith, small)) (omega arith)
seconds-exact v (inr (fits, near)) =
    negative v (2 ^ 64 - v) 1000000000 (omega (arith, fits)) (omega (arith, fits))
      (omega (arith, fits, near)) (omega (arith, fits, near)) (omega arith)

milliseconds-exact : (v : Nsecs) → IsAtMost 9223372036854 v → quotient (times v 1000000) 1000000 ≡ v
milliseconds-exact v (inl small) = nonnegative v 1000000 (omega (arith, small)) (omega arith)
milliseconds-exact v (inr (fits, near)) =
    negative v (2 ^ 64 - v) 1000000 (omega (arith, fits)) (omega (arith, fits))
      (omega (arith, fits, near)) (omega (arith, fits, near)) (omega arith)

microseconds-exact : (v : Nsecs) → IsAtMost 9223372036854775 v → quotient (times v 1000) 1000 ≡ v
microseconds-exact v (inl small) = nonnegative v 1000 (omega (arith, small)) (omega arith)
microseconds-exact v (inr (fits, near)) =
    negative v (2 ^ 64 - v) 1000 (omega (arith, fits)) (omega (arith, fits))
      (omega (arith, fits, near)) (omega (arith, fits, near)) (omega arith)

pub data TimeUnit : Type 0 where
  second : TimeUnit
  millisecond : TimeUnit
  microsecond : TimeUnit

-- The largest number of a unit whose nanoseconds are in 63 bits.
abbrev pub largest : TimeUnit → ℕ
largest second = 9223372036
largest millisecond = 9223372036854
largest microsecond = 9223372036854775

abbrev pub to_nanoseconds : TimeUnit → Nsecs → Nsecs
to_nanoseconds second v = seconds v
to_nanoseconds millisecond v = milliseconds v
to_nanoseconds microsecond v = microseconds v

abbrev pub from_nanoseconds : TimeUnit → Nsecs → Nsecs
from_nanoseconds second v = ns2s v
from_nanoseconds millisecond v = ns2ms v
from_nanoseconds microsecond v = ns2us v

-- A time in seconds, milliseconds or microseconds, negative ones included, whose nanoseconds fit in
-- 63 bits and a sign, is the same after it was converted to nanoseconds and back.
pub from_nanoseconds-to_nanoseconds :
    (u : TimeUnit) (v : Nsecs)
    → IsAtMost (largest u) v
    → from_nanoseconds u (to_nanoseconds u v) ≡ v
unfolding seconds milliseconds microseconds s2ns ms2ns us2ns ns2s ns2ms ns2us seconds_to_nanoseconds
    milliseconds_to_nanoseconds microseconds_to_nanoseconds nanoseconds_to_seconds
    nanoseconds_to_milliseconds nanoseconds_to_microseconds
from_nanoseconds-to_nanoseconds second v small = seconds-exact v small
from_nanoseconds-to_nanoseconds millisecond v small = milliseconds-exact v small
from_nanoseconds-to_nanoseconds microsecond v small = microseconds-exact v small
