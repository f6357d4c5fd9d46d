-- ===== src/Timers/Tests.antt =====
-- Conversions of RS485/tl/native_client/jni/utils/Timers.h on times.
use qf.Prelude.{◌-◌, ◌^◌, ◌≡◌, refl, arith, inr}
use qf.Timers.{
  ns2s, ns2ms, seconds, s2ns, seconds_to_nanoseconds, nanoseconds_to_seconds,
  nanoseconds_to_milliseconds,
}
use qf.Timers.Units.{second, from_nanoseconds, to_nanoseconds, from_nanoseconds-to_nanoseconds}

-- Three seconds before, and the first time that does not fit.
from_nanoseconds-to_nanoseconds_example :
    from_nanoseconds second (to_nanoseconds second (2 ^ 64 - 3)) ≡ 2 ^ 64 - 3
from_nanoseconds-to_nanoseconds_example =
    from_nanoseconds-to_nanoseconds second (2 ^ 64 - 3) (inr (omega arith, omega arith))

too_many_seconds : ns2s (seconds 9223372037) ≡ 2 ^ 64 - 9223372036
unfolding seconds s2ns seconds_to_nanoseconds ns2s nanoseconds_to_seconds
too_many_seconds = refl

before_zero : ns2ms (2 ^ 64 - 1999999) ≡ 2 ^ 64 - 1
unfolding ns2ms nanoseconds_to_milliseconds
before_zero = refl
