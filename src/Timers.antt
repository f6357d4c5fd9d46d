-- ===== src/Timers.antt =====
-- The conversions of times of RS485/tl/native_client/jni/utils/Timers.h. An `nsecs_t` is a 64-bit word
-- in two's complement; products wrap around, and quotients are rounded towards zero.
pub mod Units
pub mod Tests
use qf.Prelude.{ℕ, ◌+◌, ◌-◌, ◌*◌, ◌/◌, ◌%◌, ◌^◌, ltb, if◌then◌else◌, Bool}

abbrev pub Nsecs : Type 0
Nsecs = ℕ

abbrev pub is_nonnegative : Nsecs → Bool
is_nonnegative v = ltb v (2 ^ 63)

abbrev pub times : Nsecs → ℕ → Nsecs
times v unit = v * unit % 2 ^ 64

abbrev pub quotient : Nsecs → ℕ → Nsecs
quotient v unit = if is_nonnegative v then v / unit else (2 ^ 64 - (2 ^ 64 - v) / unit) % 2 ^ 64

unfoldable pub seconds_to_nanoseconds : Nsecs → Nsecs
seconds_to_nanoseconds secs = times secs 1000000000

unfoldable pub milliseconds_to_nanoseconds : Nsecs → Nsecs
milliseconds_to_nanoseconds secs = times secs 1000000

unfoldable pub microseconds_to_nanoseconds : Nsecs → Nsecs
microseconds_to_nanoseconds secs = times secs 1000

unfoldable pub nanoseconds_to_seconds : Nsecs → Nsecs
nanoseconds_to_seconds secs = quotient secs 1000000000

unfoldable pub nanoseconds_to_milliseconds : Nsecs → Nsecs
nanoseconds_to_milliseconds secs = quotient secs 1000000

unfoldable pub nanoseconds_to_microseconds : Nsecs → Nsecs
nanoseconds_to_microseconds secs = quotient secs 1000

unfoldable pub s2ns : Nsecs → Nsecs
unfolding seconds_to_nanoseconds
s2ns v = seconds_to_nanoseconds v

unfoldable pub ms2ns : Nsecs → Nsecs
unfolding milliseconds_to_nanoseconds
ms2ns v = milliseconds_to_nanoseconds v

unfoldable pub us2ns : Nsecs → Nsecs
unfolding microseconds_to_nanoseconds
us2ns v = microseconds_to_nanoseconds v

unfoldable pub ns2s : Nsecs → Nsecs
unfolding nanoseconds_to_seconds
ns2s v = nanoseconds_to_seconds v

unfoldable pub ns2ms : Nsecs → Nsecs
unfolding nanoseconds_to_milliseconds
ns2ms v = nanoseconds_to_milliseconds v

unfoldable pub ns2us : Nsecs → Nsecs
unfolding nanoseconds_to_microseconds
ns2us v = nanoseconds_to_microseconds v

unfoldable pub seconds : Nsecs → Nsecs
unfolding s2ns
seconds v = s2ns v

unfoldable pub milliseconds : Nsecs → Nsecs
unfolding ms2ns
milliseconds v = ms2ns v

unfoldable pub microseconds : Nsecs → Nsecs
unfolding us2ns
microseconds v = us2ns v
