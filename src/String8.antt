-- ===== src/String8.antt =====
-- `String8` of RS485/tl/native_client/jni/utils/String8.h: its size and its comparisons, and the
-- header of its buffer, of RS485/tl/native_client/jni/utils/SharedBuffer.h. The C library's `strcmp`
-- runs on fuel. A read of a byte that is not there, and a run out of fuel, is `none`.
pub mod Dictionary
pub mod Text
pub mod Order
pub mod Tests
use qf.Prelude.{
  ℕ, zero, suc, ◌+◌, ◌-◌, ◌%◌, ◌^◌, Option, none, some, Bool, true, false, not, ltb, ◌==◌,
  if◌then◌else◌,
}

abbrev pub Address : Type 0
Address = ℕ

-- `SharedBuffer`, whose data lies behind its 16 bytes.
pub record SharedBuffer : Type 0 where
  pub refs : ℕ
  pub size : ℕ

pub record Memory : Type 0 where
  pub buffers : Address → Option SharedBuffer
  pub bytes : Address → Option ℕ

abbrev pub map_some : {A B : Type 0} → (A → B) → Option A → Option B
map_some f none = none
map_some f (some a) = some (f a)

unfoldable pub data_of : Address → Address
data_of buffer = buffer + 16

abbrev pub size_of : SharedBuffer → ℕ
size_of b = b.size

unfoldable pub only_owner : SharedBuffer → Bool
only_owner b = b.refs == 1

unfoldable pub buffer_from_data : Address → Address
buffer_from_data p = if p == 0 then 0 else p - 16

unfoldable pub size_from_data : Address → Memory → Option ℕ
unfolding buffer_from_data
size_from_data p m = if p == 0 then some 0 else map_some size_of (m.buffers (buffer_from_data p))

pub record String8 : Type 0 where
  pub string : Address

unfoldable pub shared_buffer : String8 → Address
unfolding buffer_from_data
shared_buffer s = buffer_from_data s.string

unfoldable pub length : String8 → Memory → Option ℕ
unfolding size_from_data
length s m = map_some (λ n. (n + (2 ^ 32 - 1)) % 2 ^ 32) (size_from_data s.string m)

unfoldable pub size : String8 → Memory → Option ℕ
unfolding length
size s m = length s m

unfoldable pub is_empty : String8 → Memory → Option Bool
unfolding length
is_empty s m = map_some (λ n. n == 0) (length s m)

unfoldable pub count_bytes : String8 → Memory → Option ℕ
unfolding size_from_data
count_bytes s m = map_some (λ n. (n + (2 ^ 32 - 1)) % 2 ^ 32) (size_from_data s.string m)

-- The sign of a result of `strcmp`.
pub data Sign : Type 0 where
  negative : Sign
  zero_sign : Sign
  positive : Sign

abbrev pub sign_of : ℕ → ℕ → Sign
sign_of a b = if ltb a b then negative else positive

-- After two bytes that may be there, with the result of the rest.
abbrev pub compared : Option ℕ → Option ℕ → Option Sign → Option Sign
compared none b rest = none
compared (some a) none rest = none
compared (some a) (some b) rest =
    if a == b then (if a == 0 then some zero_sign else rest) else some (sign_of a b)

abbrev pub strcmp : ℕ → Address → Address → Memory → Option Sign
strcmp zero p q m = none
strcmp (suc fuel) p q m =
    let rest = strcmp fuel (p + 1) (q + 1) m in compared (m.bytes p) (m.bytes q) rest

abbrev pub is_negative : Sign → Bool
is_negative negative = true
is_negative zero_sign = false
is_negative positive = false

abbrev pub is_zero : Sign → Bool
is_zero negative = false
is_zero zero_sign = true
is_zero positive = false

abbrev pub is_positive : Sign → Bool
is_positive negative = false
is_positive zero_sign = false
is_positive positive = true

module _ (fuel : ℕ) where
  unfoldable pub compare : String8 → String8 → Memory → Option Sign
  compare s t m = strcmp fuel s.string t.string m

  unfoldable pub compare_type : String8 → String8 → Memory → Option Sign
  unfolding compare
  compare_type lhs rhs m = compare lhs rhs m

  unfoldable pub strictly_order_type : String8 → String8 → Memory → Option Bool
  unfolding compare_type
  strictly_order_type lhs rhs m = map_some is_negative (compare_type lhs rhs m)

  unfoldable pub less : String8 → String8 → Memory → Option Bool
  less s t m = map_some is_negative (strcmp fuel s.string t.string m)

  unfoldable pub at_most : String8 → String8 → Memory → Option Bool
  at_most s t m = map_some (λ c. not (is_positive c)) (strcmp fuel s.string t.string m)

  unfoldable pub equals : String8 → String8 → Memory → Option Bool
  equals s t m = map_some is_zero (strcmp fuel s.string t.string m)

  unfoldable pub differs : String8 → String8 → Memory → Option Bool
  differs s t m = map_some (λ c. not (is_zero c)) (strcmp fuel s.string t.string m)

  unfoldable pub at_least : String8 → String8 → Memory → Option Bool
  at_least s t m = map_some (λ c. not (is_negative c)) (strcmp fuel s.string t.string m)

  unfoldable pub greater : String8 → String8 → Memory → Option Bool
  greater s t m = map_some is_positive (strcmp fuel s.string t.string m)

  -- The operators on the text at a pointer.
  unfoldable pub less_chars : String8 → Address → Memory → Option Bool
  less_chars s p m = map_some is_negative (strcmp fuel s.string p m)

  unfoldable pub at_most_chars : String8 → Address → Memory → Option Bool
  at_most_chars s p m = map_some (λ c. not (is_positive c)) (strcmp fuel s.string p m)

  unfoldable pub equals_chars : String8 → Address → Memory → Option Bool
  equals_chars s p m = map_some is_zero (strcmp fuel s.string p m)

  unfoldable pub differs_chars : String8 → Address → Memory → Option Bool
  differs_chars s p m = map_some (λ c. not (is_zero c)) (strcmp fuel s.string p m)

  unfoldable pub at_least_chars : String8 → Address → Memory → Option Bool
  at_least_chars s p m = map_some (λ c. not (is_negative c)) (strcmp fuel s.string p m)

  unfoldable pub greater_chars : String8 → Address → Memory → Option Bool
  greater_chars s p m = map_some is_positive (strcmp fuel s.string p m)
