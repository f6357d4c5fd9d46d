-- ===== src/BitSet.antt =====
-- `BitSet32` of RS485/tl/native_client/jni/utils/BitSet.h. Bit 0 is the most significant one. The
-- methods that change the set return the new set; a shift by 32 or more, and the count of zeros of
-- the word 0, are undefined in the code, and the theorems do not speak of them.
pub mod Members
pub mod Search
pub mod Index
pub mod Tests
use qf.Prelude.{
  ℕ, zero, suc, ◌+◌, ◌-◌, ◌/◌, ◌%◌, ◌^◌, ◌<◌, Bool, true, false, ◌==◌, ◌!=◌, if◌then◌else◌, ◌&&&◌,
  ◌|||◌, ◌>>>◌,
}
use qf.Bits.Digit.{bit}
use qf.Bits.Word.{complement}
use qf.Bits.Count.{ones}
use qf.Bits.Scan.{clz, ctz}

pub record BitSet32 : Type 0 where
  pub value : ℕ

abbrev pub bit_set : ℕ → BitSet32
bit_set value = record { value = value }

abbrev pub empty : BitSet32
empty = bit_set 0

unfoldable pub value_for_bit : ℕ → ℕ
value_for_bit n = 0x80000000 >>> n

unfoldable pub clear : BitSet32 → BitSet32
clear s = record s { value = 0 }

unfoldable pub count : BitSet32 → ℕ
unfolding ones
count s = ones 32 s.value

unfoldable pub is_empty : BitSet32 → Bool
is_empty s = s.value == 0

unfoldable pub is_full : BitSet32 → Bool
is_full s = s.value == 0xffffffff

unfoldable pub has_bit : BitSet32 → ℕ → Bool
has_bit s n = (s.value &&& value_for_bit n) != 0

unfoldable pub mark_bit : BitSet32 → ℕ → BitSet32
mark_bit s n = record s { value = s.value ||| value_for_bit n }

unfoldable pub clear_bit : BitSet32 → ℕ → BitSet32
clear_bit s n = record s { value = s.value &&& complement 32 (value_for_bit n) }

unfoldable pub first_marked_bit : BitSet32 → ℕ
unfolding clz bit
first_marked_bit s = clz 32 s.value

unfoldable pub first_unmarked_bit : BitSet32 → ℕ
unfolding clz bit
first_unmarked_bit s = clz 32 (complement 32 s.value)

unfoldable pub last_marked_bit : BitSet32 → ℕ
unfolding ctz
last_marked_bit s = 31 - ctz 32 s.value

unfoldable pub clear_first_marked_bit : BitSet32 → ℕ × BitSet32
unfolding first_marked_bit clear_bit
clear_first_marked_bit s = let n = first_marked_bit s in (n, clear_bit s n)

unfoldable pub mark_first_unmarked_bit : BitSet32 → ℕ × BitSet32
unfolding first_unmarked_bit mark_bit
mark_first_unmarked_bit s = let n = first_unmarked_bit s in (n, mark_bit s n)

unfoldable pub clear_last_marked_bit : BitSet32 → ℕ × BitSet32
unfolding last_marked_bit clear_bit
clear_last_marked_bit s = let n = last_marked_bit s in (n, clear_bit s n)

unfoldable pub get_index_of_bit : BitSet32 → ℕ → ℕ
get_index_of_bit s n = ones 32 (s.value &&& complement 32 (0xffffffff >>> n))

-- `operator==`, `operator!=`, `operator&` and `operator|`; `&=` and `|=` assign what these return.
unfoldable pub equals : BitSet32 → BitSet32 → Bool
equals s t = s.value == t.value

unfoldable pub differs : BitSet32 → BitSet32 → Bool
differs s t = s.value != t.value

unfoldable pub intersect : BitSet32 → BitSet32 → BitSet32
intersect s t = bit_set (s.value &&& t.value)

unfoldable pub unite : BitSet32 → BitSet32 → BitSet32
unite s t = bit_set (s.value ||| t.value)

-- `value` is a 32-bit word.
abbrev pub IsWord : BitSet32 → Type 0
IsWord s = s.value < 2 ^ 32
