-- ===== src/Audio/Masks.antt =====
-- Channel masks and the remote submix test of RS485/tl/native_client/jni/system/audio.h.
use qf.Prelude.{
  ℕ, ◌+◌, ◌*◌, ◌%◌, ◌/◌, ◌^◌, ◌<◌, ◌≤◌, ◌≡◌, ◌⊎◌, refl, arith, Bool, true, ◌==◌, ◌!=◌, ◌&&◌, ◌||◌,
  if◌then◌else◌, ltb, ◌&&&◌,
}
use qf.Bits.Digit.{bit, bit-lt}
use qf.Bits.Word.{complement, bit-mod, bit_and-low_mask, bit_and-two_pow}
use qf.Bits.Split.{bit_and_fields, bit_and_of_zero}
use qf.Bits.Table.{holds_below, holds_below_at}
use qf.Bitops.{popcount}
use qf.Audio.Devices.{device_in_remote_submix}
use qf.Audio.Channels.{channel_in_all, channel_out_all}
use qf.Audio.Kinds.{
  is_remote_submix_device, is_input_channel, is_output_channel, out_mask_from_count,
  in_mask_from_count,
}

-- What the masks of the two tests leave.
beyond_outputs : (c : ℕ) → c < 2 ^ 32 → c &&& complement 32 channel_out_all ≡ c / 2 ^ 18 * 2 ^ 18
unfolding complement
beyond_outputs c h = omega (
  arith,
  bit_and_fields 18 c 0x3fff 0 (omega arith),
  bit_and-low_mask 14 (c / 2 ^ 18),
  bit_and_of_zero (c % 2 ^ 18),
)

beyond_inputs :
    (c : ℕ) → c < 2 ^ 32 → c &&& complement 32 channel_in_all ≡ c / 2 ^ 16 * 2 ^ 16 + c % 4
unfolding complement
beyond_inputs c h = omega (
  arith,
  bit_and_fields 16 c 0xffff 3 (omega arith),
  bit_and-low_mask 16 (c / 2 ^ 16),
  bit_and-low_mask 2 (c % 2 ^ 16),
)

-- A 32-bit word is an output channel mask for the code exactly when it is not zero and has no bit
-- beyond the eighteen defined positions.
pub is_output_channel-range :
    (c : ℕ) → c < 2 ^ 32 → is_output_channel c ≡ (c != 0 && ltb c (2 ^ 18))
unfolding is_output_channel
is_output_channel-range c h = rw (beyond_outputs c h) (ground arith)

-- A 32-bit word is an input channel mask for the code exactly when it is not zero, has no bit
-- beyond the sixteenth and neither of the two lowest bits.
pub is_input_channel-range :
    (c : ℕ) → c < 2 ^ 32 → is_input_channel c ≡ (c != 0 && ltb c (2 ^ 16) && c % 4 == 0)
unfolding is_input_channel
is_input_channel-range c h = rw (beyond_inputs c h) (ground arith)

abbrev output_count_fits : ℕ → Bool
output_count_fits n =
    n == 0 || ((popcount (out_mask_from_count n) == n) && is_output_channel (out_mask_from_count n))

abbrev input_count_fits : ℕ → Bool
input_count_fits n =
    n == 0 || ((popcount (in_mask_from_count n) == n) && is_input_channel (in_mask_from_count n))

output_counts : holds_below 9 output_count_fits ≡ true
unfolding holds_below popcount out_mask_from_count is_output_channel
output_counts = refl

input_counts : holds_below 3 input_count_fits ≡ true
unfolding holds_below popcount in_mask_from_count is_input_channel
input_counts = refl

fits_of_table :
    (n m : ℕ) (b : Bool) → 1 ≤ n → (n == 0 || ((m == n) && b)) ≡ true → (m ≡ n) × (b ≡ true)
fits_of_table n m b h t = ground arith

-- For every count from 1 to 8 the derived output mask is an output channel mask with as many
-- channels; for any other count it is 0.
pub out_mask_from_count_lem :
    (n : ℕ)
    → (1 ≤ n
        → n ≤ 8
        → (popcount (out_mask_from_count n) ≡ n)
          × (is_output_channel (out_mask_from_count n) ≡ true))
      × (8 < n ⊎ (n ≡ 0) → out_mask_from_count n ≡ 0)
out_mask_from_count_lem n = (
  λ low high.
      fits_of_table n _ _ low (holds_below_at 9 output_count_fits n output_counts (omega arith)),
  λ out. unfold out_mask_from_count in ground arith,
)

-- For a count of one or two the derived input mask is an input channel mask with as many channels;
-- for any other count it is 0.
pub in_mask_from_count_lem :
    (n : ℕ)
    → (1 ≤ n
        → n ≤ 2
        → (popcount (in_mask_from_count n) ≡ n) × (is_input_channel (in_mask_from_count n) ≡ true))
      × (2 < n ⊎ (n ≡ 0) → in_mask_from_count n ≡ 0)
in_mask_from_count_lem n = (
  λ low high.
      fits_of_table n _ _ low (holds_below_at 3 input_count_fits n input_counts (omega arith)),
  λ out. unfold in_mask_from_count in ground arith,
)

input_submix_bits :
    (d : ℕ)
    → d < 2 ^ 32
    → d &&& device_in_remote_submix ≡ bit d 31 * 2 ^ 31 + (if bit d 8 == 1 then 2 ^ 8 else 0)
input_submix_bits d h =
    let top : bit d 31 ≡ d / 2 ^ 31 = unfold bit in omega arith in
    ground (
      arith,
      top,
      bit_and_fields 31 d 1 0x100 (omega arith),
      bit_and-low_mask 1 (d / 2 ^ 31),
      bit_and-two_pow (d % 2 ^ 31) 8,
      bit-mod 31 d 8,
    )

-- A 32-bit word is a remote submix device for the code exactly when it has the output submix bit,
-- or both the input bit and the input submix bit, whatever else is set.
pub is_remote_submix_device-bits :
    (d : ℕ)
    → d < 2 ^ 32
    → is_remote_submix_device d ≡ ((bit d 15 == 1) || ((bit d 31 == 1) && (bit d 8 == 1)))
unfolding is_remote_submix_device
is_remote_submix_device-bits d h =
    ground (arith, input_submix_bits d h, bit_and-two_pow d 15, bit-lt d 31)
