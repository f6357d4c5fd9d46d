-- ===== src/Audio/Encoding.antt =====
-- Sample formats and the version word of RS485/tl/native_client/jni/system/audio.h.
use qf.Prelude.{
  ℕ, ◌*◌, ◌%◌, ◌/◌, ◌^◌, ◌<◌, ◌≤◌, ◌≡◌, arith, true, ◌==◌, ◌!=◌, ◌&&◌, ◌||◌, leb, ltb, ◌&&&◌,
}
use qf.Bits.Word.{bit_and-low_mask}
use qf.Bits.Split.{bit_and_fields, bit_and_of_zero, bit_or_fields}
use qf.Audio.Formats.{format_main_mask}
use qf.Audio.Kinds.{is_valid_format, is_linear_pcm, bytes_per_sample, make_offload_info_version}

-- The main format is the top byte.
main_format : (f : ℕ) → f < 2 ^ 32 → f &&& format_main_mask ≡ f / 2 ^ 24 * 2 ^ 24
main_format f h = omega (
  arith,
  bit_and_fields 24 f 0xff 0 (omega arith),
  bit_and-low_mask 8 (f / 2 ^ 24),
  bit_and_of_zero (f % 2 ^ 24),
)

-- A 32-bit word is a valid format for the code exactly when it is 16-bit PCM or 8-bit PCM, or its
-- main format is one of the seven compressed ones, whatever the sub format.
pub is_valid_format_lem :
    (f : ℕ)
    → f < 2 ^ 32
    → is_valid_format f ≡ (f == 1 || f == 2 || (ltb 0 (f / 2 ^ 24) && leb (f / 2 ^ 24) 7))
unfolding is_valid_format
is_valid_format_lem f h = rw (main_format f h) (ground arith)

-- A 32-bit format that the code takes as valid is linear PCM exactly when it has a sample size,
-- and that size is then one or two bytes.
pub valid_linear_pcm :
    (f : ℕ)
    → f < 2 ^ 32
    → is_valid_format f ≡ true
    → (is_linear_pcm f ≡ (bytes_per_sample f != 0)) × (bytes_per_sample f ≤ 2)
unfolding is_linear_pcm bytes_per_sample
valid_linear_pcm f h valid = rw (main_format f h) (ground (arith, is_valid_format_lem f h))

-- The version word keeps both bytes: the upper byte is the low byte of the major number, the
-- lower byte that of the minor number.
pub make_offload_info_version_bytes :
    (maj min : ℕ)
    → (make_offload_info_version maj min / 2 ^ 8 ≡ maj % 2 ^ 8)
      × (make_offload_info_version maj min % 2 ^ 8 ≡ min % 2 ^ 8)
unfolding make_offload_info_version
make_offload_info_version_bytes maj min =
    rw
      (
        bit_and-low_mask 8 maj,
        bit_and-low_mask 8 min,
        bit_or_fields 8 (maj % 2 ^ 8) (min % 2 ^ 8) (omega arith),
      )
      (omega arith, omega arith)
