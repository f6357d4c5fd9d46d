-- ===== src/Audio/Formats.antt =====
-- `audio_format_pcm_sub_fmt_t` and `audio_format_t` (RS485/tl/native_client/jni/system/audio.h).
use qf.Prelude.{ℕ, ◌|||◌}

abbrev pub format_pcm_sub_16_bit : ℕ
format_pcm_sub_16_bit = 0x1

abbrev pub format_pcm_sub_8_bit : ℕ
format_pcm_sub_8_bit = 0x2

abbrev pub format_pcm_sub_32_bit : ℕ
format_pcm_sub_32_bit = 0x3

abbrev pub format_pcm_sub_8_24_bit : ℕ
format_pcm_sub_8_24_bit = 0x4

abbrev pub format_invalid : ℕ
format_invalid = 0xffffffff

abbrev pub format_default : ℕ
format_default = 0

abbrev pub format_pcm : ℕ
format_pcm = 0x00000000

abbrev pub format_mp3 : ℕ
format_mp3 = 0x01000000

abbrev pub format_amr_nb : ℕ
format_amr_nb = 0x02000000

abbrev pub format_amr_wb : ℕ
format_amr_wb = 0x03000000

abbrev pub format_aac : ℕ
format_aac = 0x04000000

abbrev pub format_he_aac_v1 : ℕ
format_he_aac_v1 = 0x05000000

abbrev pub format_he_aac_v2 : ℕ
format_he_aac_v2 = 0x06000000

abbrev pub format_vorbis : ℕ
format_vorbis = 0x07000000

abbrev pub format_main_mask : ℕ
format_main_mask = 0xff000000

abbrev pub format_sub_mask : ℕ
format_sub_mask = 0x00ffffff

abbrev pub format_pcm_16_bit : ℕ
format_pcm_16_bit = format_pcm ||| format_pcm_sub_16_bit

abbrev pub format_pcm_8_bit : ℕ
format_pcm_8_bit = format_pcm ||| format_pcm_sub_8_bit

abbrev pub format_pcm_32_bit : ℕ
format_pcm_32_bit = format_pcm ||| format_pcm_sub_32_bit

abbrev pub format_pcm_8_24_bit : ℕ
format_pcm_8_24_bit = format_pcm ||| format_pcm_sub_8_24_bit
