-- ===== src/Audio/Kinds.antt =====
-- The predicates and conversions of RS485/tl/native_client/jni/system/audio.h, on 32-bit words.
-- `~ x` is the complement in 32 bits.
use qf.Prelude.{ℕ, ◌<<<◌, Bool, true, false, ◌&&◌, ◌||◌, ◌==◌, ◌!=◌, if◌then◌else◌, ◌&&&◌, ◌|||◌}
use qf.Bits.Word.{complement}
use qf.Bitops.{popcount}
use qf.Audio.Devices.{
  device_bit_in, device_out_all, device_out_all_a2dp, device_out_all_sco, device_out_all_usb,
  device_in_all, device_in_bluetooth_sco_headset, device_out_remote_submix, device_in_remote_submix,
}
use qf.Audio.Channels.{
  channel_in_all, channel_out_all, channel_out_mono, channel_out_stereo, channel_out_front_center,
  channel_out_quad, channel_out_5point1, channel_out_back_center, channel_out_7point1,
  channel_in_mono, channel_in_stereo,
}
use qf.Audio.Formats.{
  format_main_mask, format_pcm, format_pcm_16_bit, format_pcm_8_bit, format_pcm_32_bit,
  format_pcm_8_24_bit, format_mp3, format_amr_nb, format_amr_wb, format_aac, format_he_aac_v1,
  format_he_aac_v2, format_vorbis,
}

unfoldable pub is_output_device : ℕ → Bool
unfolding complement popcount
is_output_device device =
    if ((device &&& device_bit_in) == 0)
      && (popcount device == 1)
      && ((device &&& complement 32 device_out_all) == 0)
    then true
    else false

unfoldable pub is_input_device : ℕ → Bool
unfolding complement popcount
is_input_device device =
    if (device &&& device_bit_in) != 0
    then (let low = device &&& complement 32 device_bit_in in
        if (popcount low == 1) && ((low &&& complement 32 device_in_all) == 0) then true else false)
    else false

unfoldable pub is_output_devices : ℕ → Bool
is_output_devices device = (device &&& device_bit_in) == 0

unfoldable pub is_a2dp_device : ℕ → Bool
unfolding popcount
is_a2dp_device device =
    if (popcount device == 1) && ((device &&& device_out_all_a2dp) != 0) then true else false

unfoldable pub is_bluetooth_sco_device : ℕ → Bool
unfolding complement popcount
is_bluetooth_sco_device device =
    let low = device &&& complement 32 device_bit_in in
    if (popcount low == 1)
      && ((low &&& (device_out_all_sco ||| device_in_bluetooth_sco_headset)) != 0)
    then true
    else false

unfoldable pub is_usb_device : ℕ → Bool
unfolding popcount
is_usb_device device =
    if (popcount device == 1) && ((device &&& device_out_all_usb) != 0) then true else false

unfoldable pub is_remote_submix_device : ℕ → Bool
is_remote_submix_device device =
    if ((device &&& device_out_remote_submix) == device_out_remote_submix)
      || ((device &&& device_in_remote_submix) == device_in_remote_submix)
    then true
    else false

unfoldable pub is_input_channel : ℕ → Bool
unfolding complement
is_input_channel channel =
    if (channel &&& complement 32 channel_in_all) == 0 then channel != 0 else false

unfoldable pub is_output_channel : ℕ → Bool
unfolding complement
is_output_channel channel =
    if (channel &&& complement 32 channel_out_all) == 0 then channel != 0 else false

unfoldable pub out_mask_from_count : ℕ → ℕ
out_mask_from_count channel_count =
    if channel_count == 1
    then channel_out_mono
    else if channel_count == 2
    then channel_out_stereo
    else if channel_count == 3
    then channel_out_stereo ||| channel_out_front_center
    else if channel_count == 4
    then channel_out_quad
    else if channel_count == 5
    then channel_out_quad ||| channel_out_front_center
    else if channel_count == 6
    then channel_out_5point1
    else if channel_count == 7
    then channel_out_5point1 ||| channel_out_back_center
    else if channel_count == 8
    then channel_out_7point1
    else 0

unfoldable pub in_mask_from_count : ℕ → ℕ
in_mask_from_count channel_count =
    if channel_count == 1
    then channel_in_mono
    else if channel_count == 2
    then channel_in_stereo
    else 0

-- The `PCM` case falls through to `return true` unless its test returns.
unfoldable pub is_valid_format : ℕ → Bool
is_valid_format format =
    let main = format &&& format_main_mask in
    if main == format_pcm
    then (if (format != format_pcm_16_bit) && (format != format_pcm_8_bit) then false else true)
    else if (main == format_mp3)
        || (main == format_amr_nb)
        || (main == format_amr_wb)
        || (main == format_aac)
        || (main == format_he_aac_v1)
        || (main == format_he_aac_v2)
        || (main == format_vorbis)
    then true
    else false

unfoldable pub is_linear_pcm : ℕ → Bool
is_linear_pcm format = (format &&& format_main_mask) == format_pcm

-- `sizeof` of `int32_t`, `int16_t` and `uint8_t`.
unfoldable pub bytes_per_sample : ℕ → ℕ
bytes_per_sample format =
    if (format == format_pcm_32_bit) || (format == format_pcm_8_24_bit)
    then 4
    else if format == format_pcm_16_bit
    then 2
    else if format == format_pcm_8_bit
    then 1
    else 0

-- `AUDIO_MAKE_OFFLOAD_INFO_VERSION`.
unfoldable pub make_offload_info_version : ℕ → ℕ → ℕ
make_offload_info_version maj min = ((maj &&& 0xff) <<< 8) ||| (min &&& 0xff)
