-- ===== src/Audio/Channels.antt =====
-- The channel bits of the enumeration before `audio_channel_mask_t` (RS485/tl/native_client/jni/system/audio.h).
use qf.Prelude.{ℕ, ◌|||◌}

abbrev pub channel_out_front_left : ℕ
channel_out_front_left = 0x1

abbrev pub channel_out_front_right : ℕ
channel_out_front_right = 0x2

abbrev pub channel_out_front_center : ℕ
channel_out_front_center = 0x4

abbrev pub channel_out_low_frequency : ℕ
channel_out_low_frequency = 0x8

abbrev pub channel_out_back_left : ℕ
channel_out_back_left = 0x10

abbrev pub channel_out_back_right : ℕ
channel_out_back_right = 0x20

abbrev pub channel_out_front_left_of_center : ℕ
channel_out_front_left_of_center = 0x40

abbrev pub channel_out_front_right_of_center : ℕ
channel_out_front_right_of_center = 0x80

abbrev pub channel_out_back_center : ℕ
channel_out_back_center = 0x100

abbrev pub channel_out_side_left : ℕ
channel_out_side_left = 0x200

abbrev pub channel_out_side_right : ℕ
channel_out_side_right = 0x400

abbrev pub channel_out_top_center : ℕ
channel_out_top_center = 0x800

abbrev pub channel_out_top_front_left : ℕ
channel_out_top_front_left = 0x1000

abbrev pub channel_out_top_front_center : ℕ
channel_out_top_front_center = 0x2000

abbrev pub channel_out_top_front_right : ℕ
channel_out_top_front_right = 0x4000

abbrev pub channel_out_top_back_left : ℕ
channel_out_top_back_left = 0x8000

abbrev pub channel_out_top_back_center : ℕ
channel_out_top_back_center = 0x10000

abbrev pub channel_out_top_back_right : ℕ
channel_out_top_back_right = 0x20000

abbrev pub channel_out_mono : ℕ
channel_out_mono = channel_out_front_left

abbrev pub channel_out_stereo : ℕ
channel_out_stereo = channel_out_front_left ||| channel_out_front_right

abbrev pub channel_out_quad : ℕ
channel_out_quad =
    channel_out_front_left ||| channel_out_front_right ||| channel_out_back_left
    ||| channel_out_back_right

abbrev pub channel_out_surround : ℕ
channel_out_surround =
    channel_out_front_left ||| channel_out_front_right ||| channel_out_front_center
    ||| channel_out_back_center

abbrev pub channel_out_5point1 : ℕ
channel_out_5point1 =
    channel_out_front_left ||| channel_out_front_right ||| channel_out_front_center
    ||| channel_out_low_frequency ||| channel_out_back_left ||| channel_out_back_right

abbrev pub channel_out_7point1 : ℕ
channel_out_7point1 =
    channel_out_front_left ||| channel_out_front_right ||| channel_out_front_center
    ||| channel_out_low_frequency ||| channel_out_back_left ||| channel_out_back_right
    ||| channel_out_side_left ||| channel_out_side_right

abbrev pub channel_out_all : ℕ
channel_out_all =
    channel_out_front_left ||| channel_out_front_right ||| channel_out_front_center
    ||| channel_out_low_frequency ||| channel_out_back_left ||| channel_out_back_right
    ||| channel_out_front_left_of_center ||| channel_out_front_right_of_center
    ||| channel_out_back_center ||| channel_out_side_left ||| channel_out_side_right
    ||| channel_out_top_center ||| channel_out_top_front_left ||| channel_out_top_front_center
    ||| channel_out_top_front_right ||| channel_out_top_back_left ||| channel_out_top_back_center
    ||| channel_out_top_back_right

abbrev pub channel_in_left : ℕ
channel_in_left = 0x4

abbrev pub channel_in_right : ℕ
channel_in_right = 0x8

abbrev pub channel_in_front : ℕ
channel_in_front = 0x10

abbrev pub channel_in_back : ℕ
channel_in_back = 0x20

abbrev pub channel_in_left_processed : ℕ
channel_in_left_processed = 0x40

abbrev pub channel_in_right_processed : ℕ
channel_in_right_processed = 0x80

abbrev pub channel_in_front_processed : ℕ
channel_in_front_processed = 0x100

abbrev pub channel_in_back_processed : ℕ
channel_in_back_processed = 0x200

abbrev pub channel_in_pressure : ℕ
channel_in_pressure = 0x400

abbrev pub channel_in_x_axis : ℕ
channel_in_x_axis = 0x800

abbrev pub channel_in_y_axis : ℕ
channel_in_y_axis = 0x1000

abbrev pub channel_in_z_axis : ℕ
channel_in_z_axis = 0x2000

abbrev pub channel_in_voice_uplink : ℕ
channel_in_voice_uplink = 0x4000

abbrev pub channel_in_voice_dnlink : ℕ
channel_in_voice_dnlink = 0x8000

abbrev pub channel_in_mono : ℕ
channel_in_mono = channel_in_front

abbrev pub channel_in_stereo : ℕ
channel_in_stereo = channel_in_left ||| channel_in_right

abbrev pub channel_in_front_back : ℕ
channel_in_front_back = channel_in_front ||| channel_in_back

abbrev pub channel_in_all : ℕ
channel_in_all =
    channel_in_left ||| channel_in_right ||| channel_in_front ||| channel_in_back
    ||| channel_in_left_processed ||| channel_in_right_processed ||| channel_in_front_processed
    ||| channel_in_back_processed ||| channel_in_pressure ||| channel_in_x_axis
    ||| channel_in_y_axis ||| channel_in_z_axis ||| channel_in_voice_uplink
    ||| channel_in_voice_dnlink
