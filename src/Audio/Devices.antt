-- ===== src/Audio/Devices.antt =====
-- The device bits of the enumeration before `audio_devices_t` (RS485/tl/native_client/jni/system/audio.h).
use qf.Prelude.{ℕ, ◌|||◌}

abbrev pub device_none : ℕ
device_none = 0x0

abbrev pub device_bit_in : ℕ
device_bit_in = 0x80000000

abbrev pub device_bit_default : ℕ
device_bit_default = 0x40000000

abbrev pub device_out_earpiece : ℕ
device_out_earpiece = 0x1

abbrev pub device_out_speaker : ℕ
device_out_speaker = 0x2

abbrev pub device_out_wired_headset : ℕ
device_out_wired_headset = 0x4

abbrev pub device_out_wired_headphone : ℕ
device_out_wired_headphone = 0x8

abbrev pub device_out_bluetooth_sco : ℕ
device_out_bluetooth_sco = 0x10

abbrev pub device_out_bluetooth_sco_headset : ℕ
device_out_bluetooth_sco_headset = 0x20

abbrev pub device_out_bluetooth_sco_carkit : ℕ
device_out_bluetooth_sco_carkit = 0x40

abbrev pub device_out_bluetooth_a2dp : ℕ
device_out_bluetooth_a2dp = 0x80

abbrev pub device_out_bluetooth_a2dp_headphones : ℕ
device_out_bluetooth_a2dp_headphones = 0x100

abbrev pub device_out_bluetooth_a2dp_speaker : ℕ
device_out_bluetooth_a2dp_speaker = 0x200

abbrev pub device_out_aux_digital : ℕ
device_out_aux_digital = 0x400

abbrev pub device_out_anlg_dock_headset : ℕ
device_out_anlg_dock_headset = 0x800

abbrev pub device_out_dgtl_dock_headset : ℕ
device_out_dgtl_dock_headset = 0x1000

abbrev pub device_out_usb_accessory : ℕ
device_out_usb_accessory = 0x2000

abbrev pub device_out_usb_device : ℕ
device_out_usb_device = 0x4000

abbrev pub device_out_remote_submix : ℕ
device_out_remote_submix = 0x8000

abbrev pub device_out_default : ℕ
device_out_default = device_bit_default

abbrev pub device_out_widi : ℕ
device_out_widi = 0x1000000

abbrev pub device_out_all : ℕ
device_out_all =
    device_out_earpiece ||| device_out_speaker ||| device_out_wired_headset
    ||| device_out_wired_headphone ||| device_out_bluetooth_sco ||| device_out_bluetooth_sco_headset
    ||| device_out_bluetooth_sco_carkit ||| device_out_bluetooth_a2dp
    ||| device_out_bluetooth_a2dp_headphones ||| device_out_bluetooth_a2dp_speaker
    ||| device_out_aux_digital ||| device_out_anlg_dock_headset ||| device_out_dgtl_dock_headset
    ||| device_out_usb_accessory ||| device_out_usb_device ||| device_out_remote_submix
    ||| device_out_default

abbrev pub device_out_all_a2dp : ℕ
device_out_all_a2dp =
    device_out_bluetooth_a2dp ||| device_out_bluetooth_a2dp_headphones
    ||| device_out_bluetooth_a2dp_speaker

abbrev pub device_out_all_sco : ℕ
device_out_all_sco =
    device_out_bluetooth_sco ||| device_out_bluetooth_sco_headset
    ||| device_out_bluetooth_sco_carkit

abbrev pub device_out_all_usb : ℕ
device_out_all_usb = device_out_usb_accessory ||| device_out_usb_device

abbrev pub device_in_communication : ℕ
device_in_communication = device_bit_in ||| 0x1

abbrev pub device_in_ambient : ℕ
device_in_ambient = device_bit_in ||| 0x2

abbrev pub device_in_builtin_mic : ℕ
device_in_builtin_mic = device_bit_in ||| 0x4

abbrev pub device_in_bluetooth_sco_headset : ℕ
device_in_bluetooth_sco_headset = device_bit_in ||| 0x8

abbrev pub device_in_wired_headset : ℕ
device_in_wired_headset = device_bit_in ||| 0x10

abbrev pub device_in_aux_digital : ℕ
device_in_aux_digital = device_bit_in ||| 0x20

abbrev pub device_in_voice_call : ℕ
device_in_voice_call = device_bit_in ||| 0x40

abbrev pub device_in_back_mic : ℕ
device_in_back_mic = device_bit_in ||| 0x80

abbrev pub device_in_remote_submix : ℕ
device_in_remote_submix = device_bit_in ||| 0x100

abbrev pub device_in_anlg_dock_headset : ℕ
device_in_anlg_dock_headset = device_bit_in ||| 0x200

abbrev pub device_in_dgtl_dock_headset : ℕ
device_in_dgtl_dock_headset = device_bit_in ||| 0x400

abbrev pub device_in_usb_accessory : ℕ
device_in_usb_accessory = device_bit_in ||| 0x800

abbrev pub device_in_usb_device : ℕ
device_in_usb_device = device_bit_in ||| 0x1000

abbrev pub device_in_default : ℕ
device_in_default = device_bit_in ||| device_bit_default

abbrev pub device_in_all : ℕ
device_in_all =
    device_in_communication ||| device_in_ambient ||| device_in_builtin_mic
    ||| device_in_bluetooth_sco_headset ||| device_in_wired_headset ||| device_in_aux_digital
    ||| device_in_voice_call ||| device_in_back_mic ||| device_in_remote_submix
    ||| device_in_anlg_dock_headset ||| device_in_dgtl_dock_headset ||| device_in_usb_accessory
    ||| device_in_usb_device ||| device_in_default

abbrev pub device_in_all_sco : ℕ
device_in_all_sco = device_in_bluetooth_sco_headset

abbrev pub device_out_remote_bgm_sink : ℕ
device_out_remote_bgm_sink = device_out_widi ||| device_out_remote_submix
