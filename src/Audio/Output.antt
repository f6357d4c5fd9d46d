-- ===== src/Audio/Output.antt =====
-- Which words `audio_is_output_device`, `audio_is_a2dp_device` and `audio_is_usb_device` of
-- RS485/tl/native_client/jni/system/audio.h accept.
use qf.Prelude.{ℕ, ◌^◌, ◌<◌, ◌≡◌, refl, arith, List, [], ◌∷◌}
use qf.Bits.Table.{elem, all_of, holds_below, eq_of_single_bits, elem-false}
use qf.Audio.Devices.{
  device_out_earpiece, device_out_speaker, device_out_wired_headset, device_out_wired_headphone,
  device_out_bluetooth_sco, device_out_bluetooth_sco_headset, device_out_bluetooth_sco_carkit,
  device_out_bluetooth_a2dp, device_out_bluetooth_a2dp_headphones,
  device_out_bluetooth_a2dp_speaker, device_out_aux_digital, device_out_anlg_dock_headset,
  device_out_dgtl_dock_headset, device_out_usb_accessory, device_out_usb_device,
  device_out_remote_submix, device_out_default,
}
use qf.Audio.Kinds.{is_output_device, is_a2dp_device, is_usb_device}

-- The single output devices, one by one.
abbrev pub output_devices : List ℕ
output_devices =
    device_out_earpiece ∷ device_out_speaker ∷ device_out_wired_headset ∷ device_out_wired_headphone
    ∷ device_out_bluetooth_sco ∷ device_out_bluetooth_sco_headset ∷ device_out_bluetooth_sco_carkit
    ∷ device_out_bluetooth_a2dp ∷ device_out_bluetooth_a2dp_headphones
    ∷ device_out_bluetooth_a2dp_speaker ∷ device_out_aux_digital ∷ device_out_anlg_dock_headset
    ∷ device_out_dgtl_dock_headset ∷ device_out_usb_accessory ∷ device_out_usb_device
    ∷ device_out_remote_submix ∷ device_out_default ∷ []

abbrev pub a2dp_devices : List ℕ
a2dp_devices =
    device_out_bluetooth_a2dp ∷ device_out_bluetooth_a2dp_headphones
    ∷ device_out_bluetooth_a2dp_speaker ∷ []

abbrev pub usb_devices : List ℕ
usb_devices = device_out_usb_accessory ∷ device_out_usb_device ∷ []

-- A 32-bit word is an output device for the code exactly when it is one of the seventeen listed
-- output devices.
pub is_output_device-elem : (d : ℕ) → d < 2 ^ 32 → is_output_device d ≡ elem d output_devices
unfolding is_output_device elem all_of holds_below
is_output_device-elem =
    eq_of_single_bits 32 32 is_output_device (λ d. elem d output_devices) (omega arith)
      (λ d h. ground arith) (λ d. elem-false 32 output_devices d refl) refl

-- A 32-bit word is an A2DP device for the code exactly when it is one of the three A2DP outputs.
pub is_a2dp_device-elem : (d : ℕ) → d < 2 ^ 32 → is_a2dp_device d ≡ elem d a2dp_devices
unfolding is_a2dp_device elem all_of holds_below
is_a2dp_device-elem =
    eq_of_single_bits 32 32 is_a2dp_device (λ d. elem d a2dp_devices) (omega arith)
      (λ d h. ground arith) (λ d. elem-false 32 a2dp_devices d refl) refl

-- A 32-bit word is a USB device for the code exactly when it is one of the two USB outputs.
pub is_usb_device-elem : (d : ℕ) → d < 2 ^ 32 → is_usb_device d ≡ elem d usb_devices
unfolding is_usb_device elem all_of holds_below
is_usb_device-elem =
    eq_of_single_bits 32 32 is_usb_device (λ d. elem d usb_devices) (omega arith)
      (λ d h. ground arith) (λ d. elem-false 32 usb_devices d refl) refl
