-- ===== src/Audio/Input.antt =====
-- Which words `audio_is_input_device` and `audio_is_bluetooth_sco_device` of
-- RS485/tl/native_client/jni/system/audio.h accept. Both drop the input bit first.
use qf.Prelude.{
  ℕ, ◌+◌, ◌%◌, ◌/◌, ◌^◌, ◌<◌, ◌≡◌, refl, arith, Bool, true, false, ◌==◌, ◌!=◌, ◌&&◌, List, [], ◌∷◌,
  if◌then◌else◌, leb, ltb, map, ◌&&&◌, ◌|||◌,
}
use qf.Bits.Digit.{bit}
use qf.Bits.Word.{complement, bit_and-low_mask, bit_and-two_pow}
use qf.Bits.Table.{elem, all_of, holds_below, eq_of_single_bits, elem-false}
use qf.Bitops.{popcount}
use qf.Audio.Devices.{
  device_bit_in, device_in_all, device_out_all_sco, device_in_bluetooth_sco_headset,
  device_in_communication, device_in_ambient, device_in_builtin_mic, device_in_wired_headset,
  device_in_aux_digital, device_in_voice_call, device_in_back_mic, device_in_remote_submix,
  device_in_anlg_dock_headset, device_in_dgtl_dock_headset, device_in_usb_accessory,
  device_in_usb_device, device_in_default, device_out_wired_headphone, device_out_bluetooth_sco,
  device_out_bluetooth_sco_headset, device_out_bluetooth_sco_carkit,
}
use qf.Audio.Kinds.{is_output_device, is_input_device, is_output_devices, is_bluetooth_sco_device}

-- The single input devices, one by one.
abbrev pub input_devices : List ℕ
input_devices =
    device_in_communication ∷ device_in_ambient ∷ device_in_builtin_mic
    ∷ device_in_bluetooth_sco_headset ∷ device_in_wired_headset ∷ device_in_aux_digital
    ∷ device_in_voice_call ∷ device_in_back_mic ∷ device_in_remote_submix
    ∷ device_in_anlg_dock_headset ∷ device_in_dgtl_dock_headset ∷ device_in_usb_accessory
    ∷ device_in_usb_device ∷ device_in_default ∷ []

-- What is left of an input device without the input bit.
abbrev low_inputs : List ℕ
low_inputs =
    0x1 ∷ 0x2 ∷ 0x4 ∷ 0x8 ∷ 0x10 ∷ 0x20 ∷ 0x40 ∷ 0x80 ∷ 0x100 ∷ 0x200 ∷ 0x400 ∷ 0x800 ∷ 0x1000
    ∷ 0x40000000 ∷ []

-- The test of the code on such a rest.
accepts_low : ℕ → Bool
unfolding popcount complement
accepts_low low =
    if (popcount low == 1) && ((low &&& complement 32 device_in_all) == 0) then true else false

accepts_low-elem : (low : ℕ) → low < 2 ^ 31 → accepts_low low ≡ elem low low_inputs
unfolding accepts_low elem all_of holds_below
accepts_low-elem =
    eq_of_single_bits 32 31 accepts_low (λ x. elem x low_inputs) (omega arith) (λ x h. ground arith)
      (λ x. elem-false 32 low_inputs x refl) refl

bit-div_31 : (d : ℕ) → d < 2 ^ 32 → bit d 31 ≡ d / 2 ^ 31
unfolding bit
bit-div_31 d h = omega arith

input_bit_set : (d : ℕ) → d < 2 ^ 32 → ((d &&& device_bit_in) != 0) ≡ leb (2 ^ 31) d
input_bit_set d h = rw (bit_and-two_pow d 31) (ground (arith, bit-div_31 d h))

-- What the test of the code comes to: the input bit, and the rest by itself.
is_input_device_lem :
    (d : ℕ)
    → d < 2 ^ 32
    → is_input_device d ≡ (if leb (2 ^ 31) d then accepts_low (d % 2 ^ 31) else false)
unfolding is_input_device accepts_low
is_input_device_lem d h = rw (input_bit_set d h, bit_and-low_mask 31 d)

-- A list of low words, each with the input bit added.
elem-map_add :
    (d : ℕ) (lows : List ℕ)
    → d < 2 ^ 32
    → all_of (λ y. ltb y (2 ^ 31)) lows ≡ true
    → elem d (map (λ y. 2 ^ 31 + y) lows) ≡ (leb (2 ^ 31) d && elem (d % 2 ^ 31) lows)
unfolding elem all_of
elem-map_add d [] h small = ground arith
elem-map_add d (y ∷ lows) h small = ground (arith, elem-map_add d lows h)

-- A 32-bit word is an input device for the code exactly when it is one of the fourteen listed
-- input devices.
pub is_input_device-elem : (d : ℕ) → d < 2 ^ 32 → is_input_device d ≡ elem d input_devices
is_input_device-elem d h =
    let shifted : elem d input_devices ≡ (leb (2 ^ 31) d && elem (d % 2 ^ 31) low_inputs) =
      elem-map_add d low_inputs h (unfold all_of in refl) in
    rw (is_input_device_lem d h, shifted)
      (ground (arith, accepts_low-elem (d % 2 ^ 31) (omega arith)))

-- The four words that the SCO test accepts once the input bit is dropped.
abbrev pub sco_rests : List ℕ
sco_rests =
    device_out_wired_headphone ∷ device_out_bluetooth_sco ∷ device_out_bluetooth_sco_headset
    ∷ device_out_bluetooth_sco_carkit ∷ []

accepts_sco : ℕ → Bool
unfolding popcount
accepts_sco low =
    if (popcount low == 1)
      && ((low &&& (device_out_all_sco ||| device_in_bluetooth_sco_headset)) != 0)
    then true
    else false

accepts_sco-elem : (low : ℕ) → low < 2 ^ 31 → accepts_sco low ≡ elem low sco_rests
unfolding accepts_sco elem all_of holds_below
accepts_sco-elem =
    eq_of_single_bits 32 31 accepts_sco (λ x. elem x sco_rests) (omega arith) (λ x h. ground arith)
      (λ x. elem-false 32 sco_rests x refl) refl

-- For every word, the SCO test of the code accepts exactly when the word without its input bit is
-- the wired headphone bit or one of the three SCO output bits.
pub is_bluetooth_sco_device-elem : (d : ℕ) → is_bluetooth_sco_device d ≡ elem (d % 2 ^ 31) sco_rests
unfolding is_bluetooth_sco_device accepts_sco
is_bluetooth_sco_device-elem d =
    rw (bit_and-low_mask 31 d) (accepts_sco-elem (d % 2 ^ 31) (omega arith))

-- No 32-bit word is both an input device and, by `audio_is_output_devices`, an output set; and
-- every single output device is an output set.
pub input_output_apart :
    (d : ℕ)
    → d < 2 ^ 32
    → (is_input_device d ≡ true → is_output_devices d ≡ false)
      × (is_output_device d ≡ true → is_output_devices d ≡ true)
unfolding is_input_device is_output_devices is_output_device
input_output_apart d h = ground arith
