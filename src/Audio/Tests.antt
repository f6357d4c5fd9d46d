-- ===== src/Audio/Tests.antt =====
-- The audio predicates at concrete words.
use qf.Prelude.{◌%◌, ◌^◌, ◌≡◌}
use qf.Bits.Table.{elem}
use qf.Audio.Kinds.{is_bluetooth_sco_device}
use qf.Audio.Input.{sco_rests, is_bluetooth_sco_device-elem}

is_bluetooth_sco_device-elem_example :
    is_bluetooth_sco_device 0x80000008 ≡ elem (0x80000008 % 2 ^ 31) sco_rests
is_bluetooth_sco_device-elem_example = is_bluetooth_sco_device-elem 0x80000008
