-- ===== src/HashChain/Tests.antt =====
-- The chains of RS485/tl/native_client/jni/utils/BasicHashtable.h on concrete hash codes.
use qf.Prelude.{◌+◌, ◌*◌, ◌%◌, ◌^◌, ◌≡◌, refl, arith, false}
use qf.HashChain.{trim_hash, collision, present, bucket_at, has_more_room}
use qf.HashChain.Probe.{seek_times, seek_times-chain}

seek_times-chain_example : (seek_times 4 3 7 11 ≡ (3 + 4 * 7) % 11) × (seek_times 11 3 7 11 ≡ 3)
seek_times-chain_example = seek_times-chain 4 3 7 11 (omega arith) (omega arith) (omega arith)

trim_run : trim_hash 0xc0000005 ≡ 6
unfolding trim_hash
trim_run = refl

room_run : has_more_room 3 3 ≡ false
unfolding has_more_room
room_run = refl

offset_run : bucket_at 12 5 ≡ 60
unfolding bucket_at
offset_run = refl

flags_run : (collision + present) % 2 ^ 30 ≡ 0
flags_run = refl
