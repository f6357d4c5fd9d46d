-- ===== src/HashChain.antt =====
-- The inline arithmetic of `BasicHashtable` in RS485/tl/native_client/jni/utils/BasicHashtable.h: how a
-- hash code is stored, and which buckets it may be in. Hash codes and sizes are 32-bit words.
pub mod Probe
pub mod Tests
use Prim.Native.Nat.{bit_xor}
use qf.Prelude.{ℕ, ◌+◌, ◌-◌, ◌*◌, ◌/◌, ◌%◌, ◌^◌, ◌&&&◌, ◌|||◌, ◌<<<◌, ◌>>>◌, Bool, ltb}

-- The flags of a cookie, and the mask of the hash code in it.
abbrev pub collision : ℕ
collision = 0x80000000

abbrev pub present : ℕ
present = 0x40000000

abbrev pub hash_mask : ℕ
hash_mask = 0x3fffffff

unfoldable pub trim_hash : ℕ → ℕ
trim_hash hash = bit_xor (hash &&& hash_mask) (hash >>> 30)

unfoldable pub chain_start : ℕ → ℕ → ℕ
chain_start hash count = hash % count

unfoldable pub chain_increment : ℕ → ℕ → ℕ
chain_increment hash count = ((hash >>> 7) ||| ((hash <<< 25) % 2 ^ 32)) % (count - 1) + 1

unfoldable pub chain_seek : ℕ → ℕ → ℕ → ℕ
chain_seek index increment count = (index + increment) % 2 ^ 32 % count

-- `bucketAt`: the offset of a bucket from the start of the array, in bytes.
unfoldable pub bucket_at : ℕ → ℕ → ℕ
bucket_at bucket_size index = (index * bucket_size) % 2 ^ 32

unfoldable pub has_more_room : ℕ → ℕ → Bool
has_more_room m_capacity m_filled_buckets = ltb m_filled_buckets m_capacity
