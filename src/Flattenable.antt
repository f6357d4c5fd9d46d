-- ===== src/Flattenable.antt =====
-- `FlattenableUtils` and `LightFlattenablePod` of RS485/tl/native_client/jni/utils/Flattenable.h,
-- on the bytes of memory. Pointers and `size_t` are 32-bit words, as on the client's x86 target.
pub mod Align
pub mod Streams
pub mod Tests
use qf.Prelude.{ℕ, ◌+◌, ◌-◌, ◌%◌, ◌^◌, ◌<◌, ◌≡◌, Bool, ◌&&◌, ltb, leb, if◌then◌else◌, ◌&&&◌}
use qf.Bits.Word.{complement}

abbrev pub Memory : Type 0
Memory = ℕ → ℕ

-- A plain-old-data type: `sizeof`, and the bytes that an assignment stores and loads.
pub record Pod : Type 1 where
  pub Value : Type 0
  pub size_of : ℕ
  pub stored : Value → ℕ → ℕ
  pub loaded : (ℕ → ℕ) → Value

-- A load returns the value whose bytes are there.
pub record PodLaws (t : Pod) : Type 0 where
  pub loaded-stored :
      (v : t.Value) (bytes : ℕ → ℕ)
      → ((j : ℕ) → j < t.size_of → bytes j ≡ t.stored v j)
      → t.loaded bytes ≡ v

-- `buffer` and `size`, which the functions take by reference.
pub record Cursor : Type 0 where
  pub buffer : ℕ
  pub size : ℕ

-- `align<N>(size)`, for a power of two `n`.
unfoldable pub align_size : ℕ → ℕ → ℕ
unfolding complement
align_size n size = (size + (n - 1)) % 2 ^ 32 &&& complement 32 (n - 1)

-- `align<N>(buffer)`: the distance, and the new value of the pointer.
unfoldable pub align_buffer : ℕ → ℕ → ℕ × ℕ
unfolding complement
align_buffer n buffer =
    let buffer' = (buffer + (n - 1)) % 2 ^ 32 &&& complement 32 (n - 1) in
    ((buffer' + (2 ^ 32 - buffer)) % 2 ^ 32, buffer')

unfoldable pub advance : ℕ → Cursor → Cursor
advance offset c = record {
  buffer = (c.buffer + offset) % 2 ^ 32;
  size = (c.size + (2 ^ 32 - offset)) % 2 ^ 32;
}

-- `*p = value` and `*p`.
abbrev pub store : (t : Pod) → ℕ → t.Value → Memory → Memory
store t p value m a = if leb p a && ltb a (p + t.size_of) then t.stored value (a - p) else m a

abbrev pub load : (t : Pod) → ℕ → Memory → t.Value
load t p m = t.loaded (λ j. m (p + j))

module _ (t : Pod) where
  unfoldable pub write : t.Value → Cursor × Memory → Cursor × Memory
  unfolding advance
  write value (c, m) = (advance t.size_of c, store t c.buffer value m)

  unfoldable pub read : Cursor → Memory → t.Value × Cursor
  unfolding advance
  read c m = (load t c.buffer m, advance t.size_of c)

-- The two results of `LightFlattenablePod`.
pub data Status : Type 0 where
  no_error : Status
  no_memory : Status

module _ (t : Pod) where
  unfoldable pub flatten : t.Value → ℕ → ℕ → Memory → Status × Memory
  flatten value buffer size m =
      if ltb size t.size_of then (no_memory, m) else (no_error, store t buffer value m)

  unfoldable pub unflatten : ℕ → ℕ → Memory → Status × t.Value
  unflatten buffer size m = (no_error, load t buffer m)
