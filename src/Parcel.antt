-- ===== src/Parcel.antt =====
-- How a `Parcel` of RS485/tl/native_client/jni/binder/Parcel.h writes and reads a `LightFlattenable`.
-- The other calls of a parcel, whose code is in libbinder, and the flattenable class are parameters.
pub mod Blocks
pub mod Streams
pub mod Tests
use qf.Prelude.{
  ℕ, zero, suc, ◌+◌, ◌-◌, ◌%◌, ◌^◌, ◌<◌, ◌≡◌, ◌⊎◌, List, [], ◌∷◌, ◌++◌, Option, none, some, Bool,
  true, false, ◌==◌, if◌then◌else◌, length,
}
use qf.Flattenable.{Memory}

abbrev pub Address : Type 0
Address = ℕ

abbrev pub Status : Type 0
Status = ℕ

-- `NO_ERROR` and `NO_MEMORY`, as 32-bit words.
abbrev pub no_error : Status
no_error = 0

abbrev pub no_memory : Status
no_memory = 2 ^ 32 - 12

-- A `none` of `write_inplace` and `read_inplace` is a null pointer. A call that writes can move the
-- storage of the parcel, and so changes the memory.
pub record ParcelApi (P : Type 0) : Type 0 where
  pub write_int32 : ℕ → P → Memory → Status × P × Memory
  pub write_inplace : ℕ → P → Memory → Option Address × P × Memory
  pub read_int32 : P → Memory → Status × ℕ × P
  pub read_inplace : ℕ → P → Memory → Option Address × P
  pub set_data_position : ℕ → P → P

-- A class with the functions of `LightFlattenable`; `unflatten` changes the object it is called on.
pub record FlattenableApi (T : Type 0) : Type 0 where
  pub is_fixed_size : T → Bool
  pub get_flattened_size : T → ℕ
  pub flatten : T → Address → ℕ → Memory → Status × Memory
  pub unflatten : Address → ℕ → Memory → T → Status × T

module _ {P T : Type 0} (api : ParcelApi P) (light : FlattenableApi T) where
  abbrev pub written_inplace : T → ℕ → Option Address × P × Memory → Status × P × Memory
  written_inplace val size (none, p, m) = (no_memory, p, m)
  written_inplace val size (some buffer, p, m) =
      let (err, n) = light.flatten val buffer size m in (err, p, n)

  abbrev pub write_content : T → ℕ → P × Memory → Status × P × Memory
  write_content val size (p, m) =
      if size == 0 then (no_error, p, m) else written_inplace val size (api.write_inplace size p m)

  abbrev pub after_size : T → ℕ → Status × P × Memory → Status × P × Memory
  after_size val size (err, p, m) =
      if err == no_error then write_content val size (p, m) else (err, p, m)

  unfoldable pub write_light : T → P × Memory → Status × P × Memory
  write_light val (p, m) =
      let size = light.get_flattened_size val in
      if light.is_fixed_size val
      then write_content val size (p, m)
      else after_size val size (api.write_int32 (size % 2 ^ 32) p m)

  abbrev pub read_inplace_into : ℕ → Memory → T → Option Address × P → Status × T × P
  read_inplace_into size m val (none, p) = (no_memory, val, p)
  read_inplace_into size m val (some buffer, p) =
      let (err, w) = light.unflatten buffer size m val in (err, w, p)

  abbrev pub read_content : ℕ → P × Memory → T → Status × T × P
  read_content size (p, m) val =
      if size == 0
      then (no_error, val, p)
      else read_inplace_into size m val (api.read_inplace size p m)

  abbrev pub read_sized : Memory → T → Status × ℕ × P → Status × T × P
  read_sized m val (err, size, p) =
      if err == no_error then read_content size (p, m) val else (err, val, p)

  unfoldable pub read_light : T → P × Memory → Status × T × P
  read_light val (p, m) =
      if light.is_fixed_size val
      then read_content (light.get_flattened_size val) (p, m) val
      else read_sized m val (api.read_int32 p m)

abbrev pub bytes_at : Memory → Address → ℕ → List ℕ
bytes_at m a zero = []
bytes_at m a (suc n) = m a ∷ bytes_at m (a + 1) n

-- What a parcel holds: a number, or a block of bytes.
pub data Chunk : Type 0 where
  int : ℕ → Chunk
  block : List ℕ → Chunk

-- `k` is `m` but for the `n` bytes at `a`.
abbrev pub SameOutside : Address → ℕ → Memory → Memory → Type 0
SameOutside a n m k = (q : Address) → ((j : ℕ) → j < n → (q == a + j) ≡ false) → k q ≡ m q

-- A write may fail. One that does not appends its number, or a block that is filled through the
-- pointer until the next call. From the start, a parcel is read in the order in which it was written.
pub record IsParcelApi {P : Type 0} (api : ParcelApi P)
    (Holds Ahead : List Chunk → P → Memory → Type 0) : Type 0 where
  pub writes_int :
      (v : ℕ) (cs : List Chunk) (p q : P) (m n : Memory)
      → v < 2 ^ 32
      → Holds cs p m
      → api.write_int32 v p m ≡ (no_error, q, n)
      → Holds (cs ++ int v ∷ []) q n
  pub writes_block :
      (size : ℕ) (cs : List Chunk) (a : Address) (p q : P) (m n k : Memory)
      → Holds cs p m
      → api.write_inplace size p m ≡ (some a, q, n)
      → SameOutside a size n k
      → Holds (cs ++ block (bytes_at k a size) ∷ []) q k
  pub reads_int :
      (v : ℕ) (rest : List Chunk) (p : P) (m : Memory)
      → Ahead (int v ∷ rest) p m
      → (q : P) × (api.read_int32 p m ≡ (no_error, v, q)) × Ahead rest q m
  pub reads_block :
      (bs : List ℕ) (rest : List Chunk) (p : P) (m : Memory)
      → Ahead (block bs ∷ rest) p m
      → (a : Address) × (q : P) × (api.read_inplace (length bs) p m ≡ (some a, q))
        × (bytes_at m a (length bs) ≡ bs)
        × Ahead rest q m
  pub rewinds :
      (cs : List Chunk) (p : P) (m : Memory) → Holds cs p m → Ahead cs (api.set_data_position 0 p) m

-- A class whose objects have all a fixed size or none, and where `flatten`, unless it fails, writes
-- the bytes of the object, from which `unflatten` gets it back.
pub record IsFlattenable {T : Type 0} (light : FlattenableApi T) (encode : T → List ℕ)
    : Type 0 where
  pub fixed : (v w : T) → light.is_fixed_size v ≡ light.is_fixed_size w
  pub same_size :
      (v w : T)
      → light.is_fixed_size v ≡ true
      → light.get_flattened_size v ≡ light.get_flattened_size w
  pub small : (v : T) → light.get_flattened_size v < 2 ^ 32
  pub counts : (v : T) → length (encode v) ≡ light.get_flattened_size v
  pub flattens :
      (v : T) (a : Address) (m n : Memory)
      → light.flatten v a (light.get_flattened_size v) m ≡ (no_error, n)
      → SameOutside a (light.get_flattened_size v) m n
        × (bytes_at n a (light.get_flattened_size v) ≡ encode v)
  pub unflattens :
      (v w : T) (a : Address) (m : Memory)
      → bytes_at m a (light.get_flattened_size v) ≡ encode v
      → light.unflatten a (light.get_flattened_size v) m w ≡ (no_error, v)
