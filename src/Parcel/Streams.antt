-- ===== src/Parcel/Streams.antt =====
-- Values that are written to a parcel of RS485/tl/native_client/jni/binder/Parcel.h, and read.
use qf.Prelude.{ℕ, ◌≡◌, List, [], ◌∷◌, ◌++◌, false, ◌==◌, if◌then◌else◌}
use qf.Flattenable.{Memory}
use qf.Parcel.{
  Status, no_error, ParcelApi, FlattenableApi, write_light, read_light, Chunk, IsParcelApi,
  IsFlattenable,
}
use qf.Parcel.Blocks.{chunks_of}

-- There is an object for each value.
abbrev pub SameCount : {T : Type 0} → List T → List T → Type 0
SameCount [] [] = Unit {0}
SameCount [] (w ∷ ws) = ⊥
SameCount (v ∷ vs) [] = ⊥
SameCount (v ∷ vs) (w ∷ ws) = SameCount vs ws

module _ {P T : Type 0} (api : ParcelApi P) (light : FlattenableApi T) where
  unfoldable pub write_all : List T → P × Memory → Status × P × Memory
  unfolding write_light
  write_all [] (p, m) = (no_error, p, m)
  write_all (v ∷ vs) (p, m) =
      let (err, q, n) = write_light api light v (p, m) in
      let rest = write_all vs (q, n) in if err == no_error then rest else (err, q, n)

  -- The objects of the list are read into, one after the other.
  unfoldable pub read_all : List T → P × Memory → Status × List T × P
  unfolding read_light
  read_all [] (p, m) = (no_error, [], p)
  read_all (v ∷ vs) (p, m) =
      let (err, w, q) = read_light api light v (p, m) in
      let (err', ws, q') = read_all vs (q, m) in
      if err == no_error then (err', w ∷ ws, q') else (err, [], q)

  module _ (Holds Ahead : List Chunk → P → Memory → Type 0) (laws : IsParcelApi api Holds Ahead)
      (encode : T → List ℕ) (flat : IsFlattenable light encode)
      (some_bytes : (v : T) → (light.get_flattened_size v == 0) ≡ false) where
    abbrev all_chunks : List T → List Chunk
    all_chunks [] = []
    all_chunks (v ∷ vs) = chunks_of api light encode v ++ all_chunks vs
