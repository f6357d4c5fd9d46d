-- ===== src/Parcel/Blocks.antt =====
-- How a value is written to a parcel of RS485/tl/native_client/jni/binder/Parcel.h, and read.
use mathlib.Core.List.{append_assoc}
use qf.Prelude.{
  ℕ, ◌%◌, ◌^◌, ◌≡◌, ◌⊎◌, refl, ap, ◌∙◌, arith, List, [], ◌∷◌, ◌++◌, Option, none, some, true, false,
  ◌==◌, if◌then◌else◌, Bool-cases, inl, inr, ==_iff, length,
}
use qf.Flattenable.{Memory}
use qf.Parcel.{
  Address, Status, no_error, no_memory, ParcelApi, FlattenableApi, write_light, write_content,
  written_inplace, after_size, read_light, Chunk, int, block, bytes_at, IsParcelApi, IsFlattenable,
}

module _ {P T : Type 0} (api : ParcelApi P) (light : FlattenableApi T) where
  -- A call that failed, and what the caller is told.
  pub data CallFails (err : Status) : Type 0 where
    int_fails :
        (v : ℕ) (p : P) (m : Memory)
        → (api.write_int32 v p m).0 ≡ err
        → (err == no_error) ≡ false
        → CallFails err
    block_fails :
        (size : ℕ) (p : P) (m : Memory)
        → (api.write_inplace size p m).0 ≡ none
        → err ≡ no_memory
        → CallFails err
    flatten_fails :
        (v : T) (a : Address) (m : Memory)
        → (light.flatten v a (light.get_flattened_size v) m).0 ≡ err
        → (err == no_error) ≡ false
        → CallFails err

  module _ (encode : T → List ℕ) where
    abbrev pub chunks_of : T → List Chunk
    chunks_of v =
        if light.is_fixed_size v
        then block (encode v) ∷ []
        else int (light.get_flattened_size v) ∷ block (encode v) ∷ []

  module _ (Holds Ahead : List Chunk → P → Memory → Type 0) (laws : IsParcelApi api Holds Ahead)
      (encode : T → List ℕ) (flat : IsFlattenable light encode)
      (some_bytes : (v : T) → (light.get_flattened_size v == 0) ≡ false) where
    -- A call that writes has written `cs`, or another call has failed.
    abbrev pub Writes : List Chunk → Status × P × Memory → Type 0
    Writes cs (err, q, n) = ((err ≡ no_error) × Holds cs q n) ⊎ CallFails err

    written_inplace-Writes :
        (v : T) (cs : List Chunk) (p : P) (m : Memory) (result : Option Address × P × Memory)
        → Holds cs p m
        → api.write_inplace (light.get_flattened_size v) p m ≡ result
        → Writes
            (cs ++ block (encode v) ∷ [])
            (written_inplace api light v (light.get_flattened_size v) result)
    written_inplace-Writes v cs p m (none, q, n) holds e =
        inr (block_fails (light.get_flattened_size v) p m (ap (λ r. r.0) e) refl)
    written_inplace-Writes v cs p m (some a, q, n) holds e =
        let size = light.get_flattened_size v in
        let f = light.flatten v a size n in
        elim (Bool-cases (f.0 == no_error)) [
          | inl fine ↦
              let ok : f.0 ≡ no_error = (==_iff f.0 no_error).0 fine in
              let (frame, content) = flat.flattens v a n f.1 (ap (λ c. (c, f.1)) ok) in
              let there = laws.writes_block size cs a p q m n f.1 holds e frame in
              inl (ok, rw content at there)
          | inr bad ↦ inr (flatten_fails v a n refl bad)
        ]

    write_content-Writes :
        (v : T) (cs : List Chunk) (p : P) (m : Memory)
        → Holds cs p m
        → Writes
            (cs ++ block (encode v) ∷ [])
            (write_content api light v (light.get_flattened_size v) (p, m))
    write_content-Writes v cs p m holds = rw (some_bytes v) (
        written_inplace-Writes v cs p m (api.write_inplace (light.get_flattened_size v) p m) holds
          refl)

    after_size-Writes :
        (v : T) (cs : List Chunk) (p : P) (m : Memory) (result : Status × P × Memory)
        → Holds cs p m
        → api.write_int32 (light.get_flattened_size v) p m ≡ result
        → Writes
            (cs ++ int (light.get_flattened_size v) ∷ block (encode v) ∷ [])
            (after_size api light v (light.get_flattened_size v) result)
    after_size-Writes v cs p m (err, q, n) holds e = elim (Bool-cases (err == no_error)) [
      | inl fine ↦
          let size = light.get_flattened_size v in
          let ok : err ≡ no_error = (==_iff err no_error).0 fine in
          let there =
            laws.writes_int size cs p q m n (flat.small v) holds (e ∙ ap (λ c. (c, q, n)) ok) in
          let done = write_content-Writes v (cs ++ int size ∷ []) q n there in
          rw fine (rw (append_assoc cs (int size ∷ []) (block (encode v) ∷ [])) at done)
      | inr bad ↦ rw bad (inr (int_fails (light.get_flattened_size v) p m (ap (λ r. r.0) e) bad))
    ]

    pub write_light-Writes :
        (v : T) (cs : List Chunk) (p : P) (m : Memory)
        → Holds cs p m
        → Writes (cs ++ chunks_of encode v) (write_light api light v (p, m))
    unfolding write_light
    write_light-Writes v cs p m holds = elim (Bool-cases (light.is_fixed_size v)) [
      | inl fixed ↦ rw fixed (write_content-Writes v cs p m holds)
      | inr varies ↦
          let size = light.get_flattened_size v in
          let here : size % 2 ^ 32 ≡ size = omega (arith, flat.small v) in
          rw varies (rw here (after_size-Writes v cs p m (api.write_int32 size p m) holds refl))
    ]

    pub read_light-Ahead :
        (v w : T) (rest : List Chunk) (p : P) (m : Memory)
        → Ahead (chunks_of encode v ++ rest) p m
        → (q : P) × (read_light api light w (p, m) ≡ (no_error, v, q)) × Ahead rest q m
    unfolding read_light
    read_light-Ahead v w rest p m ahead = elim (Bool-cases (light.is_fixed_size v)) [
      | inl fixed ↦
          let (a, q, runs, content, next) =
            laws.reads_block (encode v) rest p m (rw fixed at ahead) in
          let runs' : api.read_inplace size p m ≡ (some a, q) = rw (flat.counts v) at runs in
          let fixed' : light.is_fixed_size w ≡ true = flat.fixed w v ∙ fixed in
          let same : light.get_flattened_size w ≡ size = flat.same_size w v fixed' in
          (q, rw (fixed', same) (rw (some_bytes v) (rw runs' (rw (back a content) refl))), next)
      | inr varies ↦
          let (q, runs, next) =
            laws.reads_int size (block (encode v) ∷ rest) p m (rw varies at ahead) in
          let (a, r, read, content, next') = laws.reads_block (encode v) rest q m next in
          let read' : api.read_inplace size q m ≡ (some a, r) = rw (flat.counts v) at read in
          let varies' : light.is_fixed_size w ≡ false = flat.fixed w v ∙ varies in
          (r, rw varies' (rw runs (rw (some_bytes v) (rw read' (rw (back a content) refl)))), next')
    ]
      where
        size : ℕ
        size = light.get_flattened_size v

        back :
            (a : Address)
            → bytes_at m a (length (encode v)) ≡ encode v
            → light.unflatten a size m w ≡ (no_error, v)
        back a content = flat.unflattens v w a m (rw (flat.counts v) at content)
