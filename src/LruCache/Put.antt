-- ===== src/LruCache/Put.antt =====
-- `put` of RS485/tl/native_client/jni/utils/LruCache.h on a sequence of pairs.
use mathlib.Core.List.{append-nil}
use qf.Prelude.{
  ℕ, zero, suc, ◌+◌, ◌*◌, ◌%◌, ◌^◌, ◌<◌, ◌≡◌, refl, arith, List, [], ◌∷◌, ◌++◌, Option, none, some,
  Bool, true, false, length, Bool-cases, Option-cases, inl, inr,
}
use qf.LruCache.{Address, TableApi, Cache, ok}
use qf.LruCache.Operations.{is_full, put, put_found, grow, find}
use qf.LruCache.Pairs.{lookup}
use qf.LruCache.Table.{IsTableApi}
use qf.LruCache.Contents.{Kept, Kept-refl, Keeps, lookup_of_missing, Found-find}
use qf.LruCache.Insertion.{add_new-Keeps}
use qf.LruCache.Growth.{Kept-trans}
use qf.LruCache.Room.{
  trimmed, evicted, IsWithin, is_full-trimmed, length-trimmed, make_room-Keeps, rehash-Keeps,
}

-- What `put` returns, and the pairs after it, when it has made room and the cache has the value.
abbrev pub is_none : {V : Type 0} → Option V → Bool
is_none none = true
is_none (some v) = false

abbrev pub added : {K V : Type 0} → K → V → Option V → List (K × V) → List (K × V)
added k v none l = l ++ (k, v) ∷ []
added k v (some old) l = l

module _ {S K : Type 0} (api : TableApi S K) (eqb : K → K → Bool) (place : K → S → Option Address)
    (room : S → ℕ) (laws : IsTableApi api eqb place room) where
  -- The capacity that `put` asks for does not wrap around, and is above the number of pairs.
  doubled-enough :
      (t : S)
      → laws.IsTable t
      → api.capacity t < 2 ^ 30
      → (api.size t < api.capacity t * 2 % 2 ^ 32) × (api.capacity t * 2 % 2 ^ 32 < 2 ^ 31)
  doubled-enough t sound small =
      let (fits, positive) = laws.bounded t sound in
      (omega (arith, fits, positive, small), omega (arith, small))

module _ {S K V : Type 0} (api : TableApi S K) (eqb : K → K → Bool) (place : K → S → Option Address)
    (room : S → ℕ) (laws : IsTableApi api eqb place room) where
  module _ (c : Cache S K V) (nodes : List Address) (l : List (K × V))
      (keeps : Keeps api eqb place room laws c nodes l)
      (space : is_full c.max_capacity (length l) ≡ false)
      (small : api.capacity c.table < 2 ^ 30) where
    grow-Keeps :
        (fuel put_fuel : ℕ)
        → length l < fuel
        → (d : Cache S K V) × (after : List Address) × (grow api
              (put api (suc put_fuel))
              fuel
              (api.has_more_room c.table)
              c
            ≡ ok tt d)
          × Keeps api eqb place room laws d after l
          × Kept c d []
          × (api.has_more_room d.table ≡ true)
    grow-Keeps fuel put_fuel enough = elim (Bool-cases (api.has_more_room c.table)) [
      | inl roomy ↦ (c, nodes, rw roomy refl, keeps, Kept-refl c, roomy)
      | inr crowded ↦
          let (enough', below) = doubled-enough api eqb place room laws c.table keeps.table small in
          let more : length l < api.capacity c.table * 2 % 2 ^ 32 = rw keeps.sized at enough' in
          let (d, after, runs, keeps', kept, roomy) =
            rehash-Keeps api eqb place room laws c nodes l keeps fuel put_fuel
              (api.capacity c.table * 2 % 2 ^ 32) enough more below space in
          (d, after, rw crowded runs, keeps', kept, roomy)
    ]

    put_found-Keeps :
        (put_fuel : ℕ) (k : K) (v : V)
        → length l < suc put_fuel
        → (d : Cache S K V) × (after : List Address) × (put_found api
              (put api (suc put_fuel))
              (suc put_fuel)
              k
              v
              (find api k c)
              c
            ≡ ok (is_none (lookup eqb k l)) d)
          × Keeps api eqb place room laws d after (added k v (lookup eqb k l) l)
          × Kept c d []
    put_found-Keeps put_fuel k v enough = elim (Option-cases (find api k c)) [
      | inl missed ↦
          let (absent, rest) = lookup_of_missing api eqb place room laws c nodes l keeps k missed in
          let (d, mid, runs, keeps', kept, roomy) = grow-Keeps (suc put_fuel) put_fuel enough in
          let (e, after, runs', keeps'', kept', owned, frame, less) =
            add_new-Keeps api eqb place room laws d mid l keeps' k v absent roomy in
          (e, after, rw (missed, absent) (rw runs runs'), rw absent keeps'', Kept-trans kept kept')
      | inr (i, hit) ↦
          let f = Found-find api eqb place room laws c nodes l keeps k i hit in
          (c, nodes, rw (hit, f.here) refl, rw f.here keeps, Kept-refl c)
    ]

  -- `put` in a cache that may hold its pairs, over a table of a capacity below 2 ^ 30. In a full one it first removes the pair whose use is
  -- longest ago and tells the listener of it. Then it returns false for a key that is kept, and
  -- otherwise puts the pair behind the others and returns true. Its fuel is enough if it is above
  -- the number of pairs and one.
  pub put-Keeps :
      (c : Cache S K V) (nodes : List Address) (l : List (K × V)) (fuel : ℕ) (k : K) (v : V)
      → Keeps api eqb place room laws c nodes l
      → IsWithin c.max_capacity (length l)
      → length l + 1 < fuel
      → api.capacity c.table < 2 ^ 30
      → (d : Cache S K V) × (after : List Address) × (put api fuel k v c
          ≡ ok (is_none (lookup eqb k (trimmed c.max_capacity l))) d)
        × Keeps api eqb place room laws d after
            (added k v (lookup eqb k (trimmed c.max_capacity l)) (trimmed c.max_capacity l))
        × Kept c d (evicted c.max_capacity l)
  unfolding put
  put-Keeps c nodes l zero k v keeps within enough small = absurd (omega (arith, enough))
  put-Keeps c nodes l (suc zero) k v keeps within enough small = absurd (omega (arith, enough))
  put-Keeps c nodes l (suc (suc fuel)) k v keeps within enough small =
      let (d, mid, runs, keeps', kept, same_capacity) =
        make_room-Keeps api eqb place room laws c nodes l keeps in
      let l1 = trimmed c.max_capacity l in
      let space : is_full d.max_capacity (length l1) ≡ false =
        rw kept.max_capacity (is_full-trimmed c.max_capacity l within) in
      let (e, after, runs', keeps'', kept') =
        put_found-Keeps d mid l1 keeps' space (rw same_capacity small) fuel k v
          (omega (arith, enough, length-trimmed c.max_capacity l)) in
      (
        e,
        after,
        rw runs runs',
        keeps'',
        rw (append-nil (evicted c.max_capacity l)) at (Kept-trans kept kept'),
      )
