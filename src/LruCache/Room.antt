-- ===== src/LruCache/Room.antt =====
-- How `put` of RS485/tl/native_client/jni/utils/LruCache.h makes room: in the cache, by removing the
-- pair whose use is longest ago, and in the table, by `rehash`.
use qf.Prelude.{
  ℕ, suc, ◌^◌, ◌<◌, ◌≤◌, ◌≡◌, refl, sym, ap, ◌∙◌, arith, List, [], ◌∷◌, Option, none, Bool, true,
  false, ◌||◌, ◌==◌, leb, if◌then◌else◌, length, Bool-cases, inl, inr,
}
use qf.LruCache.{Address, TableApi, Cache, ok, ◌>>◌, load}
use qf.LruCache.Operations.{
  is_full, put, put_from, rehash, destroyed, destroy_table, make_room, remove_oldest,
}
use qf.LruCache.Chain.{Chain-frame}
use qf.LruCache.Table.{IsTableApi}
use qf.LruCache.Contents.{Kept, Kept-refl, Keeps}
use qf.LruCache.Removal.{without_oldest, oldest_of, remove_oldest-Keeps}
use qf.LruCache.Insertion.{owns_of_mem}
use qf.LruCache.Rehash.{Pending, Copied, put_from-Keeps}

-- The pairs that stay, and the pair that goes, when `put` makes room.
abbrev pub trimmed : {A : Type 0} → ℕ → List A → List A
trimmed max_capacity l = if is_full max_capacity (length l) then without_oldest l else l

abbrev pub evicted : {A : Type 0} → ℕ → List A → List A
evicted max_capacity l = if is_full max_capacity (length l) then oldest_of l else []

-- There are at most as many pairs as the cache may hold.
abbrev pub IsWithin : ℕ → ℕ → Type 0
IsWithin max_capacity n = (max_capacity == 0 || leb n max_capacity) ≡ true

pub is_full-trimmed :
    {A : Type 0} (max_capacity : ℕ) (l : List A)
    → IsWithin max_capacity (length l)
    → is_full max_capacity (length (trimmed max_capacity l)) ≡ false
is_full-trimmed max_capacity [] within = elim (Bool-cases (is_full max_capacity 0)) [
  | inl full ↦ absurd (ground (arith, full))
  | inr e ↦ rw e e
]
is_full-trimmed max_capacity (x ∷ l) within =
    elim (Bool-cases (is_full max_capacity (suc (length l)))) [
      | inl full ↦ rw full (ground (arith, full, within))
      | inr e ↦ rw e e
    ]

pub length-trimmed :
    {A : Type 0} (max_capacity : ℕ) (l : List A) → length (trimmed max_capacity l) ≤ length l
length-trimmed max_capacity [] = ground arith
length-trimmed max_capacity (x ∷ l) = ground arith

module _ {S K V : Type 0} (api : TableApi S K) (eqb : K → K → Bool) (place : K → S → Option Address)
    (room : S → ℕ) (laws : IsTableApi api eqb place room) (c : Cache S K V) (nodes : List Address)
    (l : List (K × V)) (keeps : Keeps api eqb place room laws c nodes l) where
  pub make_room-Keeps :
      (d : Cache S K V) × (after : List Address) × (make_room api c ≡ ok tt d)
      × Keeps api eqb place room laws d after (trimmed c.max_capacity l)
      × Kept c d (evicted c.max_capacity l)
      × (api.capacity d.table ≡ api.capacity c.table)
  unfolding remove_oldest load
  make_room-Keeps = elim (Bool-cases (is_full c.max_capacity (length l))) [
    | inl full ↦
        let (d, after, runs, kept, told, same_capacity) =
          remove_oldest-Keeps api eqb place room laws c nodes l keeps in
        (d, after, rw (keeps.sized, full) (rw runs refl), rw full kept, rw full told, same_capacity)
    | inr space ↦
        (c, nodes, rw (keeps.sized, space) refl, rw space keeps, rw space (Kept-refl c), refl)
  ]

  -- An empty table is made for the pairs, with room for them and one more.
  abbrev emptied : ℕ → Cache S K V
  emptied n = record c { oldest = none; youngest = none; table = api.new_table n c.table }

  emptied-Pending :
      (n : ℕ)
      → length l ≤ n
      → n < 2 ^ 31
      → is_full c.max_capacity (length l) ≡ false
      → Pending api eqb place room laws (emptied n) [] [] none nodes l
  emptied-Pending n enough small space =
      let (empty, size0, apart, big, sound) = laws.makes n c.table keeps.table small in
      record {
        keeps = record {
          ordered = record { chain = tt; distinct = tt; first = refl; last = refl };
          keys = tt;
          placed = empty;
          sized = size0;
          table = sound;
        };
        chain = keeps.ordered.chain;
        apart = λ q there. elim (Bool-cases (api.owns (api.new_table n c.table) q)) [
          | inl on ↦
              cc (sym (apart q on) ∙ owns_of_mem api eqb place room laws c nodes l keeps q there)
          | inr off ↦ off
        ];
        keys = keeps.keys;
        roomy = omega (arith, enough, big);
        space = space;
      }

  abbrev destroying : S → Cache S K V → Cache S K V
  destroying t d = record d { entries = destroyed api t d.entries }

  -- The new table does not share memory with the old one.
  destroying-Keeps :
      (n : ℕ) (d : Cache S K V) (after : List Address)
      → n < 2 ^ 31
      → Copied api eqb place room laws (emptied n) d l
      → Keeps api eqb place room laws d after l
      → Keeps api eqb place room laws (destroying c.table d) after l
  destroying-Keeps n d after small copied kept = record {
    ordered = record {
      chain =
          Chain-frame d.entries (destroyed api c.table d.entries) none after l none
            (λ q there.
              let mine : api.owns (api.new_table n c.table) q ≡ true =
                sym (copied.owned q) ∙ owns_of_mem api eqb place room laws d after l kept q there in
              let (empty, size0, apart, big, sound) = laws.makes n c.table keeps.table small in
              let other = apart q mine in rw other refl)
            kept.ordered.chain;
      distinct = kept.ordered.distinct;
      first = kept.ordered.first;
      last = kept.ordered.last;
    };
    keys = kept.keys;
    placed = kept.placed;
    sized = kept.sized;
    table = kept.table;
  }

  -- In a cache that is not full, with more fuel than pairs, `rehash` to a capacity above the number
  -- of pairs and below 2 ^ 31 ends, without a fault. It leaves the pairs in their order, tells the listener nothing,
  -- and the table has room for one more.
  pub rehash-Keeps :
      (fuel put_fuel n : ℕ)
      → length l < fuel
      → length l < n
      → n < 2 ^ 31
      → is_full c.max_capacity (length l) ≡ false
      → (d : Cache S K V) × (after : List Address) × (rehash api (put api (suc put_fuel)) fuel n c
          ≡ ok tt d)
        × Keeps api eqb place room laws d after l
        × Kept c d []
        × (api.has_more_room d.table ≡ true)
  unfolding rehash
  rehash-Keeps fuel put_fuel n enough more small space =
      let (d, after, runs, kept, copied) =
        put_from-Keeps api eqb place room laws put_fuel fuel (emptied n) [] [] none nodes l enough
          (emptied-Pending n (omega (arith, more)) small space) in
      let (empty, size0, apart, big, sound) = laws.makes n c.table keeps.table small in
      (
        destroying c.table d,
        after,
        ap
              (λ o.
                (put_from api (put api (suc put_fuel)) fuel o >> destroy_table api c.table)
                  (emptied n))
              keeps.ordered.first
            ∙ rw runs refl,
        destroying-Keeps n d after small copied kept,
        record {
          listener = copied.kept.listener;
          removed = copied.kept.removed;
          max_capacity = copied.kept.max_capacity;
          null_value = copied.kept.null_value;
        },
        laws.roomy d.table kept.table (omega (arith, big, more, copied.used_room)),
      )
