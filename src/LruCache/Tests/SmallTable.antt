-- ===== src/LruCache/Tests/SmallTable.antt =====
-- A table of natural numbers for RS485/tl/native_client/jni/utils/LruCache.h.
use qf.Prelude.{
  ℕ, suc, ◌+◌, ◌-◌, ◌*◌, ◌%◌, ◌<◌, ◌≤◌, ◌≡◌, refl, sym, ap, ◌∙◌, arith, List, [], ◌∷◌, Option, none,
  some, Bool, true, false, not, ◌||◌, ◌==◌, ==_iff, if◌then◌else◌, length, Bool-cases, inl, inr,
}
use qf.LruCache.{Address, TableApi}
use qf.LruCache.Table.{IsTableApi}

-- The entry of a key is at its own address, the even or the odd one for the key. A table of a
-- capacity takes `free` more entries.
pub record Table : Type 0 where
  pub keys : List ℕ
  pub odd : Bool
  pub free : ℕ
  pub capacity : ℕ

abbrev pub same : ℕ → ℕ → Bool
same j k = j == k

abbrev pub has_key : ℕ → List ℕ → Bool
has_key k [] = false
has_key k (j ∷ js) = k == j || has_key k js

abbrev pub without_key : ℕ → List ℕ → List ℕ
without_key k [] = []
without_key k (j ∷ js) = let rest = without_key k js in if k == j then js else j ∷ rest

abbrev DistinctKeys : List ℕ → Type 0
DistinctKeys [] = Unit {0}
DistinctKeys (j ∷ js) = (has_key j js ≡ false) × DistinctKeys js

abbrev one_if : Bool → ℕ
one_if b = if b then 1 else 0

abbrev pub address_of : ℕ → Bool → Address
address_of k odd = k * 2 + one_if odd

abbrev index_at : ℕ → Table → Option ℕ
index_at k t = if has_key k t.keys then some k else none

abbrev pub place_at : ℕ → Table → Option Address
place_at k t = if has_key k t.keys then some (address_of k t.odd) else none

abbrev marked : ℕ → Table → Table
marked k t = record t { keys = k ∷ t.keys; free = t.free - 1 }

abbrev pub small_table : TableApi Table ℕ
small_table = record {
  hash_type = λ k. k;
  find = λ h k t. index_at k t;
  address_at = λ i t. address_of i t.odd;
  add = λ h k t. (k, marked k t);
  remove_at = λ i t. record t { keys = without_key i t.keys };
  clear = λ t. record t { keys = [] };
  size = λ t. length t.keys;
  capacity = λ t. t.capacity;
  has_more_room = λ t. not (t.free == 0);
  next = λ i t. none;
  first_table = record { keys = []; odd = false; free = 1; capacity = 1 };
  new_table = λ n t. record { keys = []; odd = not t.odd; free = n; capacity = suc n };
  owns = λ t p. p % 2 == one_if t.odd;
}

pub record IsTable (t : Table) : Type 0 where
  pub distinct : DistinctKeys t.keys
  pub fits : length t.keys + t.free ≤ t.capacity
  pub positive : 0 < t.capacity

parity-address_of : (i : ℕ) (odd : Bool) → (address_of i odd % 2 == one_if odd) ≡ true
parity-address_of i true = ground arith
parity-address_of i false = ground arith

-- Where a key is found, and where it is not.
index_at-some :
    (k : ℕ) (t : Table) (i : ℕ) → index_at k t ≡ some i → (has_key k t.keys ≡ true) × (k ≡ i)
index_at-some k t i e = elim (Bool-cases (has_key k t.keys)) [
  | inl on ↦ let e' : some k ≡ some i = rw on at e in (on, cc e')
  | inr off ↦ let e' : none ≡ some i = rw off at e in cc e'
]

index_at-none : (k : ℕ) (t : Table) → index_at k t ≡ none → has_key k t.keys ≡ false
index_at-none k t e = elim (Bool-cases (has_key k t.keys)) [
  | inl on ↦ let e' : some k ≡ none = rw on at e in cc e'
  | inr off ↦ off
]

place_at-some :
    (k : ℕ) (t : Table) (p : Address)
    → place_at k t ≡ some p
    → (has_key k t.keys ≡ true) × (address_of k t.odd ≡ p)
place_at-some k t p e = elim (Bool-cases (has_key k t.keys)) [
  | inl on ↦ let e' : some (address_of k t.odd) ≡ some p = rw on at e in (on, cc e')
  | inr off ↦ let e' : none ≡ some p = rw off at e in cc e'
]

place_at-none : (k : ℕ) (t : Table) → place_at k t ≡ none → has_key k t.keys ≡ false
place_at-none k t e = elim (Bool-cases (has_key k t.keys)) [
  | inl on ↦ let e' : some (address_of k t.odd) ≡ none = rw on at e in cc e'
  | inr off ↦ off
]

place_at-marked :
    (j k : ℕ) (t : Table)
    → place_at j (marked k t) ≡ (if same j k then some (address_of k t.odd) else place_at j t)
place_at-marked j k t = elim (Bool-cases (j == k)) [
  | inl on ↦ rw on (ap (λ q. some (address_of q t.odd)) ((==_iff j k).0 on))
  | inr off ↦ rw off refl
]

has_key-without_key :
    (j k : ℕ) (ks : List ℕ)
    → DistinctKeys ks
    → has_key j (without_key k ks) ≡ (if j == k then false else has_key j ks)
has_key-without_key j k [] d = ground arith
has_key-without_key j k (i ∷ ks) (out, d) = elim (Bool-cases (k == i)) [
  | inl on ↦
      let e : k ≡ i = (==_iff k i).0 on in
      rw on (elim (Bool-cases (j == k)) [
        | inl same ↦
            let f : j ≡ i = (==_iff j k).0 same ∙ e in rw same (ap (λ q. has_key q ks) f ∙ out)
        | inr other ↦
            let apart : (j == i) ≡ false = ap (λ q. j == q) (sym e) ∙ other in
            rw (other, apart) refl
      ])
  | inr off ↦ rw off (elim (Bool-cases (j == k)) [
    | inl same ↦
        let e : j ≡ k = (==_iff j k).0 same in
        let apart : (j == i) ≡ false = ap (λ q. q == i) e ∙ off in
        rw (same, apart) (has_key-without_key j k ks d ∙ rw same refl)
    | inr other ↦ rw other (ap (λ b. j == i || b) (has_key-without_key j k ks d ∙ rw other refl))
  ])
]

DistinctKeys-without_key : (k : ℕ) (ks : List ℕ) → DistinctKeys ks → DistinctKeys (without_key k ks)
DistinctKeys-without_key k [] d = tt
DistinctKeys-without_key k (i ∷ ks) (out, d) = elim (Bool-cases (k == i)) [
  | inl on ↦ rw on d
  | inr off ↦
      let apart : (i == k) ≡ false = ground (arith, off) in
      rw off ((has_key-without_key i k ks d ∙ rw apart out, DistinctKeys-without_key k ks d))
]

length-without_key :
    (k : ℕ) (ks : List ℕ) → has_key k ks ≡ true → suc (length (without_key k ks)) ≡ length ks
length-without_key k [] there = cc there
length-without_key k (i ∷ ks) there = elim (Bool-cases (k == i)) [
  | inl on ↦ rw on refl
  | inr off ↦ rw off (ap suc (length-without_key k ks (rw off at there)))
]

place_at-without_key :
    (j k : ℕ) (t : Table)
    → DistinctKeys t.keys
    → place_at j (record t { keys = without_key k t.keys })
      ≡ (if same j k then none else place_at j t)
place_at-without_key j k t d = elim (Bool-cases (j == k)) [
  | inl on ↦ rw (has_key-without_key j k t.keys d) (rw on refl)
  | inr off ↦ rw (has_key-without_key j k t.keys d) (rw off refl)
]

apart_of_address_of :
    (i j : ℕ) (odd : Bool) → (i == j) ≡ false → (address_of i odd == address_of j odd) ≡ false
apart_of_address_of i j odd off = ground (arith, off)

small_table-apart :
    (k : ℕ) (t : Table) (j : ℕ) (p : Address)
    → place_at k t ≡ none
    → place_at j t ≡ some p
    → (p == address_of k t.odd) ≡ false
small_table-apart k t j p free at = elim (Bool-cases (j == k)) [
  | inl on ↦
      let e = ap (λ q. has_key q t.keys) ((==_iff j k).0 on) in
      cc (e, place_at-none k t free, (place_at-some j t p at).0)
  | inr off ↦ rw (sym (place_at-some j t p at).1) (apart_of_address_of j k t.odd off)
]

apart_of_odd :
    (p : Address) (odd : Bool) → (p % 2 == one_if (not odd)) ≡ true → (p % 2 == one_if odd) ≡ false
apart_of_odd p true e = ground (arith, e)
apart_of_odd p false e = ground (arith, e)

small_table-removes :
    (k : ℕ) (t : Table) (i : ℕ)
    → IsTable t
    → index_at k t ≡ some i
    → ((j : ℕ)
        → place_at j (record t { keys = without_key i t.keys })
          ≡ (if same j k then none else place_at j t))
      × (suc (length (without_key i t.keys)) ≡ length t.keys)
      × IsTable (record t { keys = without_key i t.keys })
      × (t.capacity ≡ t.capacity)
small_table-removes k t i sound e =
    let (on, at) = index_at-some k t i e in
    rw (sym at) (
      λ j. place_at-without_key j k t sound.distinct,
      length-without_key k t.keys on,
      record {
        distinct = DistinctKeys-without_key k t.keys sound.distinct;
        fits = omega (arith, sound.fits, length-without_key k t.keys on);
        positive = sound.positive;
      },
      refl,
    )

pub small_table-IsTableApi : IsTableApi small_table same place_at (λ t. t.free)
small_table-IsTableApi = record {
  IsTable = IsTable;
  same_key = ==_iff;
  found = λ k t i sound e.
      let (on, at) = index_at-some k t i e in rw on (ap (λ q. some (address_of q t.odd)) at);
  missing = λ k t sound e. rw (index_at-none k t e) refl;
  held = λ k t p sound e. rw (sym (place_at-some k t p e).1) (parity-address_of k t.odd);
  adds = λ k t sound absent roomy. (
    k,
    marked k t,
    refl,
    λ j. place_at-marked j k t,
    λ j p at. small_table-apart k t j p absent at,
    λ p. refl,
    refl,
    omega arith,
    record {
      distinct = (place_at-none k t absent, sound.distinct);
      fits =
          let some_room : 0 < t.free = ground (arith, roomy) in
          omega (arith, sound.fits, some_room);
      positive = sound.positive;
    },
  );
  removes = small_table-removes;
  clears = λ t sound. (
    λ j. refl,
    refl,
    record { distinct = tt; fits = omega (arith, sound.fits); positive = sound.positive },
  );
  starts = (λ j. refl, refl, record { distinct = tt; fits = omega arith; positive = omega arith });
  makes = λ n t sound small. (
    λ j. refl,
    refl,
    λ p. apart_of_odd p t.odd,
    omega arith,
    record { distinct = tt; fits = omega arith; positive = omega arith },
  );
  roomy = λ t sound more. ground (arith, more);
  bounded = λ t sound. (omega (arith, sound.fits), sound.positive);
}

-- A table that holds 0 and 2, and has no more room.
abbrev pub crowded : Table
crowded = record { keys = 0 ∷ 2 ∷ []; odd = false; free = 0; capacity = 2 }

pub crowded-IsTable : small_table-IsTableApi.IsTable crowded
unfolding small_table-IsTableApi
crowded-IsTable = record {
  distinct = (refl, (refl, tt));
  fits = omega arith;
  positive = omega arith;
}
