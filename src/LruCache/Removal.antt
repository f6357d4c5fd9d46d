-- ===== src/LruCache/Removal.antt =====
-- `remove` and `removeOldest` of RS485/tl/native_client/jni/utils/LruCache.h on a sequence of pairs.
use mathlib.Core.List.{append-nil}
use qf.Prelude.{
  ℕ, ◌≡◌, refl, sym, ap, ◌∙◌, arith, List, [], ◌∷◌, ◌++◌, Option, none, some, Bool, true, false,
  if◌then◌else◌, Bool-cases, Option-cases, inl, inr,
}
use qf.LinkedList.Nodes.{==-mem}
use qf.LruCache.{Address, TableApi, Entry, Cache, ok, write, load}
use qf.LruCache.Operations.{remove, remove_oldest, remove_first, find}
use qf.LruCache.Chain.{Chain-frame, Chain-split}
use qf.LruCache.Links.{relinked}
use qf.LruCache.Pairs.{lookup, without}
use qf.LruCache.Table.{IsTableApi}
use qf.LruCache.Contents.{
  Kept, Kept-refl, Keeps, lookup_of_missing, Found-find, Ordered-Found, detach-Found, length-Found,
}

-- The pair of a key, if there is one.
abbrev pub pair_of : {K V : Type 0} → K → Option V → List (K × V)
pair_of k none = []
pair_of k (some v) = (k, v) ∷ []

abbrev pub is_some : {V : Type 0} → Option V → Bool
is_some none = false
is_some (some v) = true

-- The listener, if there is one, is told of a pair.
abbrev pub notified : {S K V : Type 0} → K → V → Cache S K V → Cache S K V
notified k v c = record c { removed = if c.listener then c.removed ++ (k, v) ∷ [] else c.removed }

pub notified-Kept :
    {S K V : Type 0} (k : K) (v : V) (c : Cache S K V)
    → (notified k v c).removed ≡ c.removed ++ (if c.listener then (k, v) ∷ [] else [])
notified-Kept k v c = elim (Bool-cases c.listener) [
  | inl on ↦ rw on refl
  | inr off ↦ rw off (sym (append-nil c.removed))
]

module _ {S K V : Type 0} (api : TableApi S K) (eqb : K → K → Bool) (place : K → S → Option Address)
    (room : S → ℕ) (laws : IsTableApi api eqb place room) (c : Cache S K V) (nodes : List Address)
    (l : List (K × V)) (keeps : Keeps api eqb place room laws c nodes l) where
  notified-Keeps : (k : K) (v : V) → Keeps api eqb place room laws (notified k v c) nodes l
  notified-Keeps k v = record {
    ordered = record {
      chain = keeps.ordered.chain;
      distinct = keeps.ordered.distinct;
      first = keeps.ordered.first;
      last = keeps.ordered.last;
    };
    keys = keeps.keys;
    placed = keeps.placed;
    sized = keeps.sized;
    table = keeps.table;
  }

  -- `remove` takes the pair of a key that is kept out of the cache, and tells the listener of it;
  -- for another key it returns false, and changes nothing.
  pub remove-Keeps :
      (k : K)
      → (d : Cache S K V) × (after : List Address) × (remove api k c
          ≡ ok (is_some (lookup eqb k l)) d)
        × Keeps api eqb place room laws d after (without eqb k l)
        × Kept c d (pair_of k (lookup eqb k l))
        × (api.capacity d.table ≡ api.capacity c.table)
  unfolding remove load
  remove-Keeps k = elim (Option-cases (find api k c)) [
    | inl missed ↦
        let (absent, rest) = lookup_of_missing api eqb place room laws c nodes l keeps k missed in
        (c, nodes, rw (missed, absent) refl, rw rest keeps, rw absent (Kept-refl c), refl)
    | inr (i, hit) ↦
        let p = api.address_at i c.table in
        let f = Found-find api eqb place room laws c nodes l keeps k i hit in
        let ordered = Ordered-Found api eqb place room laws c nodes l keeps k p f in
        let (left, at, right) =
          Chain-split c.entries none f.xs p f.ys f.front (k, f.value) f.back none f.same
            ordered.chain in
        let c0 = notified k f.value c in
        let (n, o, y, runs, after, gone, out) =
          detach-Found api eqb place room laws c0 nodes l (notified-Keeps k f.value) k p f in
        let (same, longer) = length-Found api eqb place room laws c nodes l keeps k p f in
        let (placed, shorter, sound, same_capacity) = laws.removes k c.table i keeps.table hit in
        let m = write p none n in
        (
          record (relinked c0 n o y) { table = api.remove_at i c.table; entries = m },
          f.xs ++ f.ys,
          rw (hit, f.here) (rw at (rw runs refl)),
          rw f.rest (record {
            ordered = record {
              chain =
                  Chain-frame n m none (f.xs ++ f.ys) (f.front ++ f.back) none
                    (λ q there. rw (==-mem q p (f.xs ++ f.ys) there out) refl) after.chain;
              distinct = after.distinct;
              first = after.first;
              last = after.last;
            };
            keys = f.keys;
            placed = λ j. placed j ∙ rw (keeps.placed j) (sym (f.gone j));
            sized = omega (arith, shorter, keeps.sized, longer);
            table = sound;
          }),
          rw f.here (record {
            listener = refl;
            removed = notified-Kept k f.value c;
            max_capacity = refl;
            null_value = refl;
          }),
          same_capacity,
        )
  ]

abbrev pub without_oldest : {A : Type 0} → List A → List A
without_oldest [] = []
without_oldest (x ∷ l) = l

abbrev pub oldest_of : {A : Type 0} → List A → List A
oldest_of [] = []
oldest_of (x ∷ l) = x ∷ []

abbrev pub is_nonempty : {A : Type 0} → List A → Bool
is_nonempty [] = false
is_nonempty (x ∷ l) = true

module _ {S K V : Type 0} (api : TableApi S K) (eqb : K → K → Bool) (place : K → S → Option Address)
    (room : S → ℕ) (laws : IsTableApi api eqb place room) (c : Cache S K V) where
  remove_oldest-remove :
      (p : Address) (e : Entry K V)
      → c.oldest ≡ some p
      → c.entries p ≡ some e
      → remove_oldest api c ≡ remove api e.key c
  unfolding remove_oldest load
  remove_oldest-remove p e first at = ap (λ o. remove_first api o c) first ∙ rw at refl

  -- `removeOldest` removes the pair whose use is longest ago, and tells the listener of it; on an
  -- empty cache it returns false, and changes nothing.
  pub remove_oldest-Keeps :
      (nodes : List Address) (l : List (K × V))
      → Keeps api eqb place room laws c nodes l
      → (d : Cache S K V) × (after : List Address) × (remove_oldest api c ≡ ok (is_nonempty l) d)
        × Keeps api eqb place room laws d after (without_oldest l)
        × Kept c d (oldest_of l)
        × (api.capacity d.table ≡ api.capacity c.table)
  unfolding remove_oldest load
  remove_oldest-Keeps [] [] keeps =
      (c, [], ap (λ o. remove_first api o c) keeps.ordered.first, keeps, Kept-refl c, refl)
  remove_oldest-Keeps [] (x ∷ l) keeps = absurd keeps.ordered.chain
  remove_oldest-Keeps (p ∷ ps) [] keeps = absurd keeps.ordered.chain
  remove_oldest-Keeps (p ∷ ps) (x ∷ l) keeps =
      let same : eqb x.0 x.0 ≡ true = (laws.same_key x.0 x.0).1 refl in
      let (d, after, runs, kept, told, same_capacity) =
        remove-Keeps api eqb place room laws c (p ∷ ps) (x ∷ l) keeps x.0 in
      (
        d,
        after,
        remove_oldest-remove p _ keeps.ordered.first keeps.ordered.chain.0 ∙ (rw same at runs),
        rw same at kept,
        rw same at told,
        same_capacity,
      )
