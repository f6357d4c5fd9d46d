-- ===== src/LruCache/Contents.antt =====
-- `get` of RS485/tl/native_client/jni/utils/LruCache.h on a sequence of pairs.
use mathlib.Core.List.{append-nil}
use qf.Prelude.{
  ℕ, suc, ◌+◌, ◌≡◌, refl, sym, ap, ◌∙◌, arith, List, [], ◌∷◌, ◌++◌, Option, none, some, Bool,
  if◌then◌else◌, length, Bool-cases, Option-cases, inl, inr,
}
use qf.LinkedList.Chain.{◌∉◌}
use qf.LinkedList.Nodes.{not-mem_of_distinct}
use qf.LruCache.{Address, TableApi, Entries, Cache, ok, load, detach_from_cache}
use qf.LruCache.Operations.{get, find}
use qf.LruCache.Chain.{entry_of, Chain}
use qf.LruCache.Links.{relinked}
use qf.LruCache.Order.{Ordered, detach-Ordered, attach-Ordered}
use qf.LruCache.Pairs.{
  lookup, without, DistinctKeys, place_in, Found, none_of_place_in, place_in-append,
  DistinctKeys-append, place_in-Found,
}
use qf.LruCache.Table.{IsTableApi}

pub length-append : {A : Type 0} (xs ys : List A) → length (xs ++ ys) ≡ length xs + length ys
length-append [] ys = omega arith
length-append (x ∷ xs) ys = omega (arith, length-append xs ys)

module _ {K V : Type 0} where
  pub length-Chain :
      (m : Entries K V) (before : Option Address) (ps : List Address) (l : List (K × V))
      (next : Option Address)
      → Chain m before ps l next
      → length ps ≡ length l
  length-Chain m before [] [] next c = refl
  length-Chain m before [] (x ∷ l) next c = absurd c
  length-Chain m before (p ∷ ps) [] next c = absurd c
  length-Chain m before (p ∷ ps) (x ∷ l) next (e, c) = ap suc (length-Chain m (some p) ps l next c)

-- `d` has the settings of `c`, and its listener has been told of `gone`.
pub record Kept {S K V : Type 0} (c d : Cache S K V) (gone : List (K × V)) : Type 0 where
  pub listener : d.listener ≡ c.listener
  pub removed : d.removed ≡ c.removed ++ (if c.listener then gone else [])
  pub max_capacity : d.max_capacity ≡ c.max_capacity
  pub null_value : d.null_value ≡ c.null_value

pub Kept-refl : {S K V : Type 0} (c : Cache S K V) → Kept c c []
Kept-refl c = record {
  listener = refl;
  removed = elim (Bool-cases c.listener) [
    | inl on ↦ rw on (sym (append-nil c.removed))
    | inr off ↦ rw off (sym (append-nil c.removed))
  ];
  max_capacity = refl;
  null_value = refl;
}

module _ {S K V : Type 0} (api : TableApi S K) (eqb : K → K → Bool) (place : K → S → Option Address)
    (room : S → ℕ) (laws : IsTableApi api eqb place room) where
  -- The cache keeps the pairs of `l`, the one whose use is longest ago first, in the entries `nodes`.
  pub record Keeps (c : Cache S K V) (nodes : List Address) (l : List (K × V)) : Type 0 where
    pub ordered : Ordered c nodes l
    pub keys : DistinctKeys eqb l
    pub placed : (j : K) → place j c.table ≡ place_in eqb j nodes l
    pub sized : api.size c.table ≡ length l
    pub table : laws.IsTable c.table

  module _ (c : Cache S K V) (nodes : List Address) (l : List (K × V))
      (keeps : Keeps c nodes l) where
    same_length : length nodes ≡ length l
    same_length = length-Chain c.entries none nodes l none keeps.ordered.chain

    -- A key that the table does not find is in no pair.
    pub lookup_of_missing :
        (k : K) → find api k c ≡ none → (lookup eqb k l ≡ none) × (without eqb k l ≡ l)
    lookup_of_missing k e =
        none_of_place_in eqb k nodes l same_length
          (sym (keeps.placed k) ∙ laws.missing k c.table keeps.table e)

    pub Found-find :
        (k : K) (i : ℕ) → find api k c ≡ some i → Found eqb k (api.address_at i c.table) nodes l
    Found-find k i e =
        place_in-Found eqb laws.same_key k (api.address_at i c.table) nodes l keeps.keys
          (sym (keeps.placed k) ∙ laws.found k c.table i keeps.table e)

    pub Ordered-Found :
        (k : K) (p : Address) (f : Found eqb k p nodes l)
        → Ordered c (f.xs ++ p ∷ f.ys) (f.front ++ (k, f.value) ∷ f.back)
    Ordered-Found k p f = rw (f.nodes_split, f.pairs_split) at keeps.ordered

    -- An entry that is taken out of the middle.
    pub detach-Found :
        (k : K) (p : Address) (f : Found eqb k p nodes l)
        → (n : Entries K V) × (o : Option Address) × (y : Option Address) × (detach_from_cache p c
            ≡ ok tt (relinked c n o y))
          × Ordered (relinked c n o y) (f.xs ++ f.ys) (f.front ++ f.back)
          × (n p ≡ some (entry_of k f.value none none))
          × (p ∉ f.xs ++ f.ys)
    detach-Found k p f =
        let ordered = Ordered-Found k p f in
        let (n, o, y, runs, after, at, others) =
          detach-Ordered c f.xs p f.ys f.front (k, f.value) f.back f.same ordered in
        (n, o, y, runs, after, at, not-mem_of_distinct p f.xs f.ys ordered.distinct)

    pub length-Found :
        (k : K) (p : Address) (f : Found eqb k p nodes l)
        → (length (f.xs ++ f.ys) ≡ length (f.front ++ f.back))
          × (length l ≡ suc (length (f.front ++ f.back)))
    length-Found k p f =
        let (n, o, y, runs, after, at, out) = detach-Found k p f in
        (
          length-Chain n none (f.xs ++ f.ys) (f.front ++ f.back) none after.chain,
          rw f.pairs_split (
              omega (
                arith,
                length-append f.front ((k, f.value) ∷ f.back),
                length-append f.front f.back,
              )),
        )

abbrev pub value_or : {V : Type 0} → V → Option V → V
value_or d none = d
value_or d (some v) = v

module _ {K V : Type 0} (eqb : K → K → Bool) where
  -- A pair that is used moves to the end.
  abbrev pub moved : K → Option V → List (K × V) → List (K × V)
  moved k none l = l
  moved k (some v) l = without eqb k l ++ (k, v) ∷ []

  abbrev pub used : K → List (K × V) → List (K × V)
  used k l = moved k (lookup eqb k l) l

module _ {S K V : Type 0} (api : TableApi S K) (eqb : K → K → Bool) (place : K → S → Option Address)
    (room : S → ℕ) (laws : IsTableApi api eqb place room) (c : Cache S K V) (nodes : List Address)
    (l : List (K × V)) (keeps : Keeps api eqb place room laws c nodes l) where
  -- The entry of a key goes to the end, and is where it was.
  place_in-moved :
      (k : K) (p : Address) (f : Found eqb k p nodes l) (j : K)
      → place_in eqb k nodes l ≡ some p
      → place_in eqb j ((f.xs ++ f.ys) ++ p ∷ []) ((f.front ++ f.back) ++ (k, f.value) ∷ [])
        ≡ place_in eqb j nodes l
  place_in-moved k p f j at =
      let (same, longer) = length-Found api eqb place room laws c nodes l keeps k p f in
      place_in-append eqb (f.xs ++ f.ys) (f.front ++ f.back) p k f.value j same
        (λ on. f.gone j ∙ rw on refl)
      ∙ elim (Bool-cases (eqb j k)) [
        | inl on ↦
            let key : j ≡ k = (laws.same_key j k).0 on in
            rw on (sym at ∙ ap (λ t. place_in eqb t nodes l) (sym key))
        | inr off ↦ rw off (f.gone j ∙ rw off refl)
      ]

  -- `get` returns the value of a key that is kept, and makes its use the latest one; for another
  -- key it returns the null value, and changes nothing.
  pub get-Keeps :
      (k : K)
      → (d : Cache S K V) × (after : List Address) × (get api k c
          ≡ ok (value_or c.null_value (lookup eqb k l)) d)
        × Keeps api eqb place room laws d after (used eqb k l)
        × Kept c d []
  unfolding get load
  get-Keeps k = elim (Option-cases (find api k c)) [
    | inl missed ↦
        let (absent, rest) = lookup_of_missing api eqb place room laws c nodes l keeps k missed in
        (c, nodes, rw (missed, absent) refl, rw absent keeps, Kept-refl c)
    | inr (i, hit) ↦
        let p = api.address_at i c.table in
        let f = Found-find api eqb place room laws c nodes l keeps k i hit in
        let (n, o, y, runs, ordered, at, out) =
          detach-Found api eqb place room laws c nodes l keeps k p f in
        let c1 = relinked c n o y in
        let (n', o', y', runs', ordered', at', others) =
          attach-Ordered c1 (f.xs ++ f.ys) (f.front ++ f.back) p k f.value ordered out at in
        let d = relinked c1 n' o' y' in
        let (same, longer) = length-Found api eqb place room laws c nodes l keeps k p f in
        let here : place_in eqb k nodes l ≡ some p =
          sym (keeps.placed k) ∙ laws.found k c.table i keeps.table hit in
        (
          d,
          (f.xs ++ f.ys) ++ p ∷ [],
          rw (hit, f.here) (rw runs (rw runs' (rw at' refl))),
          rw (f.here, f.rest)
              (record {
                ordered = ordered';
                table = keeps.table;
                keys =
                    DistinctKeys-append eqb laws.same_key (f.front ++ f.back) k f.value f.keys
                      f.absent;
                placed = λ j. keeps.placed j ∙ sym (place_in-moved k p f j here);
                sized =
                    keeps.sized
                    ∙ omega (arith, longer, length-append (f.front ++ f.back) ((k, f.value) ∷ []));
              }),
          record {
            listener = refl;
            removed = (Kept-refl c).removed;
            max_capacity = refl;
            null_value = refl;
          },
        )
  ]
