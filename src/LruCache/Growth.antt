-- ===== src/LruCache/Growth.antt =====
-- What the loop of `rehash` of RS485/tl/native_client/jni/utils/LruCache.h needs for each pair.
use mathlib.Core.List.{append_assoc}
use qf.Prelude.{
  ℕ, suc, ◌≤◌, ◌≡◌, refl, sym, ◌∙◌, arith, List, [], ◌∷◌, ◌++◌, Option, none, some, Bool, true,
  false, if◌then◌else◌, Bool-cases, Option-cases, inl, inr,
}
use qf.LruCache.{Address, TableApi, Cache}
use qf.LruCache.Operations.{is_full, put, find, size}
use qf.LruCache.Pairs.{lookup, DistinctKeys, place_in-none}
use qf.LruCache.Table.{IsTableApi}
use qf.LruCache.Contents.{Kept, Keeps}
use qf.LruCache.Insertion.{add_new}

-- A cache that is not full is not full with fewer pairs.
pub is_full_mono :
    (max_capacity n m : ℕ) → n ≤ m → is_full max_capacity m ≡ false → is_full max_capacity n ≡ false
is_full_mono max_capacity n m le e = grind arith

module _ {K V : Type 0} (eqb : K → K → Bool) (same_key : (a b : K) → eqb a b ≡ true → a ≡ b) where
  lookup-left :
      (j k : K) (v : V) (l r : List (K × V))
      → lookup eqb j (l ++ (k, v) ∷ r) ≡ none
      → (eqb j k ≡ false) × (lookup eqb j l ≡ none)
  lookup-left j k v [] r e = elim (Bool-cases (eqb j k)) [
    | inl on ↦ let e' : some v ≡ none = rw on at e in cc e'
    | inr off ↦ (off, refl)
  ]
  lookup-left j k v (x ∷ l) r e = elim (Bool-cases (eqb j x.0)) [
    | inl on ↦ let e' : some x.1 ≡ none = rw on at e in cc e'
    | inr off ↦ let (apart, gone) = lookup-left j k v l r (rw off at e) in (apart, rw off gone)
  ]

  -- The key of a pair is in no pair before it.
  pub lookup-head :
      (k : K) (v : V) (l r : List (K × V))
      → DistinctKeys eqb (l ++ (k, v) ∷ r)
      → lookup eqb k l ≡ none
  lookup-head k v [] r d = refl
  lookup-head k v (x ∷ l) r (out, d) = elim (Bool-cases (eqb k x.0)) [
    | inl on ↦
        let e = same_key k x.0 on in let off = (lookup-left x.0 k v l r out).0 in cc (e, on, off)
    | inr off ↦ rw off (lookup-head k v l r d)
  ]

told-append :
    {A : Type 0} (b : Bool) (l xs ys : List A)
    → (l ++ (if b then xs else [])) ++ (if b then ys else []) ≡ l ++ (if b then xs ++ ys else [])
told-append true l xs ys = append_assoc l xs ys
told-append false l xs ys = append_assoc l [] []

pub Kept-trans :
    {S K V : Type 0} {c d e : Cache S K V} {gone more : List (K × V)}
    → Kept c d gone
    → Kept d e more
    → Kept c e (gone ++ more)
Kept-trans {c} {d} {e} {gone} {more} p q = record {
  listener = q.listener ∙ p.listener;
  removed = q.removed ∙ rw (p.removed, p.listener) (told-append c.listener c.removed gone more);
  max_capacity = q.max_capacity ∙ p.max_capacity;
  null_value = q.null_value ∙ p.null_value;
}

module _ {S K V : Type 0} (api : TableApi S K) (eqb : K → K → Bool) (place : K → S → Option Address)
    (room : S → ℕ) (laws : IsTableApi api eqb place room) where
  -- A key of no pair is not found.
  pub find_of_lookup :
      (c : Cache S K V) (nodes : List Address) (l : List (K × V))
      → Keeps api eqb place room laws c nodes l
      → (k : K) → lookup eqb k l ≡ none
      → find api k c ≡ none
  find_of_lookup c nodes l keeps k absent = elim (Option-cases (find api k c)) [
    | inl e ↦ e
    | inr (i, hit) ↦
        let at : none ≡ some (api.address_at i c.table) =
          sym (place_in-none eqb k nodes l absent)
          ∙ sym (keeps.placed k)
          ∙ laws.found k c.table i keeps.table hit in
        cc at
  ]

  -- `put` of a new key, where the cache is not full and the table has room.
  pub put-add_new :
      (c : Cache S K V) (nodes : List Address) (l : List (K × V))
      (keeps : Keeps api eqb place room laws c nodes l) (fuel : ℕ) (k : K) (v : V)
      → is_full c.max_capacity (size api c) ≡ false
      → lookup eqb k l ≡ none
      → api.has_more_room c.table ≡ true
      → put api (suc fuel) k v c ≡ add_new api k v c
  unfolding put
  put-add_new c nodes l keeps fuel k v space absent roomy =
      rw space (rw (find_of_lookup c nodes l keeps k absent) (rw roomy refl))
