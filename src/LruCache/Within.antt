-- ===== src/LruCache/Within.antt =====
-- How many pairs a cache of RS485/tl/native_client/jni/utils/LruCache.h holds after a call.
use qf.Prelude.{
  ℕ, suc, ◌≤◌, ◌≡◌, refl, ap, arith, List, [], ◌∷◌, Option, none, some, Bool, length, Bool-cases,
  Option-cases, inl, inr,
}
use qf.LruCache.Pairs.{lookup, without}
use qf.LruCache.Contents.{used, length-append}
use qf.LruCache.Removal.{without_oldest}
use qf.LruCache.Room.{trimmed, IsWithin, is_full-trimmed, length-trimmed}
use qf.LruCache.Put.{added}
use qf.LruCache.Model.{
  Call, get_of, put_of, remove_of, remove_oldest_of, clear_of, size_of, listener_of, Model,
  model_call,
}

IsWithin-fewer : (max_capacity n m : ℕ) → n ≤ m → IsWithin max_capacity m → IsWithin max_capacity n
IsWithin-fewer max_capacity n m le within = ground (arith, le, within)

module _ {K V : Type 0} (eqb : K → K → Bool) where
  length-without : (k : K) (l : List (K × V)) → length (without eqb k l) ≤ length l
  length-without k [] = ground arith
  length-without k (x ∷ l) = elim (Bool-cases (eqb k x.0)) [
    | inl here ↦ rw here (omega arith)
    | inr other ↦ rw other (omega (arith, length-without k l))
  ]

  length-used : (k : K) (l : List (K × V)) → length (used eqb k l) ≤ length l
  length-used k l = elim (Option-cases (lookup eqb k l)) [
    | inl e ↦ rw e (omega arith)
    | inr (v, e) ↦
        rw e (omega (arith, length-append (without eqb k l) ((k, v) ∷ []), shorter k l v e))
  ]
    where
      shorter :
          (k : K) (l : List (K × V)) (v : V)
          → lookup eqb k l ≡ some v
          → suc (length (without eqb k l)) ≡ length l
      shorter k [] v e = cc e
      shorter k (x ∷ l) v e = elim (Bool-cases (eqb k x.0)) [
        | inl here ↦ rw here refl
        | inr other ↦ rw other (ap suc (shorter k l v (rw other at e)))
      ]

  IsWithin-added :
      (max_capacity : ℕ) (k : K) (v : V) (old : Option V) (l : List (K × V))
      → IsWithin max_capacity (length l)
      → IsWithin max_capacity (length (added k v old (trimmed max_capacity l)))
  IsWithin-added max_capacity k v none l within =
      let t = trimmed max_capacity l in
      let space = is_full-trimmed max_capacity l within in
      rw (length-append t ((k, v) ∷ [])) (ground (arith, space))
  IsWithin-added max_capacity k v (some old) l within =
      IsWithin-fewer max_capacity (length (trimmed max_capacity l)) (length l)
        (length-trimmed max_capacity l) within

  length-added :
      (k : K) (v : V) (old : Option V) (l : List (K × V))
      → length (added k v old l) ≤ suc (length l)
  length-added k v none l = omega (arith, length-append l ((k, v) ∷ []))
  length-added k v (some old) l = omega arith

  length-without_oldest : (l : List (K × V)) → length (without_oldest l) ≤ length l
  length-without_oldest [] = omega arith
  length-without_oldest (x ∷ l) = omega arith

  -- A call leaves no more pairs than the cache may hold.
  pub model_call-IsWithin :
      (call : Call K V) (m : Model K V)
      → IsWithin m.max_capacity (length m.pairs)
      → IsWithin m.max_capacity (length (model_call eqb call m).1.pairs)
        × ((model_call eqb call m).1.max_capacity ≡ m.max_capacity)
        × (length (model_call eqb call m).1.pairs ≤ suc (length m.pairs))
  unfolding model_call
  model_call-IsWithin (get_of k) m within = (
    IsWithin-fewer m.max_capacity _ _ (length-used k m.pairs) within,
    refl,
    omega (arith, length-used k m.pairs),
  )
  model_call-IsWithin (put_of k v) m within = (
    IsWithin-added m.max_capacity k v (lookup eqb k (trimmed m.max_capacity m.pairs)) m.pairs
        within,
    refl,
    omega (
      arith,
      length-added k v (lookup eqb k (trimmed m.max_capacity m.pairs))
          (trimmed m.max_capacity m.pairs),
      length-trimmed m.max_capacity m.pairs,
    ),
  )
  model_call-IsWithin (remove_of k) m within = (
    IsWithin-fewer m.max_capacity _ _ (length-without k m.pairs) within,
    refl,
    omega (arith, length-without k m.pairs),
  )
  model_call-IsWithin remove_oldest_of m within = (
    IsWithin-fewer m.max_capacity _ _ (length-without_oldest m.pairs) within,
    refl,
    omega (arith, length-without_oldest m.pairs),
  )
  model_call-IsWithin clear_of m within =
      (IsWithin-fewer m.max_capacity 0 (length m.pairs) (omega arith) within, refl, omega arith)
  model_call-IsWithin size_of m within = (within, refl, omega arith)
  model_call-IsWithin (listener_of listener) m within = (within, refl, omega arith)
