-- ===== src/KeyedVector/Lookup.antt =====
-- `KeyedVector` of RS485/tl/native_client/jni/utils/KeyedVector.h as a map.
use qf.Prelude.{
  ℕ, ◌≡◌, refl, sym, ◌∙◌, List, [], ◌∷◌, Option, none, some, Bool, true, false, if◌then◌else◌,
  Option-cases, inl, inr,
}
use qf.TypeHelpers.{KeyValuePair}
use qf.KeyedVector.{
  pair, VectorApi, Outcome, returned, fatal, out_of_bounds, index_of_key, value_for, edit_value_for,
  add, replace_value_for, remove_item, value_for_or_default,
}

-- What a call of `SortedVector` finds and changes, for a vector that stands for the map `view`.
-- `eqb` is the equality of keys, neither of which is less.
pub record IsVectorApi {S K V : Type 0} (api : VectorApi S K V) (eqb : K → K → Bool)
    (view : S → K → Option V) : Type 0 where
  pub found :
      (p : KeyValuePair K V) (s : S) (i : ℕ)
      → api.index_of p s ≡ some i
      → (q : KeyValuePair K V) × (api.item_at i s ≡ some q)
        × (q.key ≡ p.key)
        × (view s p.key ≡ some q.value)
  pub missing : (p : KeyValuePair K V) (s : S) → api.index_of p s ≡ none → view s p.key ≡ none
  pub adds :
      (p : KeyValuePair K V) (s : S) (k : K)
      → view (api.add p s).1 k ≡ (if eqb k p.key then some p.value else view s k)
  pub removes :
      (p : KeyValuePair K V) (s : S) (k : K)
      → view (api.remove p s).1 k ≡ (if eqb k p.key then none else view s k)
  pub edits :
      (i : ℕ) (p q : KeyValuePair K V) (s : S) (k : K)
      → api.item_at i s ≡ some q
      → p.key ≡ q.key
      → view (api.edit_item_at i p s) k ≡ (if eqb k q.key then some p.value else view s k)

pub data Operation (K V : Type 0) : Type 0 where
  add_item : K → V → Operation K V
  replace : K → V → Operation K V
  edit : K → V → Operation K V
  remove_key : K → Operation K V

abbrev pub and_then : {A B : Type 0} → Outcome A → (A → Outcome B) → Outcome B
and_then (returned a) f = f a
and_then fatal f = fatal
and_then out_of_bounds f = out_of_bounds

-- The operations on a map.
module _ {K V : Type 0} (eqb : K → K → Bool) where
  abbrev pub stored : K → Option V → (K → Option V) → K → Option V
  stored key v f k = if eqb k key then v else f k

  abbrev pub edited : Option V → K → V → (K → Option V) → Outcome (K → Option V)
  edited none key v f = fatal
  edited (some u) key v f = returned (stored key (some v) f)

  abbrev pub apply : Operation K V → (K → Option V) → Outcome (K → Option V)
  apply (add_item key v) f = returned (stored key (some v) f)
  apply (replace key v) f = returned (stored key (some v) f)
  apply (edit key v) f = edited (f key) key v f
  apply (remove_key key) f = returned (stored key none f)

  abbrev pub apply_all : List (Operation K V) → (K → Option V) → Outcome (K → Option V)
  apply_all [] f = returned f
  apply_all (op ∷ ops) f = and_then (apply op f) (apply_all ops)

abbrev pub outcome_of : {V : Type 0} → Option V → Outcome V
outcome_of none = fatal
outcome_of (some v) = returned v

module _ {S K V : Type 0} (api : VectorApi S K V) (unset : V) where
  unfoldable pub run : Operation K V → S → Outcome S
  unfolding add replace_value_for edit_value_for remove_item
  run (add_item key v) s = returned (add api unset key v s).1
  run (replace key v) s = returned (replace_value_for api unset key v s).1
  run (edit key v) s = edit_value_for api unset key v s
  run (remove_key key) s = returned (remove_item api unset key s).1

  unfoldable pub run_all : List (Operation K V) → S → Outcome S
  unfolding run
  run_all [] s = returned s
  run_all (op ∷ ops) s = and_then (run op s) (run_all ops)

-- Two outcomes are the same, up to the map that a vector stands for.
abbrev pub Stands :
    {S K V : Type 0} → (S → K → Option V) → Outcome S → Outcome (K → Option V) → Type 0
Stands view (returned s) (returned f) = (k : _) → view s k ≡ f k
Stands view fatal fatal = Unit {0}
Stands view (returned s) fatal = ⊥
Stands view (returned s) out_of_bounds = ⊥
Stands view fatal (returned f) = ⊥
Stands view fatal out_of_bounds = ⊥
Stands view out_of_bounds r = ⊥

twice :
    {A : Type 0} (b : Bool) (x y : Option A)
    → (if b then x else (if b then none else y)) ≡ (if b then x else y)
twice true x y = refl
twice false x y = refl

module _ {S K V : Type 0} (api : VectorApi S K V) (eqb : K → K → Bool) (view : S → K → Option V)
    (laws : IsVectorApi api eqb view) (unset : V) where
  -- `valueFor` returns the value of a key in the map, and aborts for a key that is not there.
  pub value_for-outcome_of : (key : K) (s : S) → value_for api unset key s ≡ outcome_of (view s key)
  unfolding value_for index_of_key
  value_for-outcome_of key s = elim (Option-cases (api.index_of (pair key unset) s)) [
    | inl absent ↦ rw (absent, laws.missing (pair key unset) s absent) refl
    | inr (i, at) ↦
        let (q, item, same, value) = laws.found (pair key unset) s i at in rw (at, item, value) refl
  ]

  edit-Stands :
      (key : K) (v : V) (s : S) (f : K → Option V)
      → ((k : K) → view s k ≡ f k)
      → Stands view (edit_value_for api unset key v s) (edited eqb (f key) key v f)
  unfolding edit_value_for index_of_key
  edit-Stands key v s f same = elim (Option-cases (api.index_of (pair key unset) s)) [
    | inl absent ↦
        let gone : f key ≡ none = sym (same key) ∙ laws.missing (pair key unset) s absent in
        rw (absent, gone) tt
    | inr (i, at) ↦
        let (q, item, key_same, value) = laws.found (pair key unset) s i at in
        let here : f key ≡ some q.value = sym (same key) ∙ value in
        rw (at, item, here)
          (λ k. laws.edits i (pair q.key v) q s k item refl ∙ rw (key_same, same k) refl)
  ]

  run-Stands :
      (op : Operation K V) (s : S) (f : K → Option V)
      → ((k : K) → view s k ≡ f k)
      → Stands view (run api unset op s) (apply eqb op f)
  unfolding run add replace_value_for remove_item
  run-Stands (add_item key v) s f same = λ k. laws.adds (pair key v) s k ∙ rw (same k) refl
  run-Stands (replace key v) s f same = λ k.
      laws.adds (pair key v) (api.remove (pair key v) s).1 k
      ∙ rw (laws.removes (pair key v) s k, same k) (twice (eqb k key) (some v) (f k))
  run-Stands (edit key v) s f same = edit-Stands key v s f same
  run-Stands (remove_key key) s f same = λ k. laws.removes (pair key unset) s k ∙ rw (same k) refl

  and_then-Stands :
      (r : Outcome S) (q : Outcome (K → Option V)) (g : S → Outcome S)
      (h : (K → Option V) → Outcome (K → Option V))
      → Stands view r q
      → ((s : S) (f : K → Option V) → ((k : K) → view s k ≡ f k) → Stands view (g s) (h f))
      → Stands view (and_then r g) (and_then q h)
  and_then-Stands (returned s) (returned f) g h same next = next s f same
  and_then-Stands fatal fatal g h same next = tt
  and_then-Stands (returned s) fatal g h same next = absurd same
  and_then-Stands (returned s) out_of_bounds g h same next = absurd same
  and_then-Stands fatal (returned f) g h same next = absurd same
  and_then-Stands fatal out_of_bounds g h same next = absurd same
  and_then-Stands out_of_bounds q g h same next = absurd same

  -- A sequence of `add`, `replaceValueFor`, writes through `editValueFor` and `removeItem` on a vector
  -- that stands for a map ends on a vector that stands for the map that the same sequence makes of
  -- it, and aborts exactly where a key that is edited is not there; no call leaves the bounds.
  pub run_all-Stands :
      (ops : List (Operation K V)) (s : S) (f : K → Option V)
      → ((k : K) → view s k ≡ f k)
      → Stands view (run_all api unset ops s) (apply_all eqb ops f)
  unfolding run_all
  run_all-Stands [] s f same = same
  run_all-Stands (op ∷ ops) s f same =
      and_then-Stands (run api unset op s) (apply eqb op f) (run_all api unset ops)
        (apply_all eqb ops) (run-Stands op s f same) (λ s' f' same'. run_all-Stands ops s' f' same')

  abbrev pub or_default : Option V → V → V
  or_default none d = d
  or_default (some v) d = v

  -- `valueFor` of `DefaultKeyedVector` returns the value of a key in the map, and the default for a
  -- key that is not there.
  pub value_for_or_default-or_default :
      (d : V) (key : K) (s : S)
      → value_for_or_default api unset d key s ≡ returned (or_default (view s key) d)
  unfolding value_for_or_default index_of_key
  value_for_or_default-or_default d key s = elim (Option-cases (api.index_of (pair key unset) s)) [
    | inl absent ↦ rw (absent, laws.missing (pair key unset) s absent) refl
    | inr (i, at) ↦
        let (q, item, same, value) = laws.found (pair key unset) s i at in rw (at, item, value) refl
  ]
