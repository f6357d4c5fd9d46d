-- ===== src/KeyedVector.antt =====
-- `KeyedVector` and `DefaultKeyedVector` of RS485/tl/native_client/jni/utils/KeyedVector.h.
-- `SortedVector`, whose code is in libutils, is a parameter (`VectorApi`). An index that may be a
-- negative error is an `Option`.
pub mod Lookup
pub mod Tests
use qf.Prelude.{ℕ, List, [], ◌∷◌, Option, none, some, Bool, true, false, ltb, ◌==◌, if◌then◌else◌}
use qf.StrongPointer.{◌>>=◌}
use qf.TypeHelpers.{KeyValuePair}

abbrev pub pair : {K V : Type 0} → K → V → KeyValuePair K V
pair k v = record { key = k; value = v }

-- `SortedVector` of pairs; a `none` of `item_at` is an access out of bounds, and a `none` of
-- `index_of`, `add` and `remove` a negative result. `array` is the address of the storage.
pub record VectorApi (S K V : Type 0) : Type 0 where
  pub size : S → ℕ
  pub is_empty : S → Bool
  pub capacity : S → ℕ
  pub set_capacity : ℕ → S → Option ℕ × S
  pub array : S → ℕ
  pub clear : S → S
  pub item_at : ℕ → S → Option (KeyValuePair K V)
  pub edit_item_at : ℕ → KeyValuePair K V → S → S
  pub index_of : KeyValuePair K V → S → Option ℕ
  pub add : KeyValuePair K V → S → Option ℕ × S
  pub remove : KeyValuePair K V → S → Option ℕ × S
  pub remove_items_at : ℕ → ℕ → S → Option ℕ × S

-- What a call returns, the `abort` of `LOG_ALWAYS_FATAL_IF`, or an access out of bounds.
pub data Outcome (A : Type 0) : Type 0 where
  returned : A → Outcome A
  fatal : Outcome A
  out_of_bounds : Outcome A

abbrev pub in_bounds : {A B : Type 0} → Option A → (A → B) → Outcome B
in_bounds none f = out_of_bounds
in_bounds (some a) f = returned (f a)

-- `unset` is the value of `key_value_pair_t(key)`, which its constructor does not set.
module _ {S K V : Type 0} (api : VectorApi S K V) (unset : V) where
  abbrev pub clear : S → S
  clear m_vector = api.clear m_vector

  abbrev pub size : S → ℕ
  size m_vector = api.size m_vector

  abbrev pub is_empty : S → Bool
  is_empty m_vector = api.is_empty m_vector

  abbrev pub capacity : S → ℕ
  capacity m_vector = api.capacity m_vector

  abbrev pub set_capacity : ℕ → S → Option ℕ × S
  set_capacity n m_vector = api.set_capacity n m_vector

  unfoldable pub is_identical_to : S → S → Bool
  is_identical_to m_vector rhs = api.array m_vector == api.array rhs

  unfoldable pub index_of_key : K → S → Option ℕ
  index_of_key key m_vector = api.index_of (pair key unset) m_vector

  unfoldable pub value_at : ℕ → S → Outcome V
  value_at index m_vector = in_bounds (api.item_at index m_vector) (λ p. p.value)

  unfoldable pub get_elem : ℕ → S → Outcome V
  unfolding value_at
  get_elem index m_vector = value_at index m_vector

  unfoldable pub key_at : ℕ → S → Outcome K
  key_at index m_vector = in_bounds (api.item_at index m_vector) (λ p. p.key)

  abbrev value_found : Option ℕ → S → Outcome V
  value_found none m_vector = fatal
  value_found (some i) m_vector = in_bounds (api.item_at i m_vector) (λ p. p.value)

  unfoldable pub value_for : K → S → Outcome V
  unfolding index_of_key
  value_for key m_vector = value_found (index_of_key key m_vector) m_vector

  -- A write of `value` through the reference that the call returns.
  unfoldable pub edit_value_at : ℕ → V → S → Outcome S
  edit_value_at index value m_vector =
      in_bounds (api.item_at index m_vector)
        (λ p. api.edit_item_at index (pair p.key value) m_vector)

  abbrev value_edited : Option ℕ → V → S → Outcome S
  value_edited none value m_vector = fatal
  value_edited (some i) value m_vector =
      in_bounds (api.item_at i m_vector) (λ p. api.edit_item_at i (pair p.key value) m_vector)

  unfoldable pub edit_value_for : K → V → S → Outcome S
  unfolding index_of_key
  edit_value_for key value m_vector = value_edited (index_of_key key m_vector) value m_vector

  unfoldable pub add : K → V → S → Option ℕ × S
  add key value m_vector = api.add (pair key value) m_vector

  unfoldable pub replace_value_for : K → V → S → Option ℕ × S
  replace_value_for key value m_vector =
      let p = pair key value in let (removed, rest) = api.remove p m_vector in api.add p rest

  -- `BAD_INDEX` is `none`.
  unfoldable pub replace_value_at : ℕ → V → S → Outcome (Option ℕ × S)
  replace_value_at index item m_vector =
      if ltb index (api.size m_vector)
      then in_bounds (api.item_at index m_vector)
          (λ p. (some index, api.edit_item_at index (pair p.key item) m_vector))
      else returned (none, m_vector)

  unfoldable pub remove_item : K → S → Option ℕ × S
  remove_item key m_vector = api.remove (pair key unset) m_vector

  abbrev pub remove_items_at : ℕ → ℕ → S → Option ℕ × S
  remove_items_at index count m_vector = api.remove_items_at index count m_vector

  abbrev value_or_default : V → Option ℕ → S → Outcome V
  value_or_default m_default none m_vector = returned m_default
  value_or_default m_default (some i) m_vector = in_bounds (api.item_at i m_vector) (λ p. p.value)

  -- `valueFor` of `DefaultKeyedVector`.
  unfoldable pub value_for_or_default : V → K → S → Outcome V
  unfolding index_of_key
  value_for_or_default m_default key m_vector =
      value_or_default m_default (index_of_key key m_vector) m_vector
