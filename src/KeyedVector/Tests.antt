-- ===== src/KeyedVector/Tests.antt =====
-- `KeyedVector` of RS485/tl/native_client/jni/utils/KeyedVector.h over a sorted vector with the keys
-- `false` and `true`.
use qf.Prelude.{
  ℕ, ◌+◌, ◌≡◌, refl, sym, List, [], ◌∷◌, Option, none, some, Bool, true, false, ◌==◌, if◌then◌else◌,
}
use qf.TypeHelpers.{KeyValuePair}
use qf.KeyedVector.{
  pair, VectorApi, returned, fatal, out_of_bounds, value_for, get_elem, key_at, edit_value_at,
  replace_value_at,
}
use qf.KeyedVector.Lookup.{
  IsVectorApi, Operation, replace, edit, remove_key, Stands, apply_all, run_all, outcome_of,
  value_for-outcome_of, run_all-Stands,
}

-- What is stored for `false` and for `true`.
pub record Two : Type 0 where
  pub low : Option ℕ
  pub high : Option ℕ

abbrev two : Option ℕ → Option ℕ → Two
two a b = record { low = a; high = b }

abbrev same_key : Bool → Bool → Bool
same_key true b = b
same_key false true = false
same_key false false = true

abbrev index_in : Bool → Option ℕ → Option ℕ → Option ℕ
index_in false none b = none
index_in false (some a) b = some 0
index_in true a none = none
index_in true none (some b) = some 0
index_in true (some a) (some b) = some 1

abbrev item_in : ℕ → Option ℕ → Option ℕ → Option (KeyValuePair Bool ℕ)
item_in i none none = none
item_in i (some a) none = if i == 0 then some (pair false a) else none
item_in i none (some b) = if i == 0 then some (pair true b) else none
item_in i (some a) (some b) =
    if i == 0 then some (pair false a) else if i == 1 then some (pair true b) else none

abbrev put_in : Bool → Option ℕ → Two → Two
put_in false v s = record s { low = v }
put_in true v s = record s { high = v }

abbrev stored_count : Option ℕ → ℕ
stored_count none = 0
stored_count (some a) = 1

abbrev value_in : Two → Bool → Option ℕ
value_in s false = s.low
value_in s true = s.high

abbrev sorted : VectorApi Two Bool ℕ
sorted = record {
  size = λ s. stored_count s.low + stored_count s.high;
  is_empty = λ s. stored_count s.low + stored_count s.high == 0;
  capacity = λ s. 2;
  set_capacity = λ n s. (none, s);
  array = λ s. 0;
  clear = λ s. two none none;
  item_at = λ i s. item_in i s.low s.high;
  edit_item_at = λ i p s. put_in p.key (some p.value) s;
  index_of = λ p s. index_in p.key s.low s.high;
  add = λ p s. (some 0, put_in p.key (some p.value) s);
  remove = λ p s. (some 0, put_in p.key none s);
  remove_items_at = λ i n s. (none, s);
}

value_in-put_in :
    (key : Bool) (v : Option ℕ) (s : Two) (k : Bool)
    → value_in (put_in key v s) k ≡ (if same_key k key then v else value_in s k)
value_in-put_in false v s false = refl
value_in-put_in false v s true = refl
value_in-put_in true v s false = refl
value_in-put_in true v s true = refl

index_in-found :
    (key : Bool) (a b : Option ℕ) (i : ℕ)
    → index_in key a b ≡ some i
    → (q : KeyValuePair Bool ℕ) × (item_in i a b ≡ some q)
      × (q.key ≡ key)
      × (value_in (two a b) key ≡ some q.value)
index_in-found false none b i e = cc e
index_in-found false (some a) none i e =
    let at : 0 ≡ i = cc e in (pair false a, rw (sym at) refl, refl, refl)
index_in-found false (some a) (some b) i e =
    let at : 0 ≡ i = cc e in (pair false a, rw (sym at) refl, refl, refl)
index_in-found true none none i e = cc e
index_in-found true (some a) none i e = cc e
index_in-found true none (some b) i e =
    let at : 0 ≡ i = cc e in (pair true b, rw (sym at) refl, refl, refl)
index_in-found true (some a) (some b) i e =
    let at : 1 ≡ i = cc e in (pair true b, rw (sym at) refl, refl, refl)

index_in-missing :
    (key : Bool) (a b : Option ℕ) → index_in key a b ≡ none → value_in (two a b) key ≡ none
index_in-missing false none b e = refl
index_in-missing false (some a) b e = cc e
index_in-missing true a none e = refl
index_in-missing true none (some b) e = cc e
index_in-missing true (some a) (some b) e = cc e

sorted-IsVectorApi : IsVectorApi sorted same_key value_in
sorted-IsVectorApi = record {
  found = λ p s i e. index_in-found p.key s.low s.high i e;
  missing = λ p s e. index_in-missing p.key s.low s.high e;
  adds = λ p s k. value_in-put_in p.key (some p.value) s k;
  removes = λ p s k. value_in-put_in p.key none s k;
  edits = λ i p q s k item same. rw (sym same) (value_in-put_in p.key (some p.value) s k);
}

abbrev both : Two
both = two (some 10) (some 20)

abbrev program : List (Operation Bool ℕ)
program = replace true 30 ∷ edit true 40 ∷ remove_key false ∷ edit false 50 ∷ []

run_all-Stands_example :
    Stands value_in (run_all sorted 0 program both) (apply_all same_key program (value_in both))
run_all-Stands_example =
    run_all-Stands sorted same_key value_in sorted-IsVectorApi 0 program both (value_in both)
      (λ k. refl)

value_for-outcome_of_example : value_for sorted 0 true both ≡ outcome_of (value_in both true)
value_for-outcome_of_example =
    value_for-outcome_of sorted same_key value_in sorted-IsVectorApi 0 true both

-- The last edit is of a key that was removed.
program_run : run_all sorted 0 program both ≡ fatal
unfolding run_all
program_run = refl

replace_run : replace_value_at sorted 0 2 9 both ≡ returned (none, both)
unfolding replace_value_at
replace_run = refl

key_run : key_at sorted 0 1 both ≡ returned true
unfolding key_at
key_run = refl

elem_run : get_elem sorted 0 5 both ≡ out_of_bounds
unfolding get_elem
elem_run = refl

edit_run : edit_value_at sorted 0 0 11 both ≡ returned (two (some 11) (some 20))
unfolding edit_value_at
edit_run = refl
