-- ===== src/LruCache/Model.antt =====
-- What a client of RS485/tl/native_client/jni/utils/LruCache.h sees of it: a sequence of pairs, the
-- one whose use is longest ago first, and what the listener has been told.
use qf.Prelude.{ℕ, ◌^◌, ◌&&◌, true, ltb, List, [], ◌∷◌, ◌++◌, Bool, false, if◌then◌else◌, length}
use qf.LruCache.{
  TableApi, Cache, ok, fault, out_of_fuel, Cmd, ◌>>=◌, ◌>>◌, pure, set_on_entry_removed_listener,
}
use qf.LruCache.Operations.{get, put, remove, remove_oldest, clear, size}
use qf.LruCache.Pairs.{lookup, without}
use qf.LruCache.Contents.{value_or, used}
use qf.LruCache.Removal.{pair_of, is_some, without_oldest, oldest_of, is_nonempty}
use qf.LruCache.Room.{trimmed, evicted}
use qf.LruCache.Put.{is_none, added}

pub data Call (K V : Type 0) : Type 0 where
  get_of : K → Call K V
  put_of : K → V → Call K V
  remove_of : K → Call K V
  remove_oldest_of : Call K V
  clear_of : Call K V
  size_of : Call K V
  listener_of : Bool → Call K V

pub data Answer (V : Type 0) : Type 0 where
  value : V → Answer V
  flag : Bool → Answer V
  count : ℕ → Answer V
  done : Answer V

module _ {S K V : Type 0} (api : TableApi S K) (fuel : ℕ) where
  unfoldable pub run_call : Call K V → Cmd (Cache S K V) (Answer V)
  run_call (get_of k) = do v ← get api k; pure (value v)
  run_call (put_of k v) = do b ← put api fuel k v; pure (flag b)
  run_call (remove_of k) = do b ← remove api k; pure (flag b)
  run_call remove_oldest_of = do b ← remove_oldest api; pure (flag b)
  run_call clear_of = do clear api fuel; pure done
  run_call size_of = λ c. ok (count (size api c)) c
  run_call (listener_of listener) = do set_on_entry_removed_listener listener; pure done

  unfoldable pub run_calls : List (Call K V) → Cmd (Cache S K V) (List (Answer V))
  unfolding run_call
  run_calls [] = pure []
  run_calls (call ∷ calls) = do
    answer ← run_call call
    answers ← run_calls calls
    pure (answer ∷ answers)

module _ {S K V : Type 0} (api : TableApi S K) (fuel : ℕ) where
  -- The capacity of the table is below 2 ^ 30 before each call.
  unfoldable pub stays_small : List (Call K V) → Cache S K V → Bool
  unfolding run_call
  stays_small [] c = true
  stays_small (call ∷ calls) c =
      ltb (api.capacity c.table) (2 ^ 30) && elim (run_call api fuel call c) [
        | ok answer d ↦ stays_small calls d
        | fault ↦ true
        | out_of_fuel ↦ true
      ]

pub record Model (K V : Type 0) : Type 0 where
  pub pairs : List (K × V)
  pub listener : Bool
  pub told : List (K × V)
  pub max_capacity : ℕ
  pub null_value : V

abbrev pub new_model : {K V : Type 0} → ℕ → V → Model K V
new_model max_capacity null_value = record {
  pairs = [];
  listener = false;
  told = [];
  max_capacity = max_capacity;
  null_value = null_value;
}

-- The pairs become `l`, and the listener, if there is one, is told of `gone`.
abbrev pub becomes : {K V : Type 0} → Model K V → List (K × V) → List (K × V) → Model K V
becomes m l gone = record m { pairs = l; told = m.told ++ (if m.listener then gone else []) }

module _ {K V : Type 0} (eqb : K → K → Bool) where
  unfoldable pub model_call : Call K V → Model K V → Answer V × Model K V
  model_call (get_of k) m =
      (value (value_or m.null_value (lookup eqb k m.pairs)), becomes m (used eqb k m.pairs) [])
  model_call (put_of k v) m =
      let l = trimmed m.max_capacity m.pairs in
      let old = lookup eqb k l in
      (flag (is_none old), becomes m (added k v old l) (evicted m.max_capacity m.pairs))
  model_call (remove_of k) m =
      let old = lookup eqb k m.pairs in
      (flag (is_some old), becomes m (without eqb k m.pairs) (pair_of k old))
  model_call remove_oldest_of m =
      (flag (is_nonempty m.pairs), becomes m (without_oldest m.pairs) (oldest_of m.pairs))
  model_call clear_of m = (done, becomes m [] m.pairs)
  model_call size_of m = (count (length m.pairs), m)
  model_call (listener_of listener) m = (done, record m { listener = listener })

  unfoldable pub model_calls : List (Call K V) → Model K V → List (Answer V) × Model K V
  unfolding model_call
  model_calls [] m = ([], m)
  model_calls (call ∷ calls) m =
      let (answer, m1) = model_call call m in
      let (answers, m2) = model_calls calls m1 in (answer ∷ answers, m2)
