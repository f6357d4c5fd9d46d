-- ===== src/LruCache/Refinement.antt =====
-- A cache of RS485/tl/native_client/jni/utils/LruCache.h against the sequence of pairs that its
-- clients see.
use mathlib.Core.Path.{subst}
use qf.Prelude.{
  ℕ, ◌+◌, ◌^◌, ◌<◌, ◌≡◌, refl, ◌∙◌, arith, List, [], ◌∷◌, Option, Bool, true, false, ltb, ◌&&◌,
  length, Bool-cases, inl, inr,
}
use qf.LruCache.{Address, TableApi, Cache, ok, set_on_entry_removed_listener}
use qf.LruCache.Operations.{new_cache, put}
use qf.LruCache.Table.{IsTableApi}
use qf.LruCache.Contents.{Kept, Keeps, get-Keeps}
use qf.LruCache.Removal.{remove-Keeps, remove_oldest-Keeps}
use qf.LruCache.Pairs.{lookup}
use qf.LruCache.Room.{IsWithin, trimmed, evicted}
use qf.LruCache.Put.{put-Keeps, is_none, added}
use qf.LruCache.Clear.{new_cache-Keeps, clear-Keeps}
use qf.LruCache.Model.{
  Call, get_of, put_of, remove_of, remove_oldest_of, clear_of, size_of, listener_of, run_call,
  run_calls, stays_small, Answer, Model, new_model, becomes, model_call, model_calls,
}
use qf.LruCache.Within.{model_call-IsWithin}

module _ {S K V : Type 0} (api : TableApi S K) (eqb : K → K → Bool) (place : K → S → Option Address)
    (room : S → ℕ) (laws : IsTableApi api eqb place room) where
  -- The cache, whose entries are `nodes`, is seen as the model.
  pub record Refines (c : Cache S K V) (nodes : List Address) (m : Model K V) : Type 0 where
    pub keeps : Keeps api eqb place room laws c nodes m.pairs
    pub listener : c.listener ≡ m.listener
    pub removed : c.removed ≡ m.told
    pub max_capacity : c.max_capacity ≡ m.max_capacity
    pub null_value : c.null_value ≡ m.null_value

  becomes-Refines :
      (c d : Cache S K V) (nodes after : List Address) (m : Model K V) (l gone : List (K × V))
      → Refines c nodes m
      → Keeps api eqb place room laws d after l
      → Kept c d gone
      → Refines d after (becomes m l gone)
  becomes-Refines c d nodes after m l gone h keeps kept = record {
    keeps = keeps;
    listener = kept.listener ∙ h.listener;
    removed = kept.removed ∙ rw (h.removed, h.listener) refl;
    max_capacity = kept.max_capacity ∙ h.max_capacity;
    null_value = kept.null_value ∙ h.null_value;
  }

  put-at :
      (c : Cache S K V) (nodes : List Address) (l : List (K × V)) (fuel : ℕ) (k : K) (v : V) (n : ℕ)
      → c.max_capacity ≡ n
      → Keeps api eqb place room laws c nodes l
      → IsWithin n (length l)
      → length l + 1 < fuel
      → api.capacity c.table < 2 ^ 30
      → (d : Cache S K V) × (after : List Address) × (put api fuel k v c
          ≡ ok (is_none (lookup eqb k (trimmed n l))) d)
        × Keeps api eqb place room laws d after
            (added k v (lookup eqb k (trimmed n l)) (trimmed n l))
        × Kept c d (evicted n l)
  put-at c nodes l fuel k v n same keeps within enough small =
      subst
        (λ n.
          (d : Cache S K V) × (after : List Address) × (put api fuel k v c
            ≡ ok (is_none (lookup eqb k (trimmed n l))) d)
          × Keeps api eqb place room laws d after
              (added k v (lookup eqb k (trimmed n l)) (trimmed n l))
          × Kept c d (evicted n l))
        same
        (put-Keeps api eqb place room laws c nodes l fuel k v keeps (rw same within) enough small)

  -- A call answers as the model does, and leaves a cache that is seen as the model after it.
  pub run_call-model_call :
      (call : Call K V) (fuel : ℕ) (c : Cache S K V) (nodes : List Address) (m : Model K V)
      → Refines c nodes m
      → IsWithin m.max_capacity (length m.pairs)
      → length m.pairs + 1 < fuel
      → api.capacity c.table < 2 ^ 30
      → (d : Cache S K V) × (after : List Address) × (run_call api fuel call c
          ≡ ok (model_call eqb call m).0 d)
        × Refines d after (model_call eqb call m).1
  unfolding run_call model_call set_on_entry_removed_listener
  run_call-model_call (get_of k) fuel c nodes m h within enough small =
      let (d, after, runs, keeps, kept) =
        get-Keeps api eqb place room laws c nodes m.pairs h.keeps k in
      (d, after, rw runs (rw h.null_value refl), becomes-Refines c d nodes after m _ _ h keeps kept)
  run_call-model_call (put_of k v) fuel c nodes m h within enough small =
      let (d, after, runs, keeps, kept) =
        put-at c nodes m.pairs fuel k v m.max_capacity h.max_capacity h.keeps within enough small in
      (d, after, rw runs refl, becomes-Refines c d nodes after m _ _ h keeps kept)
  run_call-model_call (remove_of k) fuel c nodes m h within enough small =
      let (d, after, runs, keeps, kept, same_capacity) =
        remove-Keeps api eqb place room laws c nodes m.pairs h.keeps k in
      (d, after, rw runs refl, becomes-Refines c d nodes after m _ _ h keeps kept)
  run_call-model_call remove_oldest_of fuel c nodes m h within enough small =
      let (d, after, runs, keeps, kept, same_capacity) =
        remove_oldest-Keeps api eqb place room laws c nodes m.pairs h.keeps in
      (d, after, rw runs refl, becomes-Refines c d nodes after m _ _ h keeps kept)
  run_call-model_call clear_of fuel c nodes m h within enough small =
      let (d, runs, keeps, kept) =
        clear-Keeps api eqb place room laws c nodes m.pairs fuel h.keeps (omega (arith, enough)) in
      (d, [], rw runs refl, becomes-Refines c d nodes [] m _ _ h keeps kept)
  run_call-model_call size_of fuel c nodes m h within enough small =
      (c, nodes, rw h.keeps.sized refl, h)
  run_call-model_call (listener_of listener) fuel c nodes m h within enough small = (
    record c { listener = listener },
    nodes,
    refl,
    record {
      keeps = record {
        ordered = record {
          chain = h.keeps.ordered.chain;
          distinct = h.keeps.ordered.distinct;
          first = h.keeps.ordered.first;
          last = h.keeps.ordered.last;
        };
        keys = h.keeps.keys;
        placed = h.keeps.placed;
        sized = h.keeps.sized;
        table = h.keeps.table;
      };
      listener = refl;
      removed = h.removed;
      max_capacity = h.max_capacity;
      null_value = h.null_value;
    },
  )

  pub stays_small-step :
      (call : Call K V) (calls : List (Call K V)) (fuel : ℕ) (c d : Cache S K V) (answer : Answer V)
      → run_call api fuel call c ≡ ok answer d
      → stays_small api fuel (call ∷ calls) c ≡ true
      → (api.capacity c.table < 2 ^ 30) × (stays_small api fuel calls d ≡ true)
  unfolding stays_small
  stays_small-step call calls fuel c d answer runs h =
      let h' : (ltb (api.capacity c.table) (2 ^ 30) && stays_small api fuel calls d) ≡ true =
        rw runs at h in
      (ground (arith, h'), ground (arith, h'))

  pub stays_small-first :
      (call : Call K V) (calls : List (Call K V)) (fuel : ℕ) (c : Cache S K V)
      → stays_small api fuel (call ∷ calls) c ≡ true
      → api.capacity c.table < 2 ^ 30
  unfolding stays_small
  stays_small-first call calls fuel c h = elim (Bool-cases (ltb (api.capacity c.table) (2 ^ 30))) [
    | inl on ↦ ground (arith, on)
    | inr off ↦ let h' : false ≡ true = rw off at h in cc h'
  ]

  run_calls-model_calls :
      (calls : List (Call K V)) (fuel : ℕ) (c : Cache S K V) (nodes : List Address) (m : Model K V)
      → Refines c nodes m
      → IsWithin m.max_capacity (length m.pairs)
      → length m.pairs + length calls + 1 < fuel
      → stays_small api fuel calls c ≡ true
      → (d : Cache S K V) × (after : List Address) × (run_calls api fuel calls c
          ≡ ok (model_calls eqb calls m).0 d)
        × Refines d after (model_calls eqb calls m).1
  unfolding run_calls model_calls
  run_calls-model_calls [] fuel c nodes m h within enough small = (c, nodes, refl, h)
  run_calls-model_calls (call ∷ calls) fuel c nodes m h within enough small =
      let (d, mid, runs, h') =
        run_call-model_call call fuel c nodes m h within (omega (arith, enough))
          (stays_small-first call calls fuel c small) in
      let (first, rest) = stays_small-step call calls fuel c d _ runs small in
      let (within', same, more) = model_call-IsWithin eqb call m within in
      let (e, after, runs', h'') =
        run_calls-model_calls calls fuel d mid (model_call eqb call m).1 h' (rw same within')
          (omega (arith, enough, more)) rest in
      (e, after, rw runs (rw runs' refl), h'')

  pub new_cache-Refines :
      (max_capacity : ℕ) (null_value : V)
      → Refines (new_cache api max_capacity null_value) [] (new_model max_capacity null_value)
  unfolding new_cache
  new_cache-Refines max_capacity null_value = record {
    keeps = new_cache-Keeps api eqb place room laws max_capacity null_value;
    listener = refl;
    removed = refl;
    max_capacity = refl;
    null_value = refl;
  }

  -- Over a table that finds, adds and removes entries as `IsTableApi` says, a new cache answers every
  -- sequence of calls before each of which the capacity of the table is below 2 ^ 30, without a fault, as the sequence of its pairs does, and its listener is told
  -- of the same pairs. The fuel of each call is enough if it is above the number of calls and one.
  pub run_calls_lem :
      (calls : List (Call K V)) (fuel max_capacity : ℕ) (null_value : V)
      → length calls + 1 < fuel
      → stays_small api fuel calls (new_cache api max_capacity null_value) ≡ true
      → (d : Cache S K V) × (after : List Address) × (run_calls api fuel calls
            (new_cache api max_capacity null_value)
          ≡ ok (model_calls eqb calls (new_model max_capacity null_value)).0 d)
        × Refines d after (model_calls eqb calls (new_model max_capacity null_value)).1
  unfolding new_cache
  run_calls_lem calls fuel max_capacity null_value enough small =
      run_calls-model_calls calls fuel (new_cache api max_capacity null_value) []
        (new_model max_capacity null_value) (new_cache-Refines max_capacity null_value)
        (ground arith) (omega (arith, enough)) small
