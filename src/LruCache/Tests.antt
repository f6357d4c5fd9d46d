-- ===== src/LruCache/Tests.antt =====
-- Runs of RS485/tl/native_client/jni/utils/LruCache.h on a small table.
mod SmallTable
use qf.Prelude.{
  ℕ, zero, suc, ◌+◌, ◌*◌, ◌%◌, ◌^◌, ◌<◌, ◌≤◌, ◌≡◌, ◌↔◌, refl, sym, ap, ◌∙◌, arith, List, [], ◌∷◌,
  ◌++◌, Option, none, some, Bool, true, false, not, ◌&&◌, ◌||◌, ◌==◌, leb, if◌then◌else◌, length,
  Bool-cases, inl, inr, ==_iff,
}
use qf.Bits.Table.{elem}
use qf.LruCache.{
  Address, TableApi, Entries, Cache, Run, ok, fault, out_of_fuel, set_on_entry_removed_listener,
  detach_from_cache,
}
use qf.LruCache.Chain.{entry_of}
use qf.LruCache.Links.{relinked}
use qf.LruCache.Order.{Ordered, detach-Ordered}
use qf.LruCache.Pairs.{place_in}
use qf.LruCache.Contents.{Kept, Keeps}
use qf.LruCache.Room.{rehash-Keeps}
use qf.LruCache.Put.{put-Keeps}
use qf.LruCache.Refinement.{Refines, run_calls_lem}
use qf.LruCache.Bounds.{size-run_calls}
use qf.LruCache.Operations.{new_cache, get, put, rehash, remove, remove_oldest, clear}
use qf.LruCache.Model.{
  Answer, value, flag, count, done, Call, get_of, put_of, remove_of, remove_oldest_of, clear_of,
  size_of, listener_of, run_call, run_calls, stays_small, new_model, model_call, model_calls,
}
use qf.LruCache.Table.{IsTableApi}
use qf.LruCache.Tests.SmallTable.{
  Table, same, has_key, without_key, place_at, small_table, small_table-IsTableApi, crowded,
  crowded-IsTable,
}

abbrev red : ℕ
red = 0

abbrev green : ℕ
green = 1

abbrev blue : ℕ
blue = 2

-- A cache of at most two pairs.
abbrev calls : List (Call ℕ ℕ)
calls =
    listener_of true
    ∷ put_of red 1
    ∷ put_of green 2
    ∷ get_of red
    ∷ put_of blue 3
    ∷ get_of green
    ∷ put_of blue 4
    ∷ size_of
    ∷ remove_of blue
    ∷ put_of green 5
    ∷ remove_oldest_of
    ∷ clear_of
    ∷ []

answers :
    (model_calls same calls (new_model 2 0)).0
    ≡ done
      ∷ flag true
      ∷ flag true
      ∷ value 1
      ∷ flag true
      ∷ value 0
      ∷ flag false
      ∷ count 1
      ∷ flag true
      ∷ flag true
      ∷ flag true
      ∷ done
      ∷ []
unfolding model_calls
answers = refl

abbrev answers_of : Run (Cache Table ℕ ℕ) (List (Answer ℕ)) → List (Answer ℕ)
answers_of (ok found c) = found
answers_of fault = []
answers_of out_of_fuel = []

abbrev pairs_told : Run (Cache Table ℕ ℕ) (List (Answer ℕ)) → List (ℕ × ℕ)
pairs_told (ok found c) = c.removed
pairs_told fault = []
pairs_told out_of_fuel = []

-- The key 2, which is there, is put again in a full cache: the pair of the key 0 goes.
run_answers :
    answers_of (run_calls small_table 14 calls (new_cache small_table 2 0))
    ≡ (model_calls same calls (new_model 2 0)).0
unfolding run_calls new_cache model_calls get put remove remove_oldest clear
    set_on_entry_removed_listener
run_answers = refl

run_told :
    pairs_told (run_calls small_table 14 calls (new_cache small_table 2 0))
    ≡ (green, 2) ∷ (red, 1) ∷ (blue, 3) ∷ (green, 5) ∷ []
unfolding run_calls new_cache get put remove remove_oldest clear set_on_entry_removed_listener
run_told = refl

calls_stay_small : stays_small small_table 14 calls (new_cache small_table 2 0) ≡ true
unfolding stays_small run_call new_cache get put remove remove_oldest clear
    set_on_entry_removed_listener
calls_stay_small = refl

run_calls_lem_example :
    (d : Cache Table ℕ ℕ) × (after : List Address) × (run_calls small_table 14 calls
        (new_cache small_table 2 0)
      ≡ ok (model_calls same calls (new_model 2 0)).0 d)
    × Refines small_table same place_at
        (λ t. t.free)
        small_table-IsTableApi
        d
        after
        (model_calls same calls (new_model 2 0)).1
run_calls_lem_example =
    run_calls_lem small_table same place_at (λ t. t.free) small_table-IsTableApi calls 14 2 0
      (omega arith) calls_stay_small

size-run_calls_example :
    (d : Cache Table ℕ ℕ) × (found : List (Answer ℕ)) × (run_calls small_table 14 calls
        (new_cache small_table 2 0)
      ≡ ok found d)
    × (length d.table.keys ≤ 2)
size-run_calls_example =
    size-run_calls small_table same place_at (λ t. t.free) small_table-IsTableApi calls 14 2 0
      (omega arith) calls_stay_small (omega arith)

-- A cache of two pairs, whose table has no more room, and which is full.
abbrev two_entries : Entries ℕ ℕ
two_entries p =
    if p == 0
    then some (entry_of red 1 none (some 4))
    else if p == 4
    then some (entry_of blue 3 (some 0) none)
    else none

abbrev full_cache : Cache Table ℕ ℕ
full_cache = record {
  table = crowded;
  entries = two_entries;
  listener = true;
  removed = [];
  oldest = some 0;
  youngest = some 4;
  max_capacity = 2;
  null_value = 0;
}

abbrev two_pairs : List (ℕ × ℕ)
two_pairs = (red, 1) ∷ (blue, 3) ∷ []

full_cache-Ordered : Ordered full_cache (0 ∷ 4 ∷ []) two_pairs
unfolding elem
full_cache-Ordered = record {
  chain = (refl, (refl, tt));
  distinct = (refl, (refl, tt));
  first = refl;
  last = refl;
}

full_cache-placed : (j : ℕ) → place_at j crowded ≡ place_in same j (0 ∷ 4 ∷ []) two_pairs
full_cache-placed j = elim (Bool-cases (j == 0)) [
  | inl on ↦ let e : j ≡ 0 = (==_iff j 0).0 on in rw e refl
  | inr off ↦ rw off (elim (Bool-cases (j == 2)) [
    | inl on ↦ let e : j ≡ 2 = (==_iff j 2).0 on in rw e refl
    | inr other ↦ rw other refl
  ])
]

full_cache-Keeps :
    Keeps small_table same place_at
      (λ t. t.free)
      small_table-IsTableApi
      full_cache
      (0 ∷ 4 ∷ [])
      two_pairs
full_cache-Keeps = record {
  ordered = full_cache-Ordered;
  keys = (refl, (refl, tt));
  placed = full_cache-placed;
  sized = refl;
  table = crowded-IsTable;
}

put-Keeps_example :
    (d : Cache Table ℕ ℕ) × (after : List Address) × (put small_table 4 green 7 full_cache
      ≡ ok true d)
    × Keeps small_table same place_at
        (λ t. t.free)
        small_table-IsTableApi
        d
        after
        ((blue, 3) ∷ (green, 7) ∷ [])
    × Kept full_cache d ((red, 1) ∷ [])
put-Keeps_example =
    put-Keeps small_table same place_at (λ t. t.free) small_table-IsTableApi full_cache (0 ∷ 4 ∷ [])
      two_pairs 4 green 7 full_cache-Keeps refl (omega arith) (omega arith)

-- A cache that may hold more.
abbrev wide_cache : Cache Table ℕ ℕ
wide_cache = record full_cache { max_capacity = 5 }

wide_cache-Keeps :
    Keeps small_table same place_at
      (λ t. t.free)
      small_table-IsTableApi
      wide_cache
      (0 ∷ 4 ∷ [])
      two_pairs
unfolding elem
wide_cache-Keeps = record {
  ordered = record {
    chain = (refl, (refl, tt));
    distinct = (refl, (refl, tt));
    first = refl;
    last = refl;
  };
  keys = (refl, (refl, tt));
  placed = full_cache-placed;
  sized = refl;
  table = crowded-IsTable;
}

rehash-Keeps_example :
    (d : Cache Table ℕ ℕ) × (after : List Address) × (rehash small_table
        (put small_table 1)
        3
        6
        wide_cache
      ≡ ok tt d)
    × Keeps small_table same place_at (λ t. t.free) small_table-IsTableApi d after two_pairs
    × Kept wide_cache d []
    × (not (d.table.free == 0) ≡ true)
rehash-Keeps_example =
    rehash-Keeps small_table same place_at (λ t. t.free) small_table-IsTableApi wide_cache
      (0 ∷ 4 ∷ []) two_pairs wide_cache-Keeps 3 0 6 (omega arith) (omega arith) (omega arith) refl

detach-Ordered_example :
    (n : Entries ℕ ℕ) × (o : Option Address) × (y : Option Address) × (detach_from_cache 0
        full_cache
      ≡ ok tt (relinked full_cache n o y))
    × Ordered (relinked full_cache n o y) (4 ∷ []) ((blue, 3) ∷ [])
    × (n 0 ≡ some (entry_of red 1 none none))
    × ((q : Address) → elem q (0 ∷ 4 ∷ []) ≡ false → n q ≡ two_entries q)
detach-Ordered_example =
    detach-Ordered full_cache [] 0 (4 ∷ []) [] (red, 1) ((blue, 3) ∷ []) refl full_cache-Ordered
