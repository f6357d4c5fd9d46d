-- ===== src/LruCache/Operations.antt =====
-- The operations of `LruCache` of RS485/tl/native_client/jni/utils/LruCache.h.
use qf.Prelude.{
  ℕ, zero, suc, ◌*◌, ◌%◌, ◌^◌, [], Option, none, some, Bool, true, false, not, ◌&&◌, ◌==◌, leb,
  if◌then◌else◌,
}
use qf.LruCache.{
  Address, TableApi, new_entry, Entries, Cache, ok, out_of_fuel, map_option, write, Cmd, pure,
  ◌>>=◌, ◌>>◌, load, set_oldest, set_youngest, attach_to_cache, detach_from_cache, notify,
}

-- `kUnlimitedCapacity` is 0.
abbrev pub is_full : ℕ → ℕ → Bool
is_full max_capacity size = not (max_capacity == 0) && leb max_capacity size

module _ {S K V : Type 0} (api : TableApi S K) where
  unfoldable pub new_cache : ℕ → V → Cache S K V
  new_cache max_capacity null_value = record {
    table = api.first_table;
    entries = λ p. none;
    listener = false;
    removed = [];
    oldest = none;
    youngest = none;
    max_capacity = max_capacity;
    null_value = null_value;
  }

  abbrev pub size : Cache S K V → ℕ
  size c = api.size c.table

  abbrev pub find : K → Cache S K V → Option ℕ
  find k c = api.find (api.hash_type k) k c.table

  abbrev pub got : Option ℕ → Cmd (Cache S K V) V
  got none c = ok c.null_value c
  got (some i) c =
      let p = api.address_at i c.table in
      (do detach_from_cache p; attach_to_cache p; entry ← load p; pure entry.value) c

  unfoldable pub get : K → Cmd (Cache S K V) V
  unfolding detach_from_cache attach_to_cache load
  get k c = got (find k c) c

  -- The entry is destroyed with its bucket.
  abbrev pub remove_bucket : ℕ → Cmd (Cache S K V) (Unit {0})
  remove_bucket i c = ok tt (record c {
    table = api.remove_at i c.table;
    entries = write (api.address_at i c.table) none c.entries;
  })

  abbrev pub removed_at : Option ℕ → Cmd (Cache S K V) Bool
  removed_at none c = ok false c
  removed_at (some i) c =
      let p = api.address_at i c.table in
      (do
        entry ← load p
        notify entry.key entry.value
        detach_from_cache p
        remove_bucket i
        pure true)
        c

  unfoldable pub remove : K → Cmd (Cache S K V) Bool
  unfolding detach_from_cache load
  remove k c = removed_at (find k c) c

  abbrev pub remove_first : Option Address → Cmd (Cache S K V) Bool
  remove_first none = pure false
  remove_first (some p) = do entry ← load p; remove entry.key

  unfoldable pub remove_oldest : Cmd (Cache S K V) Bool
  unfolding remove load
  remove_oldest c = remove_first c.oldest c

  -- The loop of `clear` over the entries, with fuel for its rounds.
  abbrev pub notify_from : ℕ → Option Address → Cmd (Cache S K V) (Unit {0})
  notify_from zero p = λ c. out_of_fuel
  notify_from (suc fuel) none = pure tt
  notify_from (suc fuel) (some p) = do
    entry ← load p
    notify entry.key entry.value
    notify_from fuel entry.child

  abbrev pub notify_all : ℕ → Bool → Cmd (Cache S K V) (Unit {0})
  notify_all fuel false = pure tt
  notify_all fuel true = λ c. notify_from fuel c.oldest c

  -- The entries that the buckets of a table hold are destroyed.
  abbrev pub destroyed : S → Entries K V → Entries K V
  destroyed t m p = if api.owns t p then none else m p

  abbrev pub clear_table : Cmd (Cache S K V) (Unit {0})
  clear_table c =
      ok tt (record c { table = api.clear c.table; entries = destroyed c.table c.entries })

  unfoldable pub clear : ℕ → Cmd (Cache S K V) (Unit {0})
  unfolding load
  clear fuel c = (do notify_all fuel c.listener; set_youngest none; set_oldest none; clear_table) c

  -- The loop of `rehash`, over the entries of the old table.
  abbrev pub put_from :
      (K → V → Cmd (Cache S K V) Bool) → ℕ → Option Address → Cmd (Cache S K V) (Unit {0})
  put_from put_entry zero p = λ c. out_of_fuel
  put_from put_entry (suc fuel) none = pure tt
  put_from put_entry (suc fuel) (some p) = do
    entry ← load p
    added ← put_entry entry.key entry.value
    entry ← load p
    put_from put_entry fuel entry.child

  abbrev pub set_table : S → Cmd (Cache S K V) (Unit {0})
  set_table t c = ok tt (record c { table = t })

  -- The old table is destroyed at the end, with its entries.
  abbrev pub destroy_table : S → Cmd (Cache S K V) (Unit {0})
  destroy_table t c = ok tt (record c { entries = destroyed t c.entries })

  unfoldable pub rehash : (K → V → Cmd (Cache S K V) Bool) → ℕ → ℕ → Cmd (Cache S K V) (Unit {0})
  unfolding load
  rehash put_entry fuel new_capacity c =
      let old_table = c.table in
      let first = c.oldest in
      (do
        set_oldest none
        set_youngest none
        set_table (api.new_table new_capacity old_table)
        put_from put_entry fuel first
        destroy_table old_table)
        c

  abbrev pub make_room : Cmd (Cache S K V) (Unit {0})
  make_room c = if is_full c.max_capacity (size c) then (remove_oldest >> pure tt) c else ok tt c

  abbrev pub grow : (K → V → Cmd (Cache S K V) Bool) → ℕ → Bool → Cmd (Cache S K V) (Unit {0})
  grow put_entry fuel true = pure tt
  grow put_entry fuel false = λ c. rehash put_entry fuel (api.capacity c.table * 2 % 2 ^ 32) c

  -- `mTable->add`, which copies the entry into its bucket, and its address there.
  abbrev pub add_entry : K → V → Cmd (Cache S K V) Address
  add_entry k v c =
      let (i, t) = api.add (api.hash_type k) k c.table in
      let p = api.address_at i t in
      ok p (record c { table = t; entries = write p (some (new_entry k v)) c.entries })

  abbrev pub put_found :
      (K → V → Cmd (Cache S K V) Bool) → ℕ → K → V → Option ℕ → Cmd (Cache S K V) Bool
  put_found put_entry fuel k v (some i) = pure false
  put_found put_entry fuel k v none = do
    λ c. grow put_entry fuel (api.has_more_room c.table) c
    p ← add_entry k v
    attach_to_cache p
    pure true

  unfoldable pub put : ℕ → K → V → Cmd (Cache S K V) Bool
  unfolding rehash remove_oldest attach_to_cache
  put zero k v = λ c. out_of_fuel
  put (suc fuel) k v = do make_room; λ c. put_found (put fuel) fuel k v (find k c) c

-- `Iterator`: its index, none for -1.
module _ {S K V : Type 0} (api : TableApi S K) where
  abbrev pub iterator : Cache S K V → Option ℕ
  iterator c = none

  unfoldable pub iterator_next : Option ℕ → Cache S K V → Bool × Option ℕ
  iterator_next index c = elim (api.next index c.table) [
    | none ↦ (false, none)
    | some i ↦ (true, some i)
  ]

  abbrev pub iterator_index : Option ℕ → Cache S K V → Option ℕ
  iterator_index index c = index

  unfoldable pub iterator_value : ℕ → Cache S K V → Option V
  iterator_value index c = map_option (λ e. e.value) (c.entries (api.address_at index c.table))

  unfoldable pub iterator_key : ℕ → Cache S K V → Option K
  iterator_key index c = map_option (λ e. e.key) (c.entries (api.address_at index c.table))
