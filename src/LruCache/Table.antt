-- ===== src/LruCache/Table.antt =====
-- What RS485/tl/native_client/jni/utils/LruCache.h relies on of `BasicHashtable`.
use qf.Prelude.{
  ℕ, suc, ◌<◌, ◌≤◌, ◌^◌, ◌≡◌, ◌↔◌, Option, none, some, Bool, true, false, ◌==◌, if◌then◌else◌,
}
use qf.LruCache.{Address, TableApi}

-- `IsTable` holds of the tables that calls make. `place` is the address of the entry of a key in a
-- table, and `room` is how many entries a table takes before it has to grow; `eqb` is the equality
-- of keys.
pub record IsTableApi {S K : Type 0} (api : TableApi S K) (eqb : K → K → Bool)
    (place : K → S → Option Address) (room : S → ℕ) : Type 1 where
  pub IsTable : S → Type 0
  pub same_key : (a b : K) → (eqb a b ≡ true) ↔ (a ≡ b)
  pub found :
      (k : K) (s : S) (i : ℕ)
      → IsTable s
      → api.find (api.hash_type k) k s ≡ some i
      → place k s ≡ some (api.address_at i s)
  pub missing :
      (k : K) (s : S) → IsTable s → api.find (api.hash_type k) k s ≡ none → place k s ≡ none
  pub held : (k : K) (s : S) (p : Address) → IsTable s → place k s ≡ some p → api.owns s p ≡ true
  -- An entry that is added to a table with room is put where there is none, and no other moves.
  pub adds :
      (k : K) (s : S)
      → IsTable s
      → place k s ≡ none
      → api.has_more_room s ≡ true
      → (i : ℕ) × (t : S) × (api.add (api.hash_type k) k s ≡ (i, t))
        × ((j : K) → place j t ≡ (if eqb j k then some (api.address_at i t) else place j s))
        × ((j : K) (p : Address) → place j s ≡ some p → (p == api.address_at i t) ≡ false)
        × ((p : Address) → api.owns t p ≡ api.owns s p)
        × (api.size t ≡ suc (api.size s))
        × (room s ≤ suc (room t))
        × IsTable t
  pub removes :
      (k : K) (s : S) (i : ℕ)
      → IsTable s
      → api.find (api.hash_type k) k s ≡ some i
      → ((j : K) → place j (api.remove_at i s) ≡ (if eqb j k then none else place j s))
        × (suc (api.size (api.remove_at i s)) ≡ api.size s)
        × IsTable (api.remove_at i s)
        × (api.capacity (api.remove_at i s) ≡ api.capacity s)
  pub clears :
      (s : S)
      → IsTable s
      → ((j : K) → place j (api.clear s) ≡ none)
        × (api.size (api.clear s) ≡ 0)
        × IsTable (api.clear s)
  pub starts :
      ((j : K) → place j api.first_table ≡ none)
      × (api.size api.first_table ≡ 0)
      × IsTable api.first_table
  -- A new table of a capacity below 2 ^ 31 is empty, does not share memory with the one that exists,
  -- and has the room that is asked for.
  pub makes :
      (n : ℕ) (s : S)
      → IsTable s
      → n < 2 ^ 31
      → ((j : K) → place j (api.new_table n s) ≡ none)
        × (api.size (api.new_table n s) ≡ 0)
        × ((p : Address) → api.owns (api.new_table n s) p ≡ true → api.owns s p ≡ false)
        × (n ≤ room (api.new_table n s))
        × IsTable (api.new_table n s)
  pub roomy : (s : S) → IsTable s → 0 < room s → api.has_more_room s ≡ true
  pub bounded : (s : S) → IsTable s → (api.size s ≤ api.capacity s) × (0 < api.capacity s)
