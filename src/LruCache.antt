-- ===== src/LruCache.antt =====
-- `LruCache` of RS485/tl/native_client/jni/utils/LruCache.h. Its entries lie in the buckets of a
-- `BasicHashtable`, whose code is in libutils and which is a parameter (`TableApi`): it says in which
-- bucket an entry is, and the memory of entries is here. A use of an entry that does not exist is a
-- fault. `rehash` calls `put`, and both run on fuel.
pub mod Operations
pub mod Chain
pub mod Links
pub mod Order
pub mod Pairs
pub mod Table
pub mod Contents
pub mod Removal
pub mod Insertion
pub mod Growth
pub mod Rehash
pub mod Room
pub mod Put
pub mod Clear
pub mod Model
pub mod Within
pub mod Refinement
pub mod Bounds
pub mod Tests
use qf.Prelude.{
  ℕ, zero, suc, ◌*◌, ◌%◌, ◌^◌, List, [], ◌∷◌, ◌++◌, Option, none, some, Bool, true, false, not,
  ◌&&◌, ◌||◌, ◌==◌, leb, if◌then◌else◌,
}

abbrev pub Address : Type 0
Address = ℕ

-- `BasicHashtable` of entries, at the hash code and the key of an entry. A `none` of `find` and
-- `next` is the index -1. `owns` are the addresses of the buckets, and `new_table` is a table that
-- is made while another one exists.
pub record TableApi (S K : Type 0) : Type 0 where
  pub hash_type : K → ℕ
  pub find : ℕ → K → S → Option ℕ
  pub address_at : ℕ → S → Address
  pub add : ℕ → K → S → ℕ × S
  pub remove_at : ℕ → S → S
  pub clear : S → S
  pub size : S → ℕ
  pub capacity : S → ℕ
  pub has_more_room : S → Bool
  pub next : Option ℕ → S → Option ℕ
  pub first_table : S
  pub new_table : ℕ → S → S
  pub owns : S → Address → Bool

pub record Entry (K V : Type 0) : Type 0 where
  pub key : K
  pub value : V
  pub parent : Option Address
  pub child : Option Address

-- `Entry::Entry`.
abbrev pub new_entry : {K V : Type 0} → K → V → Entry K V
new_entry k v = record { key = k; value = v; parent = none; child = none }

abbrev pub Entries : Type 0 → Type 0 → Type 0
Entries K V = Address → Option (Entry K V)

-- The calls of the listener, the last one at the end, are `removed`.
pub record Cache (S K V : Type 0) : Type 0 where
  pub table : S
  pub entries : Entries K V
  pub listener : Bool
  pub removed : List (K × V)
  pub oldest : Option Address
  pub youngest : Option Address
  pub max_capacity : ℕ
  pub null_value : V

pub data Run (C A : Type 0) : Type 0 where
  ok : A → C → Run C A
  fault : Run C A
  out_of_fuel : Run C A

abbrev pub and_then : {C A B : Type 0} → Run C A → (A → C → Run C B) → Run C B
and_then (ok a c) f = f a c
and_then fault f = fault
and_then out_of_fuel f = out_of_fuel

abbrev pub map_option : {A B : Type 0} → (A → B) → Option A → Option B
map_option f none = none
map_option f (some a) = some (f a)

module _ {K V : Type 0} where
  abbrev pub write : Address → Option (Entry K V) → Entries K V → Entries K V
  write p e m q = if q == p then e else m q

  abbrev pub with_parent : Option Address → Entry K V → Entry K V
  with_parent p e = record { key = e.key; value = e.value; parent = p; child = e.child }

  abbrev pub with_child : Option Address → Entry K V → Entry K V
  with_child p e = record { key = e.key; value = e.value; parent = e.parent; child = p }

abbrev pub Cmd : Type 0 → Type 0 → Type 0
Cmd C A = C → Run C A

abbrev pub pure : {C A : Type 0} → A → Cmd C A
pure a c = ok a c

infixl 5 ◌>>=◌ ◌>>◌
abbrev pub ◌>>=◌ : {C A B : Type 0} → Cmd C A → (A → Cmd C B) → Cmd C B
m >>= f = λ c. and_then (m c) f

abbrev pub ◌>>◌ : {C A B : Type 0} → Cmd C A → Cmd C B → Cmd C B
m >> f = m >>= λ _. f

module _ {S K V : Type 0} where
  abbrev pub loaded : Option (Entry K V) → Cmd (Cache S K V) (Entry K V)
  loaded none = λ c. fault
  loaded (some e) = λ c. ok e c

  -- A read of the entry at `p`, and writes to its links.
  unfoldable pub load : Address → Cmd (Cache S K V) (Entry K V)
  load p c = loaded (c.entries p) c

  unfoldable pub set_parent : Address → Option Address → Cmd (Cache S K V) (Unit {0})
  unfolding load
  set_parent p q = do
    e ← load p
    λ c. ok tt (record c { entries = write p (some (with_parent q e)) c.entries })

  unfoldable pub set_child : Address → Option Address → Cmd (Cache S K V) (Unit {0})
  unfolding load
  set_child p q = do
    e ← load p
    λ c. ok tt (record c { entries = write p (some (with_child q e)) c.entries })

  abbrev pub set_oldest : Option Address → Cmd (Cache S K V) (Unit {0})
  set_oldest p c = ok tt (record c { oldest = p })

  abbrev pub set_youngest : Option Address → Cmd (Cache S K V) (Unit {0})
  set_youngest p c = ok tt (record c { youngest = p })

  abbrev pub attach_behind : Address → Option Address → Cmd (Cache S K V) (Unit {0})
  attach_behind p none = do set_oldest (some p); set_youngest (some p)
  attach_behind p (some q) = do set_parent p (some q); set_child q (some p); set_youngest (some p)

  unfoldable pub attach_to_cache : Address → Cmd (Cache S K V) (Unit {0})
  unfolding set_parent set_child
  attach_to_cache p c = attach_behind p c.youngest c

  abbrev pub link_child : Option Address → Option Address → Cmd (Cache S K V) (Unit {0})
  link_child none next = set_oldest next
  link_child (some q) next = set_child q next

  abbrev pub link_parent : Option Address → Option Address → Cmd (Cache S K V) (Unit {0})
  link_parent none before = set_youngest before
  link_parent (some q) before = set_parent q before

  unfoldable pub detach_from_cache : Address → Cmd (Cache S K V) (Unit {0})
  unfolding load set_parent set_child
  detach_from_cache p = do
    entry ← load p
    link_child entry.parent entry.child
    entry ← load p
    link_parent entry.child entry.parent
    set_parent p none
    set_child p none

  abbrev pub notify : K → V → Cmd (Cache S K V) (Unit {0})
  notify k v c =
      ok tt (record c { removed = if c.listener then c.removed ++ (k, v) ∷ [] else c.removed })

  unfoldable pub set_on_entry_removed_listener : Bool → Cmd (Cache S K V) (Unit {0})
  set_on_entry_removed_listener listener c = ok tt (record c { listener = listener })
