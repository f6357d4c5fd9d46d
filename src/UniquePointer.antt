-- ===== src/UniquePointer.antt =====
-- `UniquePtr` of RS485/tl/native_client/jni/utils/UniquePtr.h. A heap holds the blocks that are
-- allocated, each with the list of its objects; `none` as a result is a delete of what is not
-- allocated, or an access outside of a block.
pub mod Scope
pub mod Tests
use qf.Prelude.{
  ℕ, List, [], ◌∷◌, Option, none, some, Bool, true, false, not, ◌==◌, if◌then◌else◌, get_elem?,
}
use qf.StrongPointer.{◌>>=◌}

abbrev pub Address : Type 0
Address = ℕ

abbrev pub Heap : Type 0 → Type 0
Heap A = Address → Option (List A)

abbrev pub set_block : {A : Type 0} → Address → Option (List A) → Heap A → Heap A
set_block a b h q = if q == a then b else h q

abbrev pub is_null : {A : Type 0} → Option A → Bool
is_null none = true
is_null (some a) = false

abbrev freed : {A : Type 0} → Option (List A) → Address → Heap A → Option (Heap A)
freed none a h = none
freed (some b) a h = some (set_block a none h)

-- `delete p` and `delete[] p`.
unfoldable pub default_delete : {A : Type 0} → Option Address → Heap A → Option (Heap A)
default_delete none h = some h
default_delete (some a) h = freed (h a) a h

unfoldable pub default_delete_array : {A : Type 0} → Option Address → Heap A → Option (Heap A)
default_delete_array none h = some h
default_delete_array (some a) h = freed (h a) a h

abbrev pub same_pointer : Option Address → Option Address → Bool
same_pointer none none = true
same_pointer none (some b) = false
same_pointer (some a) none = false
same_pointer (some a) (some b) = a == b

-- `mPtr`.
pub record UniquePtr : Type 0 where
  pub m_ptr : Option Address

abbrev pub unique : Option Address → UniquePtr
unique p = record { m_ptr = p }

abbrev pub get : UniquePtr → Option Address
get u = u.m_ptr

-- What is returned, and the pointer afterwards.
unfoldable pub release : UniquePtr → Option Address × UniquePtr
release u = (u.m_ptr, unique none)

-- The deleter `D` is a parameter.
module _ {H : Type 0} (deleter : Option Address → H → Option H) where
  abbrev replaced : Bool → Option Address → UniquePtr → H → Option (UniquePtr × H)
  replaced true p u h = some (u, h)
  replaced false p u h = do h ← deleter u.m_ptr h; some (unique p, h)

  unfoldable pub reset : Option Address → UniquePtr → H → Option (UniquePtr × H)
  reset p u h = replaced (same_pointer p u.m_ptr) p u h

  unfoldable pub destroy : UniquePtr → H → Option H
  unfolding reset
  destroy u h = do (u, h) ← reset none u h; some h

abbrev deref_block : {A : Type 0} → Option (List A) → ℕ → Option A
deref_block none i = none
deref_block (some b) i = get_elem? b i

-- `operator*`, and `operator[]` of the specialisation for arrays.
unfoldable pub dereference : {A : Type 0} → UniquePtr → Heap A → Option A
dereference u h = do a ← u.m_ptr; deref_block (h a) 0

unfoldable pub index : {A : Type 0} → UniquePtr → ℕ → Heap A → Option A
index u i h = do a ← u.m_ptr; deref_block (h a) i

-- The specialisation for arrays.
abbrev pub unique_array : Option Address → UniquePtr
unique_array p = record { m_ptr = p }

abbrev pub get_array : UniquePtr → Option Address
get_array u = u.m_ptr

unfoldable pub release_array : UniquePtr → Option Address × UniquePtr
release_array u = (u.m_ptr, unique_array none)

module _ {H : Type 0} (deleter : Option Address → H → Option H) where
  abbrev replaced_array : Bool → Option Address → UniquePtr → H → Option (UniquePtr × H)
  replaced_array true p u h = some (u, h)
  replaced_array false p u h = do h ← deleter u.m_ptr h; some (unique_array p, h)

  unfoldable pub reset_array : Option Address → UniquePtr → H → Option (UniquePtr × H)
  reset_array p u h = replaced_array (same_pointer p u.m_ptr) p u h

  unfoldable pub destroy_array : UniquePtr → H → Option H
  unfolding reset_array
  destroy_array u h = do (u, h) ← reset_array none u h; some h
