-- ===== src/StrongPointer.antt =====
-- `sp` of RS485/tl/native_client/jni/utils/StrongPointer.h over the counter of `LightRefBase` in
-- utils/RefBase.h. Objects are numbered, and the handles of the program stand in one list, in the
-- order in which they were constructed. The result `none` is a use of an object that is freed or
-- of a handle that does not exist. A freed object holds no handles of its own.
pub mod Refs
pub mod Counting
pub mod Sharing
pub mod Compare
pub mod Runs
pub mod Tests
use qf.Prelude.{
  ℕ, ◌+◌, ◌-◌, ◌%◌, ◌^◌, List, [], ◌∷◌, ◌++◌, Option, none, some, ◌==◌, if◌then◌else◌, get_elem?,
  set,
}

infixl 5 ◌>>=◌
abbrev pub ◌>>=◌ {ℓ κ} : {A : Type ℓ} {B : Type κ} → Option A → (A → Option B) → Option B
none >>= k = none
some x >>= k = k x

abbrev pub Object : Type 0
Object = ℕ

-- `m_ptr` of a handle, or a handle whose destructor has run.
pub data Handle : Type 0 where
  holds : Option Object → Handle
  gone : Handle

-- `mCount` of each object, a 32-bit word; `none` is storage without an object.
pub record World : Type 0 where
  pub counts : Object → Option ℕ
  pub handles : List Handle

abbrev pub update : Object → Option ℕ → (Object → Option ℕ) → Object → Option ℕ
update o n counts q = if q == o then n else counts q

abbrev pub construct : Option ℕ → Object → World → Option World
construct none o w = some (record w { counts = update o (some 0) w.counts })
construct (some n) o w = none

-- `new T`, at a place without an object.
unfoldable pub new_object : Object → World → Option World
new_object o w = construct (w.counts o) o w

unfoldable pub inc_strong : Object → World → Option World
inc_strong o w = do
  n ← w.counts o
  some (record w { counts = update o (some ((n + 1) % 2 ^ 32)) w.counts })

-- `android_atomic_dec` returns the old value.
unfoldable pub dec_strong : Object → World → Option World
dec_strong o w = do
  n ← w.counts o
  let rest = if n == 1 then none else some ((n + (2 ^ 32 - 1)) % 2 ^ 32)
  some (record w { counts = update o rest w.counts })

-- `if (p) p->incStrong(this)` and `if (p) p->decStrong(this)`.
unfoldable pub acquire : Option Object → World → Option World
unfolding inc_strong
acquire none w = some w
acquire (some o) w = inc_strong o w

unfoldable pub release : Option Object → World → Option World
unfolding dec_strong
release none w = some w
release (some o) w = dec_strong o w

unfoldable pub pointer_of : ℕ → World → Option (Option Object)
pointer_of i w = do h ← get_elem? w.handles i; elim h [ holds p ↦ some p | gone ↦ none ]

abbrev pub put : ℕ → Handle → World → World
put i h w = record w { handles = set w.handles i h }

unfoldable pub sp_of_pointer : Option Object → World → Option World
unfolding acquire
sp_of_pointer other w = do
  let w = record w { handles = w.handles ++ holds other ∷ [] }
  acquire other w

unfoldable pub sp_copy : ℕ → World → Option World
unfolding acquire pointer_of
sp_copy j w = do
  other ← pointer_of j w
  let w = record w { handles = w.handles ++ holds other ∷ [] }
  acquire other w

unfoldable pub sp_destroy : ℕ → World → Option World
unfolding release pointer_of
sp_destroy i w = do p ← pointer_of i w; w ← release p w; some (put i gone w)

unfoldable pub sp_assign_pointer : ℕ → Option Object → World → Option World
unfolding acquire release pointer_of
sp_assign_pointer i other w = do
  w ← acquire other w
  p ← pointer_of i w
  w ← release p w
  some (put i (holds other) w)

unfoldable pub sp_assign : ℕ → ℕ → World → Option World
unfolding acquire release pointer_of
sp_assign i j w = do
  other ← pointer_of j w
  w ← acquire other w
  p ← pointer_of i w
  w ← release p w
  some (put i (holds other) w)

unfoldable pub sp_clear : ℕ → World → Option World
unfolding dec_strong pointer_of
sp_clear i w = do
  p ← pointer_of i w
  elim p [ none ↦ some w | some o ↦ (do w ← dec_strong o w; some (put i (holds none) w)) ]

-- `sp<T> handle = new T`.
unfoldable pub sp_of_new : Object → World → Option World
unfolding new_object sp_of_pointer
sp_of_new o w = do w ← new_object o w; sp_of_pointer (some o) w

-- The overloads for a handle or a pointer of a derived type.
abbrev pub sp_of_derived_pointer : Option Object → World → Option World
sp_of_derived_pointer other w = sp_of_pointer other w

abbrev pub sp_copy_derived : ℕ → World → Option World
sp_copy_derived j w = sp_copy j w

abbrev pub sp_assign_derived : ℕ → ℕ → World → Option World
sp_assign_derived i j w = sp_assign i j w

abbrev pub sp_assign_derived_pointer : ℕ → Option Object → World → Option World
sp_assign_derived_pointer i other w = sp_assign_pointer i other w

-- `getStrongCount`.
abbrev pub get_strong_count : Object → World → Option ℕ
get_strong_count o w = w.counts o
