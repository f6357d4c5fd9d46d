-- ===== src/WeakPointer.antt =====
-- `wp` of RS485/tl/native_client/jni/utils/RefBase.h. What `RefBase` and `weakref_type` do is in
-- libutils and is a parameter (`RefApi`); their `id` arguments, which serve tracing, are left out.
-- The handles of the program stand in one list, in the order in which they were constructed. The
-- result `none` is a call on a pointer that is not set, or a use of a handle that does not exist.
pub mod Holders
pub mod Runs
pub mod Counted
pub mod Programs
pub mod Compare
pub mod Order
pub mod Tests
use qf.Prelude.{
  ℕ, List, [], ◌∷◌, ◌++◌, Option, none, some, Bool, true, false, get_elem?, set, if◌then◌else◌,
}
use qf.StrongPointer.{◌>>=◌, Object}

abbrev pub Refs : Type 0
Refs = ℕ

-- `RefBase`: `mRefs` of an object, `createWeak`, and of `weakref_type` `incWeak`, `decWeak`,
-- `attemptIncStrong` and `getWeakCount`. `none` is a call on what is deleted.
pub record RefApi (S : Type 0) : Type 0 where
  pub refs_of : Object → Refs
  pub create_weak : Object → S → Option (Refs × S)
  pub inc_weak : Refs → S → Option S
  pub dec_weak : Refs → S → Option S
  pub attempt_inc_strong : Refs → S → Option (Bool × S)
  pub weak_count : Refs → S → ℕ

-- `m_refs`: not set by any constructor, null, or the references of an object.
pub data RefsPointer : Type 0 where
  unset : RefsPointer
  null : RefsPointer
  at : Refs → RefsPointer

pub record Weak : Type 0 where
  pub m_ptr : Option Object
  pub m_refs : RefsPointer

-- The objects, and the handles; `none` is a handle whose destructor has run.
pub record World (S : Type 0) : Type 0 where
  pub state : S
  pub handles : List (Option Weak)

abbrev pub weak : Option Object → RefsPointer → Weak
weak p r = record { m_ptr = p; m_refs = r }

module _ {S : Type 0} where
  unfoldable pub weak_at : ℕ → World S → Option Weak
  weak_at i w = do h ← get_elem? w.handles i; h

  abbrev pub add : Weak → S → World S → World S
  add h s w = record { state = s; handles = w.handles ++ some h ∷ [] }

  abbrev pub put : ℕ → Option Weak → S → World S → World S
  put i h s w = record { state = s; handles = set w.handles i h }

  unfoldable pub unsafe_get : ℕ → World S → Option (Option Object)
  unfolding weak_at
  unsafe_get i w = do h ← weak_at i w; some h.m_ptr

  unfoldable pub get_refs : ℕ → World S → Option RefsPointer
  unfolding weak_at
  get_refs i w = do h ← weak_at i w; some h.m_refs

  unfoldable pub wp_default : World S → Option (World S)
  wp_default w = some (add (weak none unset) w.state w)

module _ {S : Type 0} (api : RefApi S) where
  -- `if (ptr) refs->incWeak(this)` and `if (ptr) refs->decWeak(this)`.
  unfoldable pub inc_if : Weak → S → Option S
  inc_if h s = elim h.m_ptr [
    | none ↦ some s
    | some o ↦ elim h.m_refs [ unset ↦ none | null ↦ none | at r ↦ api.inc_weak r s ]
  ]

  unfoldable pub dec_if : Weak → S → Option S
  dec_if h s = elim h.m_ptr [
    | none ↦ some s
    | some o ↦ elim h.m_refs [ unset ↦ none | null ↦ none | at r ↦ api.dec_weak r s ]
  ]

  -- `other ? other->createWeak(this) : 0`.
  unfoldable pub new_refs : Option Object → S → Option (RefsPointer × S)
  new_refs none s = some (null, s)
  new_refs (some o) s = do (r, s) ← api.create_weak o s; some (at r, s)

  unfoldable pub wp_of_pointer : Option Object → World S → Option (World S)
  wp_of_pointer none w = some (add (weak none unset) w.state w)
  wp_of_pointer (some o) w = do
    (r, s) ← api.create_weak o w.state
    some (add (weak (some o) (at r)) s w)

  unfoldable pub wp_copy : ℕ → World S → Option (World S)
  unfolding weak_at inc_if
  wp_copy j w = do other ← weak_at j w; s ← inc_if other w.state; some (add other s w)

  abbrev copied_derived : Weak → World S → Option (World S)
  copied_derived other w = elim other.m_ptr [
    | none ↦ some (add (weak none unset) w.state w)
    | some o ↦ (do
      s ← inc_if (weak (some o) other.m_refs) w.state
      some (add (weak (some o) other.m_refs) s w))
  ]

  -- From a `wp` of a derived type: `m_refs` is set for an object only.
  unfoldable pub wp_copy_derived : ℕ → World S → Option (World S)
  unfolding weak_at inc_if
  wp_copy_derived j w = do other ← weak_at j w; copied_derived other w

  unfoldable pub wp_destroy : ℕ → World S → Option (World S)
  unfolding weak_at dec_if
  wp_destroy i w = do h ← weak_at i w; s ← dec_if h w.state; some (put i none s w)

  unfoldable pub wp_assign_pointer : ℕ → Option Object → World S → Option (World S)
  unfolding weak_at new_refs dec_if
  wp_assign_pointer i other w = do
    (refs, s) ← new_refs other w.state
    h ← weak_at i w
    s ← dec_if h s
    some (put i (some (weak other refs)) s w)

  unfoldable pub wp_assign : ℕ → ℕ → World S → Option (World S)
  unfolding weak_at inc_if dec_if
  wp_assign i j w = do
    other ← weak_at j w
    s ← inc_if other w.state
    h ← weak_at i w
    s ← dec_if h s
    some (put i (some other) s w)

  unfoldable pub set_object_and_refs : ℕ → Option Object → RefsPointer → World S → Option (World S)
  unfolding weak_at inc_if dec_if
  set_object_and_refs i other refs w = do
    s ← inc_if (weak other refs) w.state
    h ← weak_at i w
    s ← dec_if h s
    some (put i (some (weak other refs)) s w)

  abbrev cleared : ℕ → Weak → World S → Option (World S)
  cleared i h w = elim h.m_ptr [
    | none ↦ some w
    | some o ↦ (do s ← dec_if h w.state; some (put i (some (weak none h.m_refs)) s w))
  ]

  -- `m_refs` keeps its value.
  unfoldable pub wp_clear : ℕ → World S → Option (World S)
  unfolding weak_at dec_if
  wp_clear i w = do h ← weak_at i w; cleared i h w

  abbrev promoted : Weak → S → Option (Option Object × S)
  promoted h s = elim h.m_ptr [
    | none ↦ some (none, s)
    | some o ↦ elim h.m_refs [
      | unset ↦ none
      | null ↦ none
      | at r ↦ (do (ok, s) ← api.attempt_inc_strong r s; some (if ok then some o else none, s))
    ]
  ]

  -- The pointer of the `sp` that the call returns.
  unfoldable pub promote : ℕ → World S → Option (Option Object × World S)
  unfolding weak_at
  promote i w = do h ← weak_at i w; (p, s) ← promoted h w.state; some (p, record w { state = s })

  -- The overloads for a `sp`, and for pointers and handles of a derived type.
  abbrev pub wp_of_strong : Option Object → World S → Option (World S)
  wp_of_strong other w = wp_of_pointer other w

  abbrev pub wp_of_derived_pointer : Option Object → World S → Option (World S)
  wp_of_derived_pointer other w = wp_of_pointer other w

  abbrev pub wp_of_derived_strong : Option Object → World S → Option (World S)
  wp_of_derived_strong other w = wp_of_pointer other w

  abbrev pub wp_assign_strong : ℕ → Option Object → World S → Option (World S)
  wp_assign_strong i other w = wp_assign_pointer i other w

  abbrev pub wp_assign_derived_pointer : ℕ → Option Object → World S → Option (World S)
  wp_assign_derived_pointer i other w = wp_assign_pointer i other w

  abbrev pub wp_assign_derived : ℕ → ℕ → World S → Option (World S)
  wp_assign_derived i j w = wp_assign i j w

  abbrev pub wp_assign_derived_strong : ℕ → Option Object → World S → Option (World S)
  wp_assign_derived_strong i other w = wp_assign_pointer i other w
