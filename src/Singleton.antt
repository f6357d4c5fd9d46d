-- ===== src/Singleton.antt =====
-- `Singleton` of RS485/tl/native_client/jni/utils/Singleton.h: threads that run `getInstance` and
-- `hasInstance` in any order, a statement at a time. How `new` finds memory is a parameter.
pub mod Invariant
pub mod Steps
pub mod Once
pub mod Tests
use qf.Prelude.{
  ℕ, List, [], ◌∷◌, ◌++◌, Option, none, some, Bool, true, false, ◌≡◌, ◌==◌, if◌then◌else◌,
}
use qf.Mutex.{Thread, MutexApi, new_mutex_of, autolock, end_autolock}

abbrev pub Address : Type 0
Address = ℕ

-- Where a thread is: outside, or before the next statement of `getInstance` (its `instance`) or of
-- `hasInstance`.
pub data Pc : Type 0 where
  idle : Pc
  get_called : Pc
  get_locked : Pc
  get_read : Option Address → Pc
  get_made : Address → Pc
  get_ready : Address → Pc
  has_called : Pc
  has_locked : Pc
  has_ready : Bool → Pc

pub data Result : Type 0 where
  instance_at : Address → Result
  has : Bool → Result

-- `sLock` and `sInstance`, the objects that were made, the last one first, and what the calls have
-- returned.
pub record System (M : Type 0) : Type 0 where
  pub mutex : M
  pub instance_ : Option Address
  pub made : List Address
  pub returned : List Result
  pub pc : Thread → Pc

abbrev pub is_set : {A : Type 0} → Option A → Bool
is_set none = false
is_set (some a) = true

abbrev pub at_thread : Thread → Pc → (Thread → Pc) → Thread → Pc
at_thread i p pc j = if j == i then p else pc j

module _ {M : Type 0} (api : MutexApi M) (allocate : List Address → Address) where
  -- `ANDROID_SINGLETON_STATIC_INSTANCE`.
  unfoldable pub static_instance : System M
  unfolding new_mutex_of
  static_instance = record {
    mutex = new_mutex_of api 0;
    instance_ = none;
    made = [];
    returned = [];
    pc = λ i. idle;
  }

  abbrev pub goes : Thread → Pc → System M → System M
  goes i p s = record s { pc = at_thread i p s.pc }

  abbrev pub locked_at : Thread → Pc → System M → Option M → Option (System M)
  locked_at i p s none = none
  locked_at i p s (some m) = some (goes i p (record s { mutex = m }))

  -- The end of the block, where the lock is released, and the return.
  abbrev pub leave : Thread → Result → System M → System M
  leave i r s =
      goes i idle (record s { mutex = end_autolock api i s.mutex; returned = r ∷ s.returned })

  -- The next statement of a thread; `none` while it waits for the lock, and outside of a call.
  abbrev pub statement : Thread → Pc → System M → Option (System M)
  statement i idle s = none
  statement i get_called s = locked_at i get_locked s (autolock api i s.mutex)
  statement i get_locked s = some (goes i (get_read s.instance_) s)
  statement i (get_read none) s =
      let a = allocate s.made in some (goes i (get_made a) (record s { made = a ∷ s.made }))
  statement i (get_read (some a)) s = some (goes i (get_ready a) s)
  statement i (get_made a) s = some (goes i (get_ready a) (record s { instance_ = some a }))
  statement i (get_ready a) s = some (leave i (instance_at a) s)
  statement i has_called s = locked_at i has_locked s (autolock api i s.mutex)
  statement i has_locked s = some (goes i (has_ready (is_set s.instance_)) s)
  statement i (has_ready b) s = some (leave i (has b) s)

  unfoldable pub advance : Thread → System M → Option (System M)
  unfolding autolock end_autolock
  advance i s = statement i (s.pc i) s

  -- What can happen next.
  pub data Step : System M → System M → Type 0 where
    call_get : {s : System M} (i : Thread) → s.pc i ≡ idle → Step s (goes i get_called s)
    call_has : {s : System M} (i : Thread) → s.pc i ≡ idle → Step s (goes i has_called s)
    proceed : {s t : System M} (i : Thread) → advance i s ≡ some t → Step s t

  pub data Reach : System M → Type 0 where
    start : Reach static_instance
    later : {s t : System M} → Reach s → Step s t → Reach t
