-- ===== src/Singleton/Tests.antt =====
-- Runs of RS485/tl/native_client/jni/utils/Singleton.h on two threads, over a mutex that is its holder.
use qf.Prelude.{
  ℕ, ◌+◌, ◌-◌, ◌^◌, ◌≤◌, List, [], ◌∷◌, Option, none, some, ◌≡◌, refl, sym, ap, ◌∙◌, arith, length,
  Option-cases, inl, inr,
}
use qf.Mutex.{
  Thread, MutexApi, IsMutexApi, autolock, end_autolock, lock, unlock, try_lock, new_mutex_of,
}
use qf.Singleton.{
  Address, get_called, instance_at, System, static_instance, goes, advance, call_get, proceed,
  Reach, start, later,
}
use qf.Singleton.Invariant.{IsSound}
use qf.Singleton.Once.{Shortens, Reach-IsSound, Reach-exclusive, Reach-Shortens}

abbrev Holder : Type 0
Holder = Option Thread

abbrev lock_free : Thread → Holder → Option (ℕ × Holder)
lock_free i none = some (0, some i)
lock_free i (some j) = none

abbrev try_free : Thread → Holder → ℕ × Holder
try_free i none = (0, some i)
try_free i (some j) = (16, some j)

abbrev mutexes : MutexApi Holder
mutexes = record {
  mutex_init = none;
  mutex_init_shared = none;
  mutex_lock = lock_free;
  mutex_trylock = try_free;
  mutex_unlock = λ i m. (0, none);
}

lock_free-none :
    (i : Thread) (m : Holder)
    → m ≡ none
    → (n : Holder) × (lock_free i m ≡ some (0, n)) × (n ≡ some i)
lock_free-none i m e = (some i, ap (lock_free i) e, refl)

try_free-none :
    (i : Thread) (m : Holder) → m ≡ none → (n : Holder) × (try_free i m ≡ (0, n)) × (n ≡ some i)
try_free-none i m e = (some i, ap (try_free i) e, refl)

mutexes-IsMutexApi : IsMutexApi mutexes (λ m. m) 16
mutexes-IsMutexApi = record {
  free_at_init = (refl, refl);
  locks = lock_free-none;
  blocks = λ i j m e. ap (lock_free i) e;
  tries = try_free-none;
  is_busy = λ i j m e. ap (try_free i) e ∙ ap (λ h. (16, h)) (sym e);
  unlocks = λ i m e. (none, refl, refl);
}

busy_status : (try_lock mutexes 1 (some 0)).0 ≡ 2 ^ 32 - 16
unfolding try_lock
busy_status = refl

abbrev allocate : List Address → Address
allocate made = 100 + length made

abbrev Threads : Type 0
Threads = System Holder

abbrev or_wait : Threads → Option Threads → Threads
or_wait s none = s
or_wait s (some t) = t

-- The threads of the list take a step each, and one that waits does nothing.
abbrev play : List Thread → Threads → Threads
play [] s = s
play (i ∷ is) s = play is (or_wait s (advance mutexes allocate i s))

play-Reach :
    (is : List Thread) (s : Threads) → Reach mutexes allocate s → Reach mutexes allocate (play is s)
play-Reach [] s reached = reached
play-Reach (i ∷ is) s reached =
    play-Reach is (or_wait s (advance mutexes allocate i s))
      (elim (Option-cases (advance mutexes allocate i s)) [
        | inl waits ↦ rw waits reached
        | inr (t, runs) ↦ rw runs (later reached (proceed i runs))
      ])

-- Both threads call `getInstance`.
abbrev both_called : Threads
both_called =
    goes mutexes allocate 1 get_called
      (goes mutexes allocate 0 get_called (static_instance mutexes allocate))

both_called-Reach : Reach mutexes allocate both_called
unfolding static_instance new_mutex_of
both_called-Reach = later (later start (call_get 0 refl)) (call_get 1 refl)

-- The second one waits for the first one, and finds the instance.
abbrev turns : List Thread
turns = 0 ∷ 1 ∷ 0 ∷ 1 ∷ 0 ∷ 0 ∷ 1 ∷ 0 ∷ 1 ∷ 1 ∷ 1 ∷ 1 ∷ []

turns_returned : (play turns both_called).returned ≡ instance_at 100 ∷ instance_at 100 ∷ []
unfolding static_instance new_mutex_of advance autolock end_autolock lock unlock
turns_returned = refl

Reach-IsSound_example :
    (length (play turns both_called).made ≤ 1)
    × IsSound (play turns both_called).instance_ (play turns both_called).returned
Reach-IsSound_example =
    Reach-IsSound mutexes allocate (λ m. m) 16 mutexes-IsMutexApi (play turns both_called)
      (play-Reach turns both_called both_called-Reach)

Reach-exclusive_example : ◌≡◌ {A = Thread} 0 0
unfolding static_instance new_mutex_of advance autolock end_autolock lock unlock
Reach-exclusive_example =
    Reach-exclusive mutexes allocate (λ m. m) 16 mutexes-IsMutexApi (play (0 ∷ []) both_called)
      (play-Reach (0 ∷ []) both_called both_called-Reach) 0 0 refl refl

Reach-Shortens_example : (j : Thread) × Shortens mutexes allocate (play (0 ∷ []) both_called) j
unfolding static_instance new_mutex_of advance autolock end_autolock lock unlock
Reach-Shortens_example =
    Reach-Shortens mutexes allocate (λ m. m) 16 mutexes-IsMutexApi (play (0 ∷ []) both_called)
      (play-Reach (0 ∷ []) both_called both_called-Reach) 1 (omega arith)
