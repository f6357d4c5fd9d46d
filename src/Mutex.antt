-- ===== src/Mutex.antt =====
-- `Mutex` of RS485/tl/native_client/jni/utils/Mutex.h, over the mutexes of pthreads, which are a
-- parameter.
use qf.Prelude.{ℕ, ◌-◌, ◌%◌, ◌^◌, ◌≡◌, refl, ap, ◌∙◌, Option, none, some, ◌==◌, if◌then◌else◌}

abbrev pub Thread : Type 0
Thread = ℕ

abbrev pub private_type : ℕ
private_type = 0

abbrev pub shared_type : ℕ
shared_type = 1

-- `pthread_mutex_lock` is `none` while it blocks. The numbers are the errors that calls return.
pub record MutexApi (M : Type 0) : Type 0 where
  pub mutex_init : M
  pub mutex_init_shared : M
  pub mutex_lock : Thread → M → Option (ℕ × M)
  pub mutex_trylock : Thread → M → ℕ × M
  pub mutex_unlock : Thread → M → ℕ × M

-- A free mutex is locked at once, one that is held blocks, and its holder may unlock it; `busy` is
-- `EBUSY`.
pub record IsMutexApi {M : Type 0} (api : MutexApi M) (owner : M → Option Thread) (busy : ℕ)
    : Type 0 where
  pub free_at_init : (owner api.mutex_init ≡ none) × (owner api.mutex_init_shared ≡ none)
  pub locks :
      (i : Thread) (m : M)
      → owner m ≡ none
      → (n : M) × (api.mutex_lock i m ≡ some (0, n)) × (owner n ≡ some i)
  pub blocks : (i j : Thread) (m : M) → owner m ≡ some j → api.mutex_lock i m ≡ none
  pub tries :
      (i : Thread) (m : M)
      → owner m ≡ none
      → (n : M) × (api.mutex_trylock i m ≡ (0, n)) × (owner n ≡ some i)
  pub is_busy : (i j : Thread) (m : M) → owner m ≡ some j → api.mutex_trylock i m ≡ (busy, m)
  pub unlocks :
      (i : Thread) (m : M)
      → owner m ≡ some i
      → (n : M) × (api.mutex_unlock i m ≡ (0, n)) × (owner n ≡ none)

-- `-error`, as a 32-bit word.
abbrev pub negated : ℕ → ℕ
negated error = (2 ^ 32 - error % 2 ^ 32) % 2 ^ 32

abbrev pub status_and : {M : Type 0} → Option (ℕ × M) → Option (ℕ × M)
status_and none = none
status_and (some (error, m)) = some (negated error, m)

abbrev pub state_of : {M : Type 0} → Option (ℕ × M) → Option M
state_of none = none
state_of (some (status, m)) = some m

module _ {M : Type 0} (api : MutexApi M) where
  abbrev pub new_mutex : M
  new_mutex = api.mutex_init

  unfoldable pub new_mutex_of : ℕ → M
  new_mutex_of kind = if kind == shared_type then api.mutex_init_shared else api.mutex_init

  unfoldable pub lock : Thread → M → Option (ℕ × M)
  lock i m = status_and (api.mutex_lock i m)

  unfoldable pub unlock : Thread → M → M
  unlock i m = (api.mutex_unlock i m).1

  unfoldable pub try_lock : Thread → M → ℕ × M
  try_lock i m = let (error, n) = api.mutex_trylock i m in (negated error, n)

  -- `Autolock`: its constructor, which ignores the status, and its destructor.
  unfoldable pub autolock : Thread → M → Option M
  unfolding lock
  autolock i m = state_of (lock i m)

  unfoldable pub end_autolock : Thread → M → M
  unfolding unlock
  end_autolock i m = unlock i m

module _ {M : Type 0} (api : MutexApi M) (owner : M → Option Thread) (busy : ℕ)
    (laws : IsMutexApi api owner busy) where
  pub autolock-free :
      (i : Thread) (m : M)
      → owner m ≡ none
      → (n : M) × (autolock api i m ≡ some n) × (owner n ≡ some i)
  unfolding autolock lock
  autolock-free i m free = let (n, runs, held) = laws.locks i m free in (n, rw runs refl, held)

  pub autolock-held : (i j : Thread) (m : M) → owner m ≡ some j → autolock api i m ≡ none
  unfolding autolock lock
  autolock-held i j m held = rw (laws.blocks i j m held) refl

  pub end_autolock-free :
      (i : Thread) (m : M) → owner m ≡ some i → owner (end_autolock api i m) ≡ none
  unfolding end_autolock unlock
  end_autolock-free i m held =
      let (n, runs, free) = laws.unlocks i m held in ap (λ r. owner r.1) runs ∙ free
