-- ===== src/Client/Platform.antt =====
-- What the client of RS485/tl/native_client/jni takes from libbinder, libutils and libc, as a
-- parameter; the state that a run of the client reads and writes; and commands on that state.
use qf.Prelude.{ℕ, List, Option}

-- A `char *` text, as its bytes before the terminating zero.
abbrev pub Text : Type 0
Text = List ℕ

abbrev pub Pointer : Type 0
Pointer = ℕ

-- The text buffers in memory; `none` is storage that is not allocated.
abbrev pub Strings : Type 0
Strings = Pointer → Option Text

pub record Platform : Type 1 where
  pub Parcel : Type 0
  pub Text16 : Type 0
  pub Manager : Type 0
  pub Binder : Type 0
  -- An object of the server in this process.
  pub Local : Type 0
  -- All that lies behind the kernel driver.
  pub Service : Type 0
  pub string16 : Text → Text16
  pub new_parcel : Parcel
  pub write_interface_token : Parcel → Text16 → Parcel
  pub write_string16 : Parcel → Text16 → Parcel
  pub write_int32 : Parcel → ℕ → Parcel
  pub read_exception_code : Parcel → ℕ × Parcel
  pub read_string16 : Parcel → Text16 × Parcel
  -- `String8(text)`, a temporary that owns a buffer, and its destructor.
  pub new_string8 : Text16 → Strings → Pointer × Strings
  pub delete_string8 : Pointer → Strings → Strings
  pub default_service_manager : Service → Option Manager
  pub get_service : Manager → Text16 → Service → Option Binder × Service
  pub query_local_interface : Binder → Text16 → Option Local
  -- The reply, and the service after the call. The client does not look at the status.
  pub transact : Binder → ℕ → Parcel → Service → Parcel × Service
  -- The virtual methods of an object in this process.
  pub local_open_rs485 : Local → Text → ℕ → ℕ → Service → Service
  pub local_send_command : Local → Text → Text → ℕ → ℕ → Service → Service
  pub local_read_reply : Local → Text → Service → Strings → Pointer × Service × Strings

module _ (p : Platform) where
  -- What an observer of the client's calls sees.
  pub data Event : Type 0 where
    transaction : ℕ → p.Parcel → p.Parcel → Event
    slept : ℕ → Event
    printed : Text → Event

  pub record State : Type 0 where
    pub service : p.Service
    pub strings : Strings
    pub trace : List Event

-- `aborted` is `abort()`; `fault` is a read of storage that is not allocated.
pub data Run (p : Platform) (A : Type 0) : Type 0 where
  ok : A → State p → Run p A
  aborted : State p → Run p A
  fault : State p → Run p A

abbrev pub Cmd : Platform → Type 0 → Type 0
Cmd p A = State p → Run p A

module _ {p : Platform} where
  abbrev pub pure : {A : Type 0} → A → Cmd p A
  pure a s = ok a s

  abbrev pub and_then : {A B : Type 0} → Run p A → (A → Cmd p B) → Run p B
  and_then (ok a s) k = k a s
  and_then (aborted s) k = aborted s
  and_then (fault s) k = fault s

  infixl 5 ◌>>=◌ ◌>>◌
  abbrev pub ◌>>=◌ : {A B : Type 0} → Cmd p A → (A → Cmd p B) → Cmd p B
  m >>= k = λ s. and_then (m s) k

  abbrev pub ◌>>◌ : {B : Type 0} → Cmd p (Unit {0}) → Cmd p B → Cmd p B
  m >> k = m >>= λ _. k
