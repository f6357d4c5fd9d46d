-- ===== src/Client/Simulated.antt =====
-- A platform that computes, on which the examples of Client.Tests run: one service, "Demo", that
-- answers each request for a reply with a text that depends on the number of calls so far.
use qf.Prelude.{
  ℕ, ◌+◌, ◌≡◌, ◌≢◌, refl, List, [], ◌∷◌, ◌++◌, Option, none, some, Bool, ◌==◌, if◌then◌else◌,
}
use qf.Client.Platform.{Text, Pointer, Strings, Platform, State}
use qf.Client.Proxy.Calls.{Item, token, string, int, ParcelLaws}
use qf.Client.Proxy.Reply.{OwnsBuffer, SharesEmpty}
use qf.Client.Program.Session.{IsRunning, IsSilent}

pub data Slot : Type 0 where
  header : Text → Slot
  chars : Text → Slot
  number : ℕ → Slot

abbrev pub skip_number : List Slot → ℕ × List Slot
skip_number (number n ∷ q) = (n, q)
skip_number q = (0, q)

abbrev pub take_chars : List Slot → Text × List Slot
take_chars (chars t ∷ q) = (t, q)
take_chars q = ([], q)

abbrev pub reply_to : Text → ℕ → List Slot
reply_to text code = if code == 3 then number 0 ∷ chars text ∷ [] else number 0 ∷ []

abbrev pub buffer : Pointer
buffer = 7

abbrev pub update : Pointer → Option Text → Strings → Strings
update at text m a = if a == at then text else m a

-- What is left of a text that a `String8` gives back: the buffer of the empty text is shared.
abbrev pub left : Option Text → Option Text
left none = none
left (some []) = some []
left (some (c ∷ t)) = none

abbrev pub counted : ℕ → Text
counted calls = (48 + calls) ∷ []

abbrev pub nothing : ℕ → Text
nothing calls = []

-- The texts of the replies are a parameter.
abbrev pub simulated : (ℕ → Text) → Platform
simulated texts = record {
  Parcel = List Slot;
  Text16 = Text;
  Manager = Unit {0};
  Binder = Unit {0};
  Local = Unit {0};
  Service = ℕ;
  string16 = λ t. t;
  new_parcel = [];
  write_interface_token = λ q d. q ++ header d ∷ [];
  write_string16 = λ q t. q ++ chars t ∷ [];
  write_int32 = λ q n. q ++ number n ∷ [];
  read_exception_code = skip_number;
  read_string16 = take_chars;
  new_string8 = λ t m. (buffer, update buffer (some t) m);
  delete_string8 = λ at m. update at (left (m at)) m;
  default_service_manager = λ calls. some tt;
  get_service = λ m name calls. (some tt, calls);
  query_local_interface = λ b d. none;
  transact = λ b code q calls. (reply_to (texts calls) code, calls + 1);
  local_open_rs485 = λ l path port baud_rate calls. calls;
  local_send_command = λ l tkn cmd port priority calls. calls;
  local_read_reply = λ l tkn calls m. (buffer, calls, m);
}

abbrev pub items : (p : Platform) → (Text → p.Text16) → List Slot → List (Item p)
items p text [] = []
items p text (header d ∷ q) = token (text d) ∷ items p text q
items p text (chars t ∷ q) = string (text t) ∷ items p text q
items p text (number n ∷ q) = int n ∷ items p text q

pub items-append :
    (p : Platform) (text : Text → p.Text16) (q r : List Slot)
    → items p text (q ++ r) ≡ items p text q ++ items p text r
items-append p text [] r = refl
items-append p text (header d ∷ q) r = rw (items-append p text q r)
items-append p text (chars t ∷ q) r = rw (items-append p text q r)
items-append p text (number n ∷ q) r = rw (items-append p text q r)

module _ (texts : ℕ → Text) where
  abbrev pub parcel_laws : ParcelLaws (simulated texts)
  parcel_laws = record {
    contents = items (simulated texts) (λ t. t);
    contents_new = refl;
    contents_token = λ q d. items-append (simulated texts) (λ t. t) q (header d ∷ []);
    contents_string = λ q t. items-append (simulated texts) (λ t. t) q (chars t ∷ []);
    contents_int = λ q n. items-append (simulated texts) (λ t. t) q (number n ∷ []);
  }

  abbrev pub running : IsRunning (simulated texts) 0 tt
  running = record {
    manager = tt;
    found = 0;
    has_manager = refl;
    has_service = refl;
    is_remote = refl;
  }

  abbrev pub start : State (simulated texts)
  start = record { service = 0; strings = λ a. none; trace = [] }

pub released_lem : (t : Text) (m : Strings) → t ≢ [] → update buffer (left (some t)) m buffer ≡ none
released_lem [] m some_text = absurd (some_text refl)
released_lem (c ∷ t) m some_text = refl

abbrev pub owns : OwnsBuffer (simulated counted)
owns = record { text8 = λ t. t; released = λ t m some_text. released_lem t m some_text }

abbrev pub shares : SharesEmpty (simulated nothing)
shares = record { text8 = λ t. t; stays = λ t m empty. rw empty }

pub silence : IsSilent (simulated nothing) (λ t. t) tt
silence = record { silent = λ request s. refl }

-- The service accepts the token "Demo".
abbrev pub starts_with_d : Text → Bool
starts_with_d [] = Bool.false
starts_with_d (c ∷ t) = c == 68
