-- ===== src/Client/Proxy/Calls.antt =====
-- The requests of `BpDemo`, read the way RS485/tl/java_client/app/src/main/aidl/android/binder/
-- example/IDemoAPI.aidl lays them down: the methods number the codes in order, and the arguments
-- follow the interface token in order.
use qf.Prelude.{
  ℕ, ◌+◌, ◌≡◌, refl, List, [], ◌∷◌, ◌++◌, ap, ◌∙◌, Option, none, some, Bool, true, ◌==◌,
  if◌then◌else◌,
}
use qf.Client.Platform.{Text, Platform, transaction, State, Run, ok}
use qf.Client.Proxy
use qf.Client.Proxy.{
  first_call_transaction, open_rs485_code, send_command_code, read_reply_code, descriptor,
}

module _ (p : Platform) where
  pub data Item : Type 0 where
    token : p.Text16 → Item
    string : p.Text16 → Item
    int : ℕ → Item

  -- The methods of the interface, at their arguments.
  pub data Call : Type 0 where
    open_rs485 : p.Text16 → ℕ → ℕ → Call
    send_command : p.Text16 → p.Text16 → ℕ → ℕ → Call
    read_reply : p.Text16 → Call

-- A parcel holds what was written into it, in that order.
pub record ParcelLaws (p : Platform) : Type 0 where
  pub contents : p.Parcel → List (Item p)
  pub contents_new : contents p.new_parcel ≡ []
  pub contents_token :
      (q : p.Parcel) (d : p.Text16)
      → contents (p.write_interface_token q d) ≡ contents q ++ token d ∷ []
  pub contents_string :
      (q : p.Parcel) (t : p.Text16) → contents (p.write_string16 q t) ≡ contents q ++ string t ∷ []
  pub contents_int :
      (q : p.Parcel) (n : ℕ) → contents (p.write_int32 q n) ≡ contents q ++ int n ∷ []

module _ (p : Platform) where
  abbrev open_args : List (Item p) → Option (Call p)
  open_args (string path ∷ int port ∷ int baud_rate ∷ []) = some (open_rs485 path port baud_rate)
  open_args _ = none

  abbrev send_args : List (Item p) → Option (Call p)
  send_args (string tkn ∷ string cmd ∷ int port ∷ int priority ∷ []) =
      some (send_command tkn cmd port priority)
  send_args _ = none

  abbrev read_args : List (Item p) → Option (Call p)
  read_args (string tkn ∷ []) = some (read_reply tkn)
  read_args _ = none

  abbrev args_of : ℕ → List (Item p) → Option (Call p)
  args_of code args =
      if code == first_call_transaction
      then open_args args
      else if code == first_call_transaction + 1
      then send_args args
      else if code == first_call_transaction + 2
      then read_args args
      else none

  -- A service that `accepts` an interface token reads the call behind it.
  unfoldable pub decode : (p.Text16 → Bool) → ℕ → List (Item p) → Option (Call p)
  decode accepts code (token d ∷ args) = if accepts d then args_of code args else none
  decode accepts code _ = none

-- A run that makes one transaction with `remote`, which stands for `call`, changes nothing else
-- but the service, and ends well.
module _ (p : Platform) (laws : ParcelLaws p) (accepts : p.Text16 → Bool) (remote : p.Binder) where
  pub record Sends (call : Call p) (s : State p) (result : Run p (Unit {0})) : Type 0 where
    pub code : ℕ
    pub request : p.Parcel
    pub reads_back : decode p accepts code (laws.contents request) ≡ some call
    pub after : State p
    pub same_strings : after.strings ≡ s.strings
    pub served : after.service ≡ (p.transact remote code request s.service).1
    pub traced :
        after.trace
        ≡ s.trace ++ transaction code request (p.transact remote code request s.service).0 ∷ []
    pub returns : result ≡ ok tt after

-- A parcel that holds the interface token alone.
abbrev pub titled : (p : Platform) → p.Parcel
titled p = p.write_interface_token p.new_parcel (descriptor p)

-- The parcels of the three requests, item by item.
module _ (p : Platform) (laws : ParcelLaws p) (t : p.Text16) where
  open laws use {contents, contents_new, contents_token, contents_string, contents_int}

  pub contents-one : contents (p.write_string16 (titled p) t) ≡ token (descriptor p) ∷ string t ∷ []
  contents-one = rw (contents_string, contents_token, contents_new)

  pub contents-two_ints :
      (m n : ℕ)
      → contents (p.write_int32 (p.write_int32 (p.write_string16 (titled p) t) m) n)
        ≡ token (descriptor p) ∷ string t ∷ int m ∷ int n ∷ []
  contents-two_ints m n = simp (contents_int, contents_string, contents_token, contents_new)

  pub contents-four :
      (u : p.Text16) (m n : ℕ)
      → contents
          (p.write_int32 (p.write_int32 (p.write_string16 (p.write_string16 (titled p) t) u) m) n)
        ≡ token (descriptor p) ∷ string t ∷ string u ∷ int m ∷ int n ∷ []
  contents-four u m n = simp (contents_int, contents_string, contents_token, contents_new)

-- The three requests read back as the calls.
module _ (p : Platform) (laws : ParcelLaws p) (accepts : p.Text16 → Bool)
    (ours : accepts (descriptor p) ≡ true) (t : p.Text16) where
  open laws use {contents}

  pub decode-open :
      (m n : ℕ)
      → decode p accepts open_rs485_code
          (contents (p.write_int32 (p.write_int32 (p.write_string16 (titled p) t) m) n))
        ≡ some (open_rs485 t m n)
  unfolding decode
  decode-open m n = ap (decode p accepts open_rs485_code) (contents-two_ints p laws t m n) ∙ rw ours

  pub decode-send :
      (u : p.Text16) (m n : ℕ)
      → decode p accepts send_command_code (
          contents (
            p.write_int32 (p.write_int32 (p.write_string16 (p.write_string16 (titled p) t) u) m) n))
        ≡ some (send_command t u m n)
  unfolding decode
  decode-send u m n =
      ap (decode p accepts send_command_code) (contents-four p laws t u m n) ∙ rw ours

  pub decode-read :
      decode p accepts read_reply_code (contents (p.write_string16 (titled p) t))
      ≡ some (read_reply t)
  unfolding decode
  decode-read = ap (decode p accepts read_reply_code) (contents-one p laws t) ∙ rw ours

module _ (p : Platform) (laws : ParcelLaws p) (accepts : p.Text16 → Bool)
    (ours : accepts (descriptor p) ≡ true) (remote : p.Binder) (s : State p) where
  -- With a service that accepts the client's token, `openRS485` makes one transaction, whose
  -- request reads back as that call with the same path, port and baud rate, and changes nothing
  -- else of the client's state.
  pub open_rs485-Sends :
      (path : Text) (port baud_rate : ℕ)
      → Sends p laws accepts remote
          (open_rs485 (p.string16 path) port baud_rate)
          s
          (Proxy.open_rs485 p remote path port baud_rate s)
  unfolding Proxy.open_rs485
  open_rs485-Sends path port baud_rate = record {
    code = _;
    request = _;
    reads_back = decode-open p laws accepts ours (p.string16 path) port baud_rate;
    after = _;
    same_strings = refl;
    served = refl;
    traced = refl;
    returns = refl;
  }

  -- With a service that accepts the client's token, `sendCommand` makes one transaction, whose
  -- request reads back as that call with the same token, command, port and priority, and changes
  -- nothing else of the client's state.
  pub send_command-Sends :
      (tkn cmd : Text) (port priority : ℕ)
      → Sends p laws accepts remote
          (send_command (p.string16 tkn) (p.string16 cmd) port priority)
          s
          (Proxy.send_command p remote tkn cmd port priority s)
  unfolding Proxy.send_command
  send_command-Sends tkn cmd port priority = record {
    code = _;
    request = _;
    reads_back = decode-send p laws accepts ours (p.string16 tkn) (p.string16 cmd) port priority;
    after = _;
    same_strings = refl;
    served = refl;
    traced = refl;
    returns = refl;
  }
