-- ===== src/Client/Proxy.antt =====
-- `BpDemo` of RS485/tl/native_client/jni/binderClient.cpp: each method writes its arguments into a
-- parcel and hands it to the remote binder.
pub mod Calls
pub mod Reply
use Prim.Native.Char.{code}
use Prim.Native.String.{String}
use qf.Prelude.{ℕ, ◌+◌, List, [], ◌∷◌, ◌++◌, Option, none, some}
use qf.Client.Platform.{
  Text, Pointer, Platform, Event, transaction, State, Run, ok, Cmd, pure, ◌>>=◌, ◌>>◌,
}

-- The bytes of an ASCII literal.
abbrev pub bytes : String → Text
bytes String.[] = []
bytes (String.◌∷◌ c s) = code c ∷ bytes s

-- `IBinder::FIRST_CALL_TRANSACTION`.
abbrev pub first_call_transaction : ℕ
first_call_transaction = 0x1

abbrev pub open_rs485_code : ℕ
open_rs485_code = first_call_transaction

abbrev pub send_command_code : ℕ
send_command_code = open_rs485_code + 1

abbrev pub read_reply_code : ℕ
read_reply_code = send_command_code + 1

-- `IDemo::descriptor`, which `getInterfaceDescriptor` returns.
abbrev pub descriptor : (p : Platform) → p.Text16
descriptor p = p.string16 (bytes "Demo")

module _ (p : Platform) where
  -- `remote()->transact(code, data, &reply)`: the reply is what the service left in the parcel.
  unfoldable pub transact : p.Binder → ℕ → p.Parcel → Cmd p p.Parcel
  transact remote code request s =
      let (reply, service') = p.transact remote code request s.service in
      ok reply
        (record s { service = service'; trace = s.trace ++ transaction code request reply ∷ [] })

  unfoldable pub new_string8 : p.Text16 → Cmd p Pointer
  new_string8 msg s =
      let (at, strings') = p.new_string8 msg s.strings in ok at (record s { strings = strings' })

  unfoldable pub delete_string8 : Pointer → Cmd p (Unit {0})
  delete_string8 at s = ok tt (record s { strings = p.delete_string8 at s.strings })

  unfoldable pub open_rs485 : p.Binder → Text → ℕ → ℕ → Cmd p (Unit {0})
  unfolding transact
  open_rs485 remote path port baud_rate = do
    let request = p.new_parcel
    let request = p.write_interface_token request (descriptor p)
    let request = p.write_string16 request (p.string16 path)
    let request = p.write_int32 request port
    let request = p.write_int32 request baud_rate
    reply ← transact remote open_rs485_code request
    pure tt

  unfoldable pub send_command : p.Binder → Text → Text → ℕ → ℕ → Cmd p (Unit {0})
  unfolding transact
  send_command remote token cmd port priority = do
    let request = p.new_parcel
    let request = p.write_interface_token request (descriptor p)
    let request = p.write_string16 request (p.string16 token)
    let request = p.write_string16 request (p.string16 cmd)
    let request = p.write_int32 request port
    let request = p.write_int32 request priority
    reply ← transact remote send_command_code request
    pure tt

  -- The buffer of the temporary `String8(msg)` is given back at the end of the `return`.
  unfoldable pub read_reply : p.Binder → Text → Cmd p Pointer
  unfolding transact new_string8 delete_string8
  read_reply remote token = do
    let request = p.new_parcel
    let request = p.write_interface_token request (descriptor p)
    let request = p.write_string16 request (p.string16 token)
    reply ← transact remote read_reply_code request
    let reply = (p.read_exception_code reply).1
    let msg = (p.read_string16 reply).0
    result ← new_string8 msg
    delete_string8 result
    pure result
