-- ===== src/Client/Program.antt =====
-- RS485/tl/native_client/jni/client.cpp: open the port, send four commands, print four replies.
pub mod Session
pub mod Transcript
pub mod Dangling
use qf.Prelude.{ℕ, ◌*◌, List, [], ◌∷◌, ◌++◌, Option, none, some}
use qf.Client.Platform.{
  Text, Pointer, Platform, Event, slept, printed, State, Run, ok, aborted, fault, Cmd, pure, ◌>>=◌,
  ◌>>◌,
}
use qf.Client.Proxy.{bytes}
use qf.Client.Lookup.{Demo, get_demo_serv, open_rs485, send_command, read_reply}

abbrev pub time_wait_for_reply : ℕ
time_wait_for_reply = 500

-- A command of the client: seven characters and a carriage return.
abbrev pub command : Text → Text
command body = body ++ 13 ∷ []

module _ (p : Platform) where
  unfoldable pub usleep : ℕ → Cmd p (Unit {0})
  usleep microseconds s = ok tt (record s { trace = s.trace ++ slept microseconds ∷ [] })

  -- `printf("%s\n", at)` reads the buffer at `at`.
  unfoldable pub print_line : Pointer → Cmd p (Unit {0})
  print_line at s = elim (s.strings at) [
    | none ↦ fault s
    | some text ↦ ok tt (record s { trace = s.trace ++ printed text ∷ [] })
  ]

  unfoldable pub print_reply : Demo p → Text → Cmd p (Unit {0})
  unfolding usleep print_line read_reply
  print_reply demo tkn = do
    usleep (1000 * time_wait_for_reply)
    at ← read_reply p demo tkn
    print_line at

  unfoldable pub main : Cmd p ℕ
  main = do
    demo ← get_demo_serv p
    open_rs485 p demo (bytes "/dev/ttyUSB0") 0 9600
    send_command p demo (bytes "token0") (command (bytes "#010001")) 0 0
    send_command p demo (bytes "token1") (command (bytes "#010002")) 0 0
    send_command p demo (bytes "token2") (command (bytes "#010003")) 0 0
    send_command p demo (bytes "token3") (command (bytes "#010004")) 0 0
    print_reply demo (bytes "token0")
    print_reply demo (bytes "token1")
    print_reply demo (bytes "token2")
    print_reply demo (bytes "token3")
    pure 0
