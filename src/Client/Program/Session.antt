-- ===== src/Client/Program/Session.antt =====
-- A whole run of `main` of RS485/tl/native_client/jni/client.cpp.
use qf.Prelude.{ℕ, ◌*◌, ◌≡◌, ◌≢◌, refl, [], ◌∷◌, ◌++◌, none, some}
use qf.Client.Platform.{Text, Platform, transaction, slept, printed, State, ok, fault}
use qf.Client.Proxy.{bytes, descriptor, open_rs485_code, send_command_code, read_reply_code}
use qf.Client.Proxy.Reply.{message, OwnsBuffer, SharesEmpty}
use qf.Client.Program.{command, time_wait_for_reply, print_line, print_reply, main}
use qf.Client.Lookup.{assert, as_interface, proxy, get_demo_serv, open_rs485, send_command}

-- The service manager is there, and hands out the binder of a service in another process.
pub record IsRunning (p : Platform) (service : p.Service) (remote : p.Binder) : Type 0 where
  pub manager : p.Manager
  pub found : p.Service
  pub has_manager : p.default_service_manager service ≡ some manager
  pub has_service : p.get_service manager (p.string16 (bytes "Demo")) service ≡ (some remote, found)
  pub is_remote : p.query_local_interface remote (descriptor p) ≡ none

-- The service has no text for any request of a reply.
pub record IsSilent (p : Platform) (text8 : p.Text16 → Text) (remote : p.Binder) : Type 0 where
  pub silent :
      (request : p.Parcel) (s : p.Service)
      → text8 (message p (p.transact remote read_reply_code request s).0) ≡ []

-- The states that a run against a remote service goes through.
module _ (p : Platform) (remote : p.Binder) where
  abbrev pub titled : p.Parcel
  titled = p.write_interface_token p.new_parcel (descriptor p)

  abbrev pub open_request : Text → ℕ → ℕ → p.Parcel
  open_request path port baud_rate =
      p.write_int32 (p.write_int32 (p.write_string16 titled (p.string16 path)) port) baud_rate

  abbrev pub send_request : Text → Text → ℕ → ℕ → p.Parcel
  send_request tkn cmd port priority =
      p.write_int32
        (p.write_int32
          (p.write_string16 (p.write_string16 titled (p.string16 tkn)) (p.string16 cmd)) port)
        priority

  abbrev pub read_request : Text → p.Parcel
  read_request tkn = p.write_string16 titled (p.string16 tkn)

  unfoldable pub transacted : ℕ → p.Parcel → State p → State p
  transacted code request s =
      let (reply, service') = p.transact remote code request s.service in
      record s { service = service'; trace = s.trace ++ transaction code request reply ∷ [] }

  unfoldable pub paused : State p → State p
  paused s = record s { trace = s.trace ++ slept (1000 * time_wait_for_reply) ∷ [] }

  -- The text that the service has for `tkn`, and the state once it is read and printed.
  unfoldable pub answer : Text → State p → p.Text16
  answer tkn s = message p (p.transact remote read_reply_code (read_request tkn) s.service).0

  unfoldable pub given_back : p.Text16 → State p → State p
  given_back msg s =
      let (at, strings') = p.new_string8 msg s.strings in
      record s { strings = p.delete_string8 at strings' }

  unfoldable pub read : Text → State p → State p
  read tkn s =
      given_back (answer tkn (paused s)) (transacted read_reply_code (read_request tkn) (paused s))

  unfoldable pub printed_reply : Text → State p → State p
  unfolding read given_back transacted paused answer
  printed_reply tkn s = let s' = read tkn s in record s' { trace = s'.trace ++ printed [] ∷ [] }

  -- The buffer of an empty text is still there when it is printed.
  pub print_reply-ok :
      (shares : SharesEmpty p)
      → IsSilent p shares.text8 remote
      → (tkn : Text) (s : State p)
      → print_reply p (proxy remote) tkn s ≡ ok tt (printed_reply tkn s)
  unfolding print_reply printed_reply read given_back transacted paused answer
  print_reply-ok shares silence tkn s =
      let empty = silence.silent (read_request tkn) s.service in
      rw (shares.stays (answer tkn (paused s)) s.strings empty, print_line)

  pub print_reply-fault :
      (owns : OwnsBuffer p) (tkn : Text) (s : State p)
      → owns.text8 (answer tkn (paused s)) ≢ []
      → print_reply p (proxy remote) tkn s ≡ fault (read tkn s)
  unfolding print_reply printed_reply read given_back transacted paused answer
  print_reply-fault owns tkn s text =
      rw (owns.released (answer tkn (paused s)) s.strings text, print_line)

  pub open-transacted :
      (path : Text) (port baud_rate : ℕ) (s : State p)
      → open_rs485 p (proxy remote) path port baud_rate s
        ≡ ok tt (transacted open_rs485_code (open_request path port baud_rate) s)
  unfolding open_rs485 transacted
  open-transacted path port baud_rate s = refl

  pub send-transacted :
      (tkn cmd : Text) (port priority : ℕ) (s : State p)
      → send_command p (proxy remote) tkn cmd port priority s
        ≡ ok tt (transacted send_command_code (send_request tkn cmd port priority) s)
  unfolding send_command transacted
  send-transacted tkn cmd port priority s = refl

  pub lookup-proxy :
      (s : State p) (running : IsRunning p s.service remote)
      → get_demo_serv p s ≡ ok (proxy remote) (record s { service = running.found })
  unfolding get_demo_serv
  lookup-proxy s running =
      rw (running.has_manager, running.has_service) (rw (running.is_remote, assert, as_interface))

  unfoldable pub opened : p.Service → State p → State p
  opened found s =
      transacted open_rs485_code (open_request (bytes "/dev/ttyUSB0") 0 9600)
        (record s { service = found })

  unfoldable pub sent : Text → Text → State p → State p
  sent tkn cmd = transacted send_command_code (send_request tkn (command cmd) 0 0)

  unfoldable pub commanded : p.Service → State p → State p
  commanded found s = sent (bytes "token3") (bytes "#010004") (
      sent (bytes "token2") (bytes "#010003") (
        sent (bytes "token1") (bytes "#010002")
          (sent (bytes "token0") (bytes "#010001") (opened found s))))

  unfoldable pub reported : State p → State p
  reported s = printed_reply (bytes "token3") (
      printed_reply (bytes "token2")
        (printed_reply (bytes "token1") (printed_reply (bytes "token0") s)))

  pub main-reported :
      (shares : SharesEmpty p)
      → IsSilent p shares.text8 remote
      → (s : State p) (running : IsRunning p s.service remote)
      → main p s ≡ ok 0 (reported (commanded running.found s))
  unfolding main reported commanded opened sent
  main-reported shares silence s running = rw (
    lookup-proxy s running,
    open-transacted,
    send-transacted,
    send-transacted,
    send-transacted,
    send-transacted,
    print_reply-ok shares silence (bytes "token0"),
    print_reply-ok shares silence (bytes "token1"),
    print_reply-ok shares silence (bytes "token2"),
    print_reply-ok shares silence (bytes "token3"),
  )
