-- ===== src/Client/Tests.antt =====
-- The client on the simulated platform.
use qf.Prelude.{ℕ, ◌≡◌, ◌≢◌, refl, [], ◌∷◌, none}
use qf.Client.Platform.{Text, State, ok, fault}
use qf.Client.Proxy
use qf.Client.Proxy.{bytes, descriptor}
use qf.Client.Proxy.Calls
use qf.Client.Proxy.Calls.{Sends, open_rs485-Sends, send_command-Sends}
use qf.Client.Proxy.Reply.{Reads, read_reply-Reads, read_reply-dangling}
use qf.Client.Program.{main}
use qf.Client.Program.Session.{answer, paused, read, commanded}
use qf.Client.Program.Transcript.{Follows, main-Follows}
use qf.Client.Program.Dangling.{main-fault}
use qf.Client.Simulated.{
  simulated, counted, nothing, parcel_laws, running, start, owns, shares, silence, starts_with_d,
}

not_empty : {c : ℕ} {t : Text} → c ∷ t ≢ []
not_empty e = cc e

main-Follows_example :
    Follows
      (simulated nothing)
      (parcel_laws nothing)
      starts_with_d
      refl
      (λ t. t)
      tt
      (main (simulated nothing) (start nothing))
main-Follows_example =
    main-Follows (simulated nothing) (parcel_laws nothing) starts_with_d refl shares tt 0
      (λ a. none) (running nothing) silence

main-fault_example :
    main (simulated counted) (start _)
    ≡ fault (
        read (simulated counted) tt (bytes "token0") (commanded (simulated counted) tt 0 (start _)))
unfolding commanded answer paused
main-fault_example = main-fault (simulated counted) owns tt (start _) (running _) not_empty

open_rs485-Sends_example :
    Sends
      (simulated counted)
      (parcel_laws counted)
      starts_with_d
      tt
      (Calls.open_rs485 (bytes "/dev/ttyUSB0") 0 9600)
      (start counted)
      (Proxy.open_rs485 (simulated counted) tt (bytes "/dev/ttyUSB0") 0 9600 (start counted))
open_rs485-Sends_example =
    open_rs485-Sends (simulated counted) (parcel_laws counted) starts_with_d refl tt (start counted)
      (bytes "/dev/ttyUSB0") 0 9600

send_command-Sends_example :
    Sends
      (simulated counted)
      (parcel_laws counted)
      starts_with_d
      tt
      (Calls.send_command (bytes "token0") (bytes "#010001") 1 2)
      (start counted)
      (Proxy.send_command
        (simulated counted)
        tt
        (bytes "token0")
        (bytes "#010001")
        1
        2
        (start counted))
send_command-Sends_example =
    send_command-Sends (simulated counted) (parcel_laws counted) starts_with_d refl tt
      (start counted) (bytes "token0") (bytes "#010001") 1 2

read_reply-Reads_example :
    Reads
      (simulated counted)
      (parcel_laws counted)
      starts_with_d
      tt
      (bytes "token1")
      (start counted)
      (Proxy.read_reply (simulated counted) tt (bytes "token1") (start counted))
read_reply-Reads_example =
    read_reply-Reads (simulated counted) (parcel_laws counted) starts_with_d refl tt (start counted)
      (bytes "token1")

read_reply-dangling_example :
    (at : ℕ) × (s' : State (simulated counted)) × (Proxy.read_reply
        (simulated counted)
        tt
        (bytes "token1")
        (start _)
      ≡ ok at s')
    × (s'.strings at ≡ none)
read_reply-dangling_example =
    read_reply-dangling (simulated counted) tt (start _) (bytes "token1") owns not_empty
