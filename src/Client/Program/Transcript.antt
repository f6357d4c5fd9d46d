-- ===== src/Client/Program/Transcript.antt =====
-- What an observer of a whole run of RS485/tl/native_client/jni/client.cpp sees.
use mathlib.Core.List.{append_assoc}
use qf.Prelude.{ℕ, ◌≡◌, refl, ap, ◌∙◌, List, [], ◌∷◌, ◌++◌, Option, some, Bool, true}
use qf.Client.Platform.{Text, Strings, Platform, Event, transaction, slept, printed, State, Run, ok}
use qf.Client.Proxy.{bytes, descriptor, open_rs485_code, send_command_code}
use qf.Client.Proxy.Calls
use qf.Client.Proxy.Calls.{ParcelLaws, decode, Call, decode-open, decode-send, decode-read}
use qf.Client.Proxy.Reply.{message, SharesEmpty}
use qf.Client.Program.{command, main}
use qf.Client.Program.Session.{
  IsRunning, IsSilent, transacted, printed_reply, opened, sent, commanded, reported, open_request,
  send_request, read_request, main-reported,
}

module _ (p : Platform) where
  -- A step of a session: a call with the text of its reply, a pause, a printed line.
  pub data Step : Type 0 where
    call : Option (Call p) → Text → Step
    pause : ℕ → Step
    line : Text → Step

module _ (p : Platform) (laws : ParcelLaws p) (accepts : p.Text16 → Bool)
    (text8 : p.Text16 → Text) where
  unfoldable pub steps : List (Event p) → List (Step p)
  steps [] = []
  steps (transaction code request reply ∷ events) =
      call (decode p accepts code (laws.contents request)) (text8 (message p reply)) ∷ steps events
  steps (slept n ∷ events) = pause n ∷ steps events
  steps (printed text ∷ events) = line text ∷ steps events

module _ (p : Platform) (laws : ParcelLaws p) (accepts : p.Text16 → Bool)
    (text8 : p.Text16 → Text) where
  steps-append :
      (xs ys : List (Event p))
      → steps p laws accepts text8 (xs ++ ys)
        ≡ steps p laws accepts text8 xs ++ steps p laws accepts text8 ys
  unfolding steps
  steps-append [] ys = refl
  steps-append (transaction c q r ∷ xs) ys = rw (steps-append xs ys)
  steps-append (slept n ∷ xs) ys = rw (steps-append xs ys)
  steps-append (printed t ∷ xs) ys = rw (steps-append xs ys)

-- The session of the client with a service that has no text for any token, at the texts that
-- stand in the replies to the other calls.
abbrev pub script : (p : Platform) → (o c0 c1 c2 c3 : Text) → List (Step p)
script p o c0 c1 c2 c3 =
    let ask : Text → Text → Option (Call p) =
      λ tkn cmd. some (Calls.send_command (p.string16 tkn) (p.string16 (command cmd)) 0 0) in
    let get : Text → Option (Call p) = λ tkn. some (Calls.read_reply (p.string16 tkn)) in
    call (some (Calls.open_rs485 (p.string16 (bytes "/dev/ttyUSB0")) 0 9600)) o
    ∷ call (ask (bytes "token0") (bytes "#010001")) c0
    ∷ call (ask (bytes "token1") (bytes "#010002")) c1
    ∷ call (ask (bytes "token2") (bytes "#010003")) c2
    ∷ call (ask (bytes "token3") (bytes "#010004")) c3
    ∷ pause 500000
    ∷ call (get (bytes "token0")) []
    ∷ line []
    ∷ pause 500000
    ∷ call (get (bytes "token1")) []
    ∷ line []
    ∷ pause 500000
    ∷ call (get (bytes "token2")) []
    ∷ line []
    ∷ pause 500000
    ∷ call (get (bytes "token3")) []
    ∷ line []
    ∷ []

module _ (p : Platform) (laws : ParcelLaws p) (accepts : p.Text16 → Bool)
    (ours : accepts (descriptor p) ≡ true) (text8 : p.Text16 → Text) (remote : p.Binder) where
  abbrev seen : State p → List (Step p)
  seen s = steps p laws accepts text8 s.trace

  -- The text that stands in the reply to a request.
  heard : ℕ → p.Parcel → State p → Text
  heard code request s = text8 (message p (p.transact remote code request s.service).0)

  seen-transacted :
      (code : ℕ) (request : p.Parcel) (s : State p) {c : Call p}
      → decode p accepts code (laws.contents request) ≡ some c
      → seen (transacted p remote code request s)
        ≡ seen s ++ call (some c) (heard code request s) ∷ []
  unfolding transacted steps heard
  seen-transacted code request s e = steps-append p laws accepts text8 s.trace _ ∙ rw e

  seen-printed_reply :
      IsSilent p text8 remote
      → (tkn : Text) (s : State p)
      → seen (printed_reply p remote tkn s)
        ≡ seen s ++ pause 500000 ∷ call (some (Calls.read_reply (p.string16 tkn))) [] ∷ line [] ∷ []
  unfolding printed_reply steps heard
  seen-printed_reply silence tkn s =
      let empty = silence.silent (read_request p remote tkn) s.service in
      simp (append_assoc, steps-append p laws accepts text8)
        (rw (decode-read p laws accepts ours (p.string16 tkn), empty))

  seen-sent :
      (tkn cmd : Text) (s : State p)
      → seen (sent p remote tkn cmd s)
        ≡ seen s
          ++ call
              (some (Calls.send_command (p.string16 tkn) (p.string16 (command cmd)) 0 0))
              (heard send_command_code (send_request p remote tkn (command cmd) 0 0) s)
            ∷ []
  unfolding sent
  seen-sent tkn cmd s =
      seen-transacted send_command_code (send_request p remote tkn (command cmd) 0 0) s
        (decode-send p laws accepts ours (p.string16 tkn) (p.string16 (command cmd)) 0 0)

  seen-opened :
      (found : p.Service) (s : State p)
      → seen (opened p remote found s)
        ≡ seen s
          ++ call (some (Calls.open_rs485 (p.string16 (bytes "/dev/ttyUSB0")) 0 9600)) (
              heard open_rs485_code
                (open_request p remote (bytes "/dev/ttyUSB0") 0 9600)
                (record s { service = found }))
            ∷ []
  unfolding opened
  seen-opened found s =
      seen-transacted open_rs485_code (open_request p remote (bytes "/dev/ttyUSB0") 0 9600)
        (record s { service = found })
        (decode-open p laws accepts ours (p.string16 (bytes "/dev/ttyUSB0")) 0 9600)

  -- The transcript of a run, with the text of each reply.
  pub record Follows (result : Run p ℕ) : Type 0 where
    pub o : Text
    pub c0 : Text
    pub c1 : Text
    pub c2 : Text
    pub c3 : Text
    pub after : State p
    pub returns : result ≡ ok 0 after
    pub follows : seen after ≡ script p o c0 c1 c2 c3

extend {ℓ} :
    {A : Type ℓ} {xs ys zs : List A} (new : List A) → xs ≡ ys ++ new → ys ≡ zs → xs ≡ zs ++ new
extend new e f = e ∙ ap (λ l. l ++ new) f

module _ (p : Platform) (laws : ParcelLaws p) (accepts : p.Text16 → Bool)
    (ours : accepts (descriptor p) ≡ true) (shares : SharesEmpty p) (remote : p.Binder) where
  -- Against a running service that accepts the client's token and answers every request of a
  -- reply with the empty text, whose buffer is shared and stays, `main` returns 0. It opens
  -- `/dev/ttyUSB0` as port 0 at 9600 baud, sends the four commands, and for each token in order
  -- waits half a second, reads the reply and prints an empty line; it makes no other call.
  pub main-Follows :
      (service : p.Service) (strings : Strings)
      → IsRunning p service remote
      → IsSilent p shares.text8 remote
      → Follows p laws accepts ours shares.text8 remote
          (main p (record { service = service; strings = strings; trace = [] }))
  unfolding reported commanded steps
  main-Follows service strings running silence =
      let s : State p = record { service = service; strings = strings; trace = [] } in
      let s1 = opened p remote running.found s in
      let s2 = sent p remote (bytes "token0") (bytes "#010001") s1 in
      let s3 = sent p remote (bytes "token1") (bytes "#010002") s2 in
      let s4 = sent p remote (bytes "token2") (bytes "#010003") s3 in
      let s5 = sent p remote (bytes "token3") (bytes "#010004") s4 in
      let s6 = printed_reply p remote (bytes "token0") s5 in
      let s7 = printed_reply p remote (bytes "token1") s6 in
      let s8 = printed_reply p remote (bytes "token2") s7 in
      let heard_reply = seen-printed_reply p laws accepts ours shares.text8 remote silence in
      let heard_send = seen-sent p laws accepts ours shares.text8 remote in
      record {
        o = _;
        c0 = _;
        c1 = _;
        c2 = _;
        c3 = _;
        after = _;
        returns = main-reported p remote shares silence s running;
        follows = extend _ (heard_reply (bytes "token3") s8) (
            extend _ (heard_reply (bytes "token2") s7) (
              extend _ (heard_reply (bytes "token1") s6) (
                extend _ (heard_reply (bytes "token0") s5) (
                  extend _ (heard_send (bytes "token3") (bytes "#010004") s4) (
                    extend _ (heard_send (bytes "token2") (bytes "#010003") s3) (
                      extend _ (heard_send (bytes "token1") (bytes "#010002") s2) (
                        extend _ (heard_send (bytes "token0") (bytes "#010001") s1) (
                          seen-opened p laws accepts ours shares.text8 remote running.found
                            s))))))));
      }
