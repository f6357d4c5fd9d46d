-- ===== src/Client/Program/Dangling.antt =====
-- The first reply that `main` of RS485/tl/native_client/jni/client.cpp prints is read through the
-- pointer into a temporary that is already destroyed.
use qf.Prelude.{◌≡◌, ◌≢◌, []}
use qf.Client.Platform.{Platform, State, fault}
use qf.Client.Proxy.{bytes}
use qf.Client.Proxy.Reply.{OwnsBuffer}
use qf.Client.Program.{main}
use qf.Client.Program.Session.{
  IsRunning, paused, answer, read, opened, sent, commanded, lookup-proxy, open-transacted,
  send-transacted, print_reply-fault,
}

module _ (p : Platform) (owns : OwnsBuffer p) (remote : p.Binder) where
  -- Where a `String8` gives its buffer back, `main` against a running service stops at the first
  -- `printf`, by a read of storage that is not allocated, as soon as the reply for `token0` is
  -- not empty; the five calls before it and that `readReply` have been made.
  pub main-fault :
      (s : State p) (running : IsRunning p s.service remote)
      → owns.text8
          (answer p remote (bytes "token0") (paused p remote (commanded p remote running.found s)))
        ≢ []
      → main p s ≡ fault (read p remote (bytes "token0") (commanded p remote running.found s))
  unfolding main commanded opened sent
  main-fault s running text = rw (
    lookup-proxy p remote s running,
    open-transacted p remote,
    send-transacted p remote,
    send-transacted p remote,
    send-transacted p remote,
    send-transacted p remote,
    print_reply-fault p remote owns _ _ text,
  )
