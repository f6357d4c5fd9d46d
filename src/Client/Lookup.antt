-- ===== src/Client/Lookup.antt =====
-- Finding the service: `IDemo::asInterface` and `getDemoServ` of
-- RS485/tl/native_client/jni/binderClient.cpp, and calls through the interface pointer.
use qf.Prelude.{ℕ, Option, none, some}
use qf.Client.Platform.{Text, Pointer, Platform, ok, aborted, Cmd, ◌>>=◌}
use qf.Client.Proxy
use qf.Client.Proxy.{bytes, descriptor}

module _ (p : Platform) where
  -- What an `sp<IDemo>` that is not null points to.
  pub data Demo : Type 0 where
    in_process : p.Local → Demo
    proxy : p.Binder → Demo

module _ (p : Platform) where
  unfoldable pub as_interface : Option p.Binder → Option (Demo p)
  as_interface none = none
  as_interface (some obj) = elim (p.query_local_interface obj (descriptor p)) [
    | none ↦ some (proxy obj)
    | some intr ↦ some (in_process intr)
  ]

  -- `ASSERT(e != 0)`: what the pointer is, or `abort()`.
  unfoldable pub assert : {A : Type 0} → Option A → Cmd p A
  assert none s = aborted s
  assert (some a) s = ok a s

  unfoldable pub default_service_manager : Cmd p (Option p.Manager)
  default_service_manager s = ok (p.default_service_manager s.service) s

  unfoldable pub get_service : p.Manager → p.Text16 → Cmd p (Option p.Binder)
  get_service sm name s =
      let (binder, service') = p.get_service sm name s.service in
      ok binder (record s { service = service' })

  unfoldable pub get_demo_serv : Cmd p (Demo p)
  unfolding as_interface assert default_service_manager get_service
  get_demo_serv = do
    sm ← default_service_manager
    sm ← assert sm
    binder ← get_service sm (p.string16 (bytes "Demo"))
    binder ← assert binder
    assert (as_interface (some binder))

  -- The virtual calls `demo->…`.
  unfoldable pub open_rs485 : Demo p → Text → ℕ → ℕ → Cmd p (Unit {0})
  unfolding Proxy.open_rs485
  open_rs485 (in_process l) path port baud_rate s =
      ok tt (record s { service = p.local_open_rs485 l path port baud_rate s.service })
  open_rs485 (proxy b) path port baud_rate s = Proxy.open_rs485 p b path port baud_rate s

  unfoldable pub send_command : Demo p → Text → Text → ℕ → ℕ → Cmd p (Unit {0})
  unfolding Proxy.send_command
  send_command (in_process l) token cmd port priority s =
      ok tt (record s { service = p.local_send_command l token cmd port priority s.service })
  send_command (proxy b) token cmd port priority s =
      Proxy.send_command p b token cmd port priority s

  unfoldable pub read_reply : Demo p → Text → Cmd p Pointer
  unfolding Proxy.read_reply
  read_reply (in_process l) token s =
      let (at, service', strings') = p.local_read_reply l token s.service s.strings in
      ok at (record s { service = service'; strings = strings' })
  read_reply (proxy b) token s = Proxy.read_reply p b token s
