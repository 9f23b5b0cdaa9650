-- ===== src/Proxy/Life.antt =====
-- pftp/proxy.go: how a proxy comes to be (newProxyServer), how its connection is replaced
-- (switchOrigin), and how it ends (Close).
pub mod Switching
use pftp.Base.{
  ℕ, ◌+◌, Bool, true, false, List, [], ◌∷◌, Option, none, some, ◌==◌, length, if◌then◌else◌, Error,
  Outcome, ret, panic,
}
use pftp.Config.{Config}
use pftp.Proxy.Switch.{Link, Step, go_on, fail, crash, send_tls_command, send_proxy_header}
use pftp.Proxy.{Proxy, destroy_data_handler, welcome_of}
use pftp.Text.{Bytes, codes}
use pftp.Tls.{TlsDataSet}
use pftp.World.{
  conn_at, Conn, connected, disconnected, switched, Dialled, dialled, unreachable, Env, World, tick,
  lose,
}

-- What comes of a proxy that is switched: an error or none, or a panic.
abbrev pub Switched : Type 0
Switched = Outcome Error × Proxy × World

-- what `sendTLSCommand` leaves behind
abbrev pub finish : Proxy → Step × World → Switched
finish p (go_on e l, w) = (ret e, record p { origin = some l.conn }, w)
finish p (fail e l, w) = (ret (some e), record p { origin = some l.conn }, w)
finish p (crash, w) = (panic, p, w)

abbrev pub headed : (World → Switched) → Proxy → Error × World → Switched
headed next p (none, w) = next w
headed next p (some e, w) = (ret (some e), p, w)

-- whether the switch is complete
abbrev pub is_done : Outcome Error → Bool
is_done (ret none) = true
is_done (ret (some _)) = false
is_done panic = false

-- the deferred signal to the session, and the unsuspended proxy
abbrev pub signal : Bool → Switched → Switched
signal pass_through (r, p, w) =
    (r, record p { stop = false; pass_through = pass_through }, tick (switched (is_done r)) w)

module _ (env : Env) where
  -- `Close`: an origin connection that does not close keeps the data handler from being closed
  unfoldable pub close_proxy : Proxy → World → Error × Proxy × World
  close_proxy p w = elim (p.origin) [
    | none ↦ let (p', w') = destroy_data_handler env p w in (none, p', w')
    | some c ↦
        let gone = tick (disconnected c.id) w in
        elim (env.close w.clock) [
          | none ↦ let (p', w') = destroy_data_handler env p gone in (none, p', w')
          | some e ↦ (some e, p, gone)
        ]
  ]

  -- `newProxyServer`
  unfoldable pub new_proxy_server : Config → Bytes → World → Option Proxy × Error × World
  new_proxy_server config addr w = elim (env.dial w.clock addr) [
    | unreachable e ↦ (none, some e, lose w)
    | dialled local remote _ ↦ (
      some (record {
        origin = some (conn_at w.clock local remote);
        pass_through = true;
        stop = false;
        is_loggedin = false;
        welcome_msg = welcome_of config;
        data_connector = none;
      }),
      none,
      tick (connected w.clock) w,
    )
  ]

  -- the read loop on `stopChan`: it stops, and the proxy is closed
  unfoldable pub stop_relay : Proxy → World → Proxy × World
  stop_relay p w = let (_, p', w') = close_proxy (record p { stop = true }) w in (p', w')

  -- the new connection behind its welcome line, with the TLS commands of the client
  unfoldable pub set_up :
      Config → TlsDataSet → List Bytes → Conn → List Bytes → Proxy → World → Switched
  set_up config tls commands c [] p w =
      (ret (some (codes "cannot connect to new origin server")), p, w)
  set_up config tls commands c (_ ∷ more) p w =
      finish p (send_tls_command env config tls commands none (record { conn = c; lines = more }) w)

  -- the new connection, with a header first where the configuration asks for one
  unfoldable pub introduce :
      Config
      → TlsDataSet
      → Bytes
      → Bytes
      → List Bytes
      → Conn
      → List Bytes
      → Proxy
      → World
      → Switched
  introduce config tls client_addr origin_addr commands c lines p w =
      let next = set_up config tls commands c lines p in
      if config.proxy_protocol
      then headed next p (send_proxy_header env client_addr origin_addr w)
      else next w

  -- the outcome of the dial; a dial that fails leaves no connection
  unfoldable pub reconnect :
      Config → TlsDataSet → Bytes → Bytes → List Bytes → Proxy → World → Dialled → Switched
  reconnect config tls client_addr origin_addr commands p w (unreachable e) =
      (ret (some e), record p { origin = none }, lose w)
  reconnect config tls client_addr origin_addr commands p w (dialled local remote lines) =
      let c = conn_at w.clock local remote in
      introduce config tls client_addr origin_addr commands c lines (record p { origin = some c })
        (tick (connected w.clock) w)

  -- `switchOrigin`; the proxy is suspended meanwhile, and left as it was
  unfoldable pub switch_origin :
      Config → TlsDataSet → Bytes → Bytes → List Bytes → Proxy → World → Switched
  switch_origin config tls client_addr origin_addr commands p w =
      let (p', w') = stop_relay (record p { pass_through = false }) w in
      let done = signal p.pass_through (
        reconnect config tls client_addr origin_addr commands p' w'
          (env.dial w'.clock origin_addr)) in
      if length origin_addr == 0
      then (ret (some (codes "user id not found")), p, w)
      else if p.is_loggedin
      then (ret (some (codes "origin already switched")), p, w)
      else done
