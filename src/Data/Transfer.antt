-- ===== src/Data/Transfer.antt =====
-- pftp/data_handler.go: a transfer (StartDataTransfer). The client is connected first; then its TLS
-- and the connection to the origin come in either order, and both directions are copied.
pub mod Ends
pub mod Whole
pub mod Copies
pub mod Leak
pub mod Examples
use pftp.Base.{
  ℕ, ◌+◌, Bool, true, false, List, [], ◌∷◌, ◌++◌, Option, none, some, if◌then◌else◌, Error, Outcome,
  ret, panic,
}
use pftp.Data.Copy.{Round, Stop, not_begun, copy_packets}
use pftp.Data.{DataHandler, client_dial_addr, origin_dial_addr, close}
use pftp.Net.{join_host_port}
use pftp.Text.{Bytes, codes}
use pftp.Tls.{TlsConfig, TlsDataSet, get_tls_config}
use pftp.World.{
  conn_at, Conn, Listener, connected, released, handshake, Accepted, incoming, none_came, Dialled,
  dialled, unreachable, Handshake, agreed, failed, Env, World, tick, lose,
}

-- How the client is connected: with a report to the goroutine of the origin, an error or none; with an
-- error before any report; or with a panic.
pub data Connected : Type 0 where
  reported : Error → Connected
  unreported : Bytes → Connected
  broken : Connected

-- what is left of a part of the set-up
abbrev pub Part : Type 0
Part = Outcome Error × DataHandler × World

-- The order of the two parts behind the connection of the client.
pub data Order : Type 0 where
  client_first : Order
  origin_first : Order

-- What comes of a transfer: the two copies, to the client and to the origin; an error of the set-up;
-- a wait that does not end; or a panic.
pub data Transfer : Type 0 where
  completed : Bytes × Stop → Bytes × Stop → Transfer
  not_set_up : Bytes → Transfer
  stuck : Transfer
  crashed : Transfer

abbrev pub put_client : DataHandler → Conn → DataHandler
put_client d c = record d { client_conn = record (d.client_conn) { data_conn = some c } }

abbrev pub put_origin : DataHandler → Conn → DataHandler
put_origin d c = record d { origin_conn = record (d.origin_conn) { data_conn = some c } }

abbrev aborted : Bytes
aborted = codes "abort: data handler already closed"

abbrev pub no_client : Bytes
no_client = codes "cannot connect to client data address: <nil>, "

abbrev pub no_origin : Bytes
no_origin = codes "cannot connect to origin data address: <nil>, "

module _ (env : Env) where
  -- the connection accepted and the listener closed, whose error is only logged
  abbrev pub after_accept :
      (Conn → DataHandler) → DataHandler → Listener → World → Accepted → Error × DataHandler × World
  after_accept put d l w (none_came e) = (some e, d, lose w)
  after_accept put d l w (incoming local remote) = (
    none,
    put (conn_at w.clock local remote),
    tick (released l.opened_at) (tick (connected w.clock) w),
  )

  abbrev pub after_dial :
      (Conn → DataHandler) → Bytes → DataHandler → World → Dialled → Error × DataHandler × World
  after_dial put what d w (unreachable e) = (some (what ++ e), d, lose w)
  after_dial put what d w (dialled local remote _) =
      (none, put (conn_at w.clock local remote), tick (connected w.clock) w)

  abbrev pub report : Error × DataHandler × World → Connected × DataHandler × World
  report (e, d, w) = (reported e, d, w)

  -- the listener toward the client, on a handler that is open
  abbrev pub accept_client : Option Listener → DataHandler → World → Connected × DataHandler × World
  accept_client none d w = (broken, d, w)
  accept_client (some l) d w = report (after_accept (put_client d) d l w (env.accept w.clock))

  -- the dial from port 20
  abbrev pub dial_client : DataHandler → World → Error → Connected × DataHandler × World
  dial_client d w (some e) = (unreported (codes "cannot resolve local address: " ++ e), d, lose w)
  dial_client d w none =
      report (
        after_dial (put_client d) no_client d (lose w)
          (env.dial (w.clock + 1) (client_dial_addr d)))

  -- `clientListenOrDial`, up to its report
  unfoldable pub connect_client : DataHandler → World → Connected × DataHandler × World
  connect_client d w =
      let accepting = accept_client d.client_conn.listener d w in
      if d.client_conn.needs_listen
      then (if d.closed then (unreported aborted, d, w) else accepting)
      else dial_client d w (env.resolve w.clock (join_host_port [] (codes "20")))

  abbrev pub as_part : Error × DataHandler × World → Part
  as_part (e, d, w) = (ret e, d, w)

  abbrev pub accept_origin : Option Listener → DataHandler → World → Part
  accept_origin none d w = (panic, d, w)
  accept_origin (some l) d w = as_part (after_accept (put_origin d) d l w (env.accept w.clock))

  -- `originListenOrDial`, up to its TLS; a dial does not ask whether the handler is closed
  unfoldable pub connect_origin : DataHandler → World → Part
  connect_origin d w =
      let accepting = accept_origin d.origin_conn.listener d w in
      let dialling =
        as_part (after_dial (put_origin d) no_origin d w (env.dial w.clock (origin_dial_addr d))) in
      if d.origin_conn.needs_listen
      then (if d.closed then (ret (some aborted), d, w) else accepting)
      else dialling

  abbrev pub after_shake :
      (Conn → DataHandler) → Conn → Bytes → DataHandler → World → Handshake → Part
  after_shake put c what d w (failed e) = (ret (some (what ++ e)), d, tick handshake w)
  after_shake put c what d w (agreed _ _ _) =
      (ret none, put (record c { in_tls = true }), tick handshake w)

  -- the handshake on a data connection; there is none on a nil connection
  abbrev pub shake_on : Option Conn → (Conn → DataHandler) → Bytes → DataHandler → World → Part
  shake_on none put what d w = (panic, d, w)
  shake_on (some c) put what d w = after_shake put c what d w (env.shake w.clock)

  abbrev pub with_tls_config :
      Outcome (Option TlsConfig)
      → Option Conn
      → (Conn → DataHandler)
      → Bytes
      → Bytes
      → DataHandler
      → World
      → Part
  with_tls_config panic c put missing what d w = (panic, d, w)
  with_tls_config (ret none) c put missing what d w = (ret (some missing), d, w)
  with_tls_config (ret (some _)) c put missing what d w =
      let shaken = shake_on c put what d w in
      if d.closed then (ret (some aborted), d, w) else shaken

  module _ (needs_tls : Bool) (tls : TlsDataSet) where
    -- the TLS part of `clientListenOrDial`
    unfoldable pub secure_client : DataHandler → World → Part
    secure_client d w =
        if needs_tls
        then with_tls_config (get_tls_config tls.for_client) d.client_conn.data_conn (put_client d)
            (codes "cannot get client TLS config for data transfer. abort data transfer")
            (codes "TLS client data connection handshake got error: ") d w
        else (ret none, d, w)

    -- the TLS part of `originListenOrDial`
    unfoldable pub secure_origin : DataHandler → World → Part
    secure_origin d w =
        if needs_tls
        then with_tls_config (get_tls_config tls.for_origin) d.origin_conn.data_conn (put_origin d)
            (codes "cannot get origin TLS config for data transfer. abort data transfer")
            (codes "TLS origin data connection handshake got error: ") d w
        else (ret none, d, w)

    abbrev pub then_secure : Part → Part
    then_secure (ret none, d, w) = secure_origin d w
    then_secure (ret (some e), d, w) = (ret (some e), d, w)
    then_secure (panic, d, w) = (panic, d, w)

    -- a part that fails closes the handler
    abbrev pub or_close : Part → Part
    or_close (ret none, d, w) = (ret none, d, w)
    or_close (ret (some e), d, w) = let (d', _, w') = close env d w in (ret (some e), d', w')
    or_close (panic, d, w) = (panic, d, w)

    -- `connectionCloser(d, d.log)`, which is deferred
    abbrev pub closing : Transfer → DataHandler → World → Transfer × DataHandler × World
    closing t d w = let (d', _, w') = close env d w in (t, d', w')

    -- `run` and what is deferred: a handler that is closed already ends both copies before they read,
    -- and a connection that is nil cannot be read or written
    abbrev pub copying :
        List Round
        → List Round
        → Bool
        → Option Conn
        → Option Conn
        → DataHandler
        → World
        → Transfer × DataHandler × World
    copying down up true c o d w = closing (completed not_begun not_begun) d w
    copying down up false (some _) (some _) d w =
        closing (completed (copy_packets down) (copy_packets up)) d w
    copying down up false (some _) none d w = (crashed, d, w)
    copying down up false none o d w = (crashed, d, w)

    -- the two parts behind the connection of the client; the first error counts
    abbrev pub after_parts : List Round → List Round → Error → Part → Transfer × DataHandler × World
    after_parts down up (some e) (ret _, d, w) = closing (not_set_up e) d w
    after_parts down up none (ret (some e), d, w) = closing (not_set_up e) d w
    after_parts down up none (ret none, d, w) =
        copying down up d.closed d.client_conn.data_conn d.origin_conn.data_conn d w
    after_parts down up e (panic, d, w) = (crashed, d, w)

    abbrev pub second_part :
        (DataHandler → World → Part)
        → List Round
        → List Round
        → Part
        → Transfer × DataHandler × World
    second_part next down up (ret e, d, w) = after_parts down up e (or_close (next d w))
    second_part next down up (panic, d, w) = (crashed, d, w)

    abbrev pub origin_part : DataHandler → World → Part
    origin_part d w = then_secure (connect_origin d w)

    abbrev pub after_connect :
        Order
        → List Round
        → List Round
        → Connected × DataHandler × World
        → Transfer × DataHandler × World
    after_connect order down up (broken, d, w) = (crashed, d, w)
    after_connect order down up (unreported e, d, w) =
        let (d', _, w') = close env d w in (stuck, d', w')
    after_connect order down up (reported (some e), d, w) = closing (not_set_up e) d w
    after_connect client_first down up (reported none, d, w) =
        second_part origin_part down up (or_close (secure_client d w))
    after_connect origin_first down up (reported none, d, w) =
        second_part secure_client down up (or_close (origin_part d w))

    -- `StartDataTransfer` and `run`, with what the two directions read
    unfoldable pub start_data_transfer :
        Order → List Round → List Round → DataHandler → World → Transfer × DataHandler × World
    start_data_transfer order down up d w = after_connect order down up (connect_client d w)
