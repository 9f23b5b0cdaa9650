-- ===== src/Data.antt =====
-- pftp/data_handler.go: the data handler of a session, with its two connectors: how it is made,
-- what it listens on, and how it is closed.
pub mod Examples
pub mod Close
pub mod Open
pub mod Balance
pub mod Announce
pub mod Copy
pub mod Transfer
pub mod Connecting
use pftp.Address.{get_listen_port}
use pftp.Base.{
  ℕ, zero, suc, ◌+◌, Bool, true, false, not, ◌&&◌, ◌||◌, List, [], ◌∷◌, ◌++◌, Option, none, some,
  ltb, if◌then◌else◌, Error, Outcome, ret, panic,
}
use pftp.Config.{Config}
use pftp.Net.{split_host_port, join_host_port}
use pftp.Text.{Bytes, codes, same}
use pftp.World.{
  Conn, Listener, Event, opened, released, disconnected, slept, listening, refused, Env, World,
  tick, already_closed,
}

pub record Connector : Type 0 where
  pub listener : Option Listener
  pub communication_conn : Option Conn
  pub data_conn : Option Conn
  pub original_remote_ip : Bytes
  pub remote_ip : Bytes
  pub remote_port : Bytes
  pub local_ip : Bytes
  pub local_port : Bytes
  pub needs_listen : Bool
  pub is_client : Bool
  pub mode : Bytes

pub record DataHandler : Type 0 where
  pub client_conn : Connector
  pub origin_conn : Connector
  pub closed : Bool

-- `checkNeedListen`
unfoldable pub check_need_listen : Bytes → Bytes → Bool → Bool
unfolding same
check_need_listen client_mode origin_mode true =
    same client_mode (codes "PASV") || same client_mode (codes "EPSV")
check_need_listen client_mode origin_mode false =
    if same origin_mode (codes "PORT") || same origin_mode (codes "EPRT")
    then true
    else same origin_mode (codes "CLIENT")
      && (same client_mode (codes "PORT") || same client_mode (codes "EPRT"))

-- The host and the port of an address; both are empty where it does not parse.
pub parts : Bytes → Bytes × Bytes
parts addr = elim (split_host_port addr) [ none ↦ ([], []) | some p ↦ p ]

pub connector : Option Conn → Bool → Bytes → Connector
unfolding parts
connector none is_client mode = record {
  listener = none;
  communication_conn = none;
  data_conn = none;
  original_remote_ip = [];
  remote_ip = [];
  remote_port = [];
  local_ip = [];
  local_port = [];
  needs_listen = false;
  is_client = is_client;
  mode = mode;
}
connector (some c) is_client mode = record {
  listener = none;
  communication_conn = some c;
  data_conn = none;
  original_remote_ip = (parts c.remote_addr).0;
  remote_ip = [];
  remote_port = [];
  local_ip = (parts c.local_addr).0;
  local_port = (parts c.local_addr).1;
  needs_listen = false;
  is_client = is_client;
  mode = mode;
}

abbrev pub connection_timeout : ℕ
connection_timeout = 30

-- What came of the loop: a listener, an error, or rounds that did not suffice.
pub data Search : Type 0 where
  found : Listener → Search
  gave_up : Bytes → Search
  crashed : Search
  out_of_rounds : Search

-- A handler, or an error after the handler is closed again, or a panic.
pub data Made : Type 0 where
  made : DataHandler → Made
  refused_with : Bytes → Made
  broke : Made

-- where `clientListenOrDial` and `originListenOrDial` dial
unfoldable pub client_dial_addr : DataHandler → Bytes
client_dial_addr d = join_host_port d.client_conn.remote_ip d.client_conn.remote_port

unfoldable pub origin_dial_addr : DataHandler → Bytes
origin_dial_addr d = join_host_port d.origin_conn.remote_ip d.origin_conn.remote_port

module _ (env : Env) where
  -- one round of the loop of `setNewListener`, with the next round as the last argument
  pub listen_round : ℕ → Outcome Bytes → World → (World → Search × World) → Search × World
  listen_round counter panic w again = (crashed, w)
  listen_round counter (ret port) w again =
      let asked : World = record w { clock = w.clock + 1 } in
      let answered : Search × World = elim (env.listen w.clock port) [
        | listening addr ↦
            (found (record { opened_at = w.clock; addr = addr }), tick (opened w.clock) w)
        | refused e ↦
            let wait = again (tick slept w) in
            if ltb connection_timeout counter then (gave_up e, asked) else wait
      ] in
      elim (env.resolve w.clock port) [ some e ↦ (gave_up e, asked) | none ↦ answered ]

  pub listen_loop : ℕ → Bytes → ℕ → World → Search × World
  unfolding listen_round
  listen_loop zero range counter w = (out_of_rounds, w)
  listen_loop (suc rounds) range counter w =
      listen_round (counter + 1) (get_listen_port (env.intn w.clock) range) w
        (listen_loop rounds range (counter + 1))

  -- `setNewListener`; the loop gives up in round 31 at the latest
  unfoldable pub set_new_listener : Config → World → Search × World
  unfolding listen_loop
  set_new_listener config = listen_loop (connection_timeout + 1) config.data_port_range 0

  -- the error that `Close` leaves behind in `lastErr`
  pub after_close : Bytes → Error → Error → Error
  after_close what none last = last
  after_close what (some e) last = if already_closed e then last else some (what ++ e)

  pub close_conn : Bytes → Option Conn → Error → World → Error × World
  unfolding after_close
  close_conn what none last w = (last, w)
  close_conn what (some c) last w =
      (after_close what (env.close w.clock) last, tick (disconnected c.id) w)

  pub close_listener : Bytes → Option Listener → Error → World → Error × World
  unfolding after_close
  close_listener what none last w = (last, w)
  close_listener what (some l) last w =
      (after_close what (env.close w.clock) last, tick (released l.opened_at) w)

  -- the body of `Close` on a handler that is open
  pub close_open : DataHandler → World → DataHandler × Error × World
  unfolding close_conn close_listener
  close_open d w =
      let (e1, w1) =
        close_conn (codes "client data connection close error: ") d.client_conn.data_conn none w in
      let (e2, w2) =
        close_conn (codes "origin data connection close error: ") d.origin_conn.data_conn e1 w1 in
      let (e3, w3) =
        close_listener (codes "client data listener close error: ") d.client_conn.listener e2 w2 in
      let (e4, w4) =
        close_listener (codes "origin data listener close error: ") d.origin_conn.listener e3 w3 in
      (
        record d {
          client_conn = record (d.client_conn) { data_conn = none; listener = none };
          origin_conn = record (d.origin_conn) { data_conn = none; listener = none };
          closed = true;
        },
        e4,
        record w4 { in_data_transfer = false },
      )

  -- `Close`
  unfoldable pub close : DataHandler → World → DataHandler × Error × World
  unfolding close_open
  close d w = if d.closed then (d, none, w) else close_open d w

  -- the handler before any listener
  pub bare_handler : Config → Option Conn → Option Conn → Bytes → DataHandler
  unfolding connector
  bare_handler config client_conn origin_conn mode = record {
    client_conn = connector client_conn true mode;
    origin_conn = connector origin_conn false config.transfer_mode;
    closed = false;
  }

  -- the outcome of a `setNewListener` whose listener `keep` puts into the handler
  pub with_listener :
      (Listener → DataHandler)
      → DataHandler
      → Search × World
      → (DataHandler → World → Made × World)
      → Made × World
  unfolding close
  with_listener keep d (found l, w) next = next (keep l) w
  with_listener keep d (gave_up e, w) next = (refused_with e, (close d w).2)
  with_listener keep d (crashed, w) next = (broke, w)
  with_listener keep d (out_of_rounds, w) next = (broke, w)

  pub open_origin : Config → DataHandler → World → Made × World
  unfolding with_listener set_new_listener check_need_listen
  open_origin config d w =
      let keep = λ (l : Listener). record d {
        origin_conn = record (d.origin_conn) { listener = some l; needs_listen = true };
      } in
      let listened =
        with_listener keep d (set_new_listener config w)
          (λ (h : DataHandler) (v : World). (made h, v)) in
      if check_need_listen d.client_conn.mode d.origin_conn.mode false
      then listened
      else (made d, w)

  pub open_both : Config → DataHandler → World → Made × World
  unfolding open_origin
  open_both config d w =
      let keep = λ (l : Listener). record d {
        client_conn = record (d.client_conn) { listener = some l; needs_listen = true };
      } in
      let listened = with_listener keep d (set_new_listener config w) (open_origin config) in
      if check_need_listen d.client_conn.mode d.origin_conn.mode true
      then listened
      else open_origin config d w

  -- `newDataHandler`
  unfoldable pub new_data_handler :
      Config → Option Conn → Option Conn → Bytes → World → Made × World
  unfolding bare_handler open_both
  new_data_handler config none origin_conn mode w =
      (made (bare_handler config none origin_conn mode), w)
  new_data_handler config (some c) none mode w = (made (bare_handler config (some c) none mode), w)
  new_data_handler config (some c) (some o) mode w =
      open_both config (bare_handler config (some c) (some o) mode) w
