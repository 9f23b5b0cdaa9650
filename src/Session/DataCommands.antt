-- ===== src/Session/DataCommands.antt =====
-- pftp/handle_commands.go: PORT, EPRT, PASV and EPSV (handleDATA).
use pftp.Address.{port_args}
use pftp.Base.{ℕ, not, ◌++◌, Option, none, some, if◌then◌else◌, Error, Outcome, ret, panic}
use pftp.Command.{crlf, first}
use pftp.Data.Announce.{parse_port_command, parse_eprt_command}
use pftp.Data.{DataHandler, Made, made, refused_with, broke, new_data_handler, close}
use pftp.Proxy.{Proxy, is_data_transfer_started, set_data_handler, listen_port}
use pftp.Session.{
  Session, Result, Handler, fails, succeeds, send_to_origin, or_fail, with_proxy, internal_error,
  transfer_busy,
}
use pftp.Text.{Bytes, codes, same, split}
use pftp.World.{Conn, Env}

module _ (env : Env) where
  -- the session with this data handler behind its proxy
  abbrev pub put_handler : DataHandler → Proxy → Session → Session
  put_handler d p s = record s { proxy = some (record p { data_connector = some d }) }

  -- `c.proxy.dataConnector.Close()`, and then the result
  abbrev pub close_and_fail : ℕ → Bytes → Bytes → DataHandler → Proxy → Handler
  close_and_fail code msg e d p s =
      let (d', _, w) = close env d s.world in
      fails code msg (some e) (put_handler d' p (record s { world = w }))

  abbrev pub told : DataHandler → Proxy → Error × Session → Outcome (Option Result) × Session
  told d p (none, s) = succeeds s
  told d p (some e, s) = close_and_fail 500 (internal_error env e) e d p s

  -- the end of the handler: the command to the origin
  abbrev pub tell_origin : Bytes → DataHandler → Proxy → Handler
  tell_origin msg d p s = told d p (send_to_origin env msg s)

  -- `strings.Split(c.proxy.GetConn().LocalAddr().String(), ":")[0]`
  abbrev pub listen_ip : Conn → Bytes
  listen_ip c = first (split b':' c.local_addr)

  unfoldable pub port_command : Bytes → ℕ → Bytes
  port_command ip port = codes "PORT " ++ (port_args ip port ++ crlf)

  -- the command that makes the origin open or use its side; a nil pointer panics
  unfoldable pub origin_command : DataHandler → Proxy → Session → Outcome Bytes
  unfolding same
  origin_command d p s =
      let active : Outcome Bytes = elim (d.origin_conn.listener) [
        | none ↦ panic
        | some l ↦ elim (p.origin) [
          | none ↦ panic
          | some c ↦ ret (port_command (listen_ip c) (listen_port l))
        ]
      ] in
      if d.origin_conn.needs_listen
      then active
      else if same s.config.transfer_mode (codes "CLIENT")
      then ret (s.command ++ crlf)
      else ret (s.config.transfer_mode ++ crlf)

  abbrev pub tell : Outcome Bytes → DataHandler → Proxy → Handler
  tell panic d p s = (panic, s)
  tell (ret msg) d p s = tell_origin msg d p s

  -- behind the parsing of PORT and EPRT
  unfoldable pub engage : DataHandler → Proxy → Handler
  unfolding origin_command
  engage d p s =
      if d.closed
      then fails 425 (codes "Can't open data connection") none s
      else tell (origin_command d p s) d p s

  abbrev pub eprt_code : Bytes → ℕ × Bytes
  eprt_code e =
      if same e (codes "unknown network protocol")
      then (522, e)
      else (501, codes "cannot parse EPRT command")

  abbrev pub parsed :
      (Bytes → ℕ × Bytes) → Outcome (DataHandler × Error) → DataHandler → Proxy → Handler
  parsed refusal panic d p s = (panic, s)
  parsed refusal (ret (d', none)) d p s = engage d' p (put_handler d' p s)
  parsed refusal (ret (d', some e)) d p s =
      close_and_fail (refusal e).0 (refusal e).1 e d' p (put_handler d' p s)

  -- behind `SetDataHandler`
  unfoldable pub read_command : DataHandler → Proxy → Handler
  unfolding engage same
  read_command d p s =
      let port =
        parsed (λ _. (501, codes "cannot parse PORT command")) (parse_port_command s.line d) d p
          s in
      let eprt = parsed eprt_code (parse_eprt_command s.line d) d p s in
      if same s.command (codes "PORT")
      then port
      else if same s.command (codes "EPRT")
      then eprt
      else engage d p s

  unfoldable pub attach : Made → Proxy → Handler
  unfolding read_command set_data_handler
  attach (made d) p s =
      let (p', w) = set_data_handler env d p s.world in
      read_command d p' (record s { proxy = some p'; world = w })
  attach (refused_with e) p s = fails 421 (codes "cannot create data channel socket") (some e) s
  attach broke p s = (panic, s)

  -- the branch of the data channel proxy
  unfoldable pub open_channel : Proxy → Handler
  unfolding attach is_data_transfer_started new_data_handler
  open_channel p s =
      let (m, w) = new_data_handler env s.config (some s.conn) p.origin s.command s.world in
      let attached = attach m p (record s { world = w }) in
      if is_data_transfer_started p s.world.in_data_transfer
      then fails 450 (transfer_busy env s) none s
      else attached

  -- `handleDATA`, on a proxy that is not nil
  unfoldable pub data_by : Proxy → Handler
  unfolding open_channel send_to_origin
  data_by p s =
      if not p.is_loggedin
      then fails 530 (codes "Please login with USER and PASS") none s
      else if s.config.data_chan_proxy
      then open_channel p s
      else or_fail env 530 (λ _. codes "I can't deal with you (proxy error for handle data)")
          (λ e. some e) (send_to_origin env s.line s)

  -- `handleDATA`
  unfoldable pub handle_data : Handler
  unfolding data_by
  handle_data = with_proxy env data_by
