-- ===== src/Session.antt =====
-- pftp/handle_commands.go and pftp/client_handler.go: the session of one client, and the handlers of
-- its commands. A session is the client handler with its proxy and what they share.
pub mod Examples
pub mod Guards
pub mod Header
pub mod Origin
pub mod Secure
pub mod User
pub mod Start
pub mod Reading
pub mod Runs
pub mod Dispatch
pub mod DataCommands
use pftp.Address.{port_args}
use pftp.Base.{
  ℕ, suc, ◌+◌, Bool, true, false, not, ◌&&◌, ◌||◌, List, [], ◌∷◌, ◌++◌, Option, none, some, ◌==◌,
  if◌then◌else◌, Error, Outcome, ret, panic, ◌>>=◌, get_elem?,
}
use pftp.Command.{crlf, command_line_check, get_command, first}
use pftp.Config.{Config}
use pftp.Data.Announce.{parse_port_command, parse_eprt_command}
use pftp.Data.{DataHandler, Made, made, refused_with, broke, new_data_handler, close}
use pftp.Net.{parse_ip}
use pftp.Proxy.{
  Proxy, unsuspend, is_data_handler_available, is_data_transfer_started, set_data_handler,
  listen_port,
}
use pftp.Text.Decimal.{itoa}
use pftp.Text.{Bytes, codes, same, split, split_max, trim, is_crlf, to_upper}
use pftp.Tls.{
  TlsDataSet, get_tls_config, set_server_name, set_specific_tls_version, set_cipher_suite,
}
use pftp.World.{
  Conn, Event, to_client, to_origin, transfer, handshake, Handshake, agreed, failed, Env, World,
  tick,
}

-- `Context`, which the middleware of a command may change.
pub record Context : Type 0 where
  pub remote_addr : Bytes
  pub client_addr : Bytes

pub record Session : Type 0 where
  pub config : Config
  pub conn : Conn
  pub tls : TlsDataSet
  pub control_in_tls : Bool
  pub transfer_in_tls : Bool
  pub line : Bytes
  pub command : Bytes
  pub param : Bytes
  pub proxy : Option Proxy
  pub context : Context
  pub src_ip : Bytes
  pub previous_tls_commands : List Bytes
  pub world : World

-- `result`: code, message and error; the logger is left out.
pub record Result : Type 0 where
  pub code : ℕ
  pub msg : Bytes
  pub err : Error

-- A handler ends with a result or nil, or panics; the session is as it left it.
abbrev pub Handler : Type 0
Handler = Session → Outcome (Option Result) × Session

abbrev pub fails : ℕ → Bytes → Error → Handler
fails code msg err s = (ret (some (record { code = code; msg = msg; err = err })), s)

abbrev pub succeeds : Handler
succeeds s = (ret none, s)

-- `parseLine`: the parameter stays as it was where the line has none.
unfoldable pub parse_line : (Bytes → Bytes) → Bytes → Session → Session
unfolding get_command to_upper
parse_line unicode_upper line s =
    let params = get_command line in
    record s {
      line = line;
      command = to_upper unicode_upper (first params);
      param = elim (get_elem? params 1) [ none ↦ s.param | some p ↦ p ];
    }

module _ (env : Env) where
  -- a write to a connection: what was written is an event unless the write fails
  pub write : Event → Session → Error × Session
  write e s = elim (env.write s.world.clock) [
    | none ↦ (none, record s { world = tick e s.world })
    | some why ↦ (some why, record s { world = record (s.world) { clock = s.world.clock + 1 } })
  ]

  -- `writeMessage`
  unfoldable pub write_message : ℕ → Bytes → Session → Error × Session
  unfolding write
  write_message code msg = write (to_client (itoa code ++ (b' ' ∷ (msg ++ crlf))))

  -- `Response`
  unfoldable pub response : Result → Session → Error × Session
  unfolding write_message
  response r s = if r.code == 0 then (none, s) else write_message r.code r.msg s

  -- `sendToOrigin`
  unfoldable pub send_to_origin : Bytes → Session → Error × Session
  unfolding write
  send_to_origin line s =
      let (checked, wrong) = command_line_check line in
      elim wrong [ some e ↦ (some e, s) | none ↦ write (to_origin checked) s ]

  -- `if err := …; err != nil { return &result{…} }; return nil`
  abbrev pub or_fail :
      ℕ → (Bytes → Bytes) → (Bytes → Error) → Error × Session → Outcome (Option Result) × Session
  or_fail code msg err (none, s) = succeeds s
  or_fail code msg err (some e, s) = fails code (msg e) (err e) s

  abbrev pub internal_error : Bytes → Bytes
  internal_error e = codes "Internal error: " ++ e

  abbrev pub transfer_busy : Session → Bytes
  transfer_busy s = s.command ++ codes ": data transfer in progress"

  -- a method of a nil proxy panics
  abbrev pub with_proxy : (Proxy → Handler) → Handler
  with_proxy h s = elim (s.proxy) [ none ↦ (panic, s) | some p ↦ h p s ]

  -- the direction that StartDataTransfer is given, by the command
  unfoldable pub direction : Bytes → Option Bytes
  unfolding same
  direction command =
      if same command (codes "RETR")
        || (same command (codes "LIST")
            || (same command (codes "MLSD") || same command (codes "NLST")))
      then some (codes "download")
      else if same command (codes "STOR")
          || (same command (codes "STOU") || same command (codes "APPE"))
      then some (codes "upload")
      else none

  -- `go c.proxy.dataConnector.StartDataTransfer(…)`: the transfer runs beside the session
  unfoldable pub start_transfer : Session → Session
  unfolding direction
  start_transfer s = elim (direction s.command) [
    | none ↦ s
    | some d ↦ record s { world = tick (transfer d) s.world }
  ]

  -- `handleTransfer`, on a proxy that is not nil
  unfoldable pub transfer_by : Proxy → Handler
  unfolding is_data_handler_available is_data_transfer_started start_transfer
  transfer_by p s =
      if not p.is_loggedin
      then fails 530 (codes "Please login with USER and PASS") none s
      else if not (is_data_handler_available p)
      then fails 425 (codes "Can't open data connection") none s
      else if is_data_transfer_started p s.world.in_data_transfer
      then fails 450 (transfer_busy s) none s
      else or_fail 500 internal_error (λ _. none) (send_to_origin s.line (start_transfer s))

  -- `handleTransfer`
  unfoldable pub handle_transfer : Handler
  unfolding transfer_by
  handle_transfer = with_proxy transfer_by

  -- `handlePROXY`
  unfoldable pub handle_proxy : Handler
  unfolding split_max trim parse_ip
  handle_proxy s = elim (split_max b' ' 5 (trim is_crlf s.line)) [
    | _ ∷ (_ ∷ (source ∷ (destination ∷ (port ∷ (_ ∷ []))))) ↦ elim (parse_ip source) [
      | none ↦
          fails 500 (codes "Proxy header parse error") (some (codes "wrong source ip address")) s
      | some _ ↦ elim (parse_ip destination) [
        | none ↦
            fails 500 (codes "Proxy header parse error") (some (codes "wrong source ip address")) s
        | some _ ↦ succeeds (record s { src_ip = source ++ (b':' ∷ port) })
      ]
    ]
    | _ ↦
        fails 500 (codes "Proxy header parse error") (some (codes "wrong proxy header parameters"))
          s
  ]
