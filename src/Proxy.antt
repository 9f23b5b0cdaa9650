-- ===== src/Proxy.antt =====
-- pftp/proxy.go: the proxy toward the origin. Here its state, the replies that it passes on to the
-- client (startProxy), and its data handler.
pub mod Examples
pub mod Replace
pub mod Replies
pub mod Rewrite
pub mod Switch
pub mod Life
pub mod Relay
pub mod Signals
pub mod Masquerade
pub mod MultiLine
use pftp.Address.{port_args}
use pftp.Base.{
  ℕ, suc, ◌+◌, Bool, true, false, not, ◌&&◌, ◌||◌, List, [], ◌∷◌, ◌++◌, Option, none, some, ◌==◌,
  leb, if◌then◌else◌, length, Error, Outcome, ret, panic, ◌>>=◌, get_elem?,
}
use pftp.Command.{crlf, code_of}
use pftp.Config.{Config}
use pftp.Data.Announce.{parse_pasv_response, parse_epsv_response}
use pftp.Data.{DataHandler, close, parts}
use pftp.Net.{byte_at}
use pftp.Text.Decimal.{atoi}
use pftp.Text.{Bytes, codes, same, has_prefix, contains, trim_right, is_crlf}
use pftp.World.{Conn, Listener, Env, World}

pub record Proxy : Type 0 where
  pub origin : Option Conn
  pub pass_through : Bool
  pub stop : Bool
  pub is_loggedin : Bool
  pub welcome_msg : Bytes
  pub data_connector : Option DataHandler

-- what only a reply changes
abbrev pub standing : Proxy → Bool × Bytes
standing p = (p.is_loggedin, p.welcome_msg)

unfoldable pub suspend : Proxy → Proxy
suspend p = record p { pass_through = false }

unfoldable pub unsuspend : Proxy → Proxy
unsuspend p = record p { pass_through = true }

-- `isDataHandlerAvailable`
unfoldable pub is_data_handler_available : Proxy → Bool
is_data_handler_available p = elim (p.data_connector) [ none ↦ false | some d ↦ not d.closed ]

-- `isDataTransferStarted`, with the shared flag
unfoldable pub is_data_transfer_started : Proxy → Bool → Bool
is_data_transfer_started p in_transfer = elim (p.data_connector) [
  | none ↦ false
  | some _ ↦ in_transfer
]

-- `DestroyDataHandler`
unfoldable pub destroy_data_handler : Env → Proxy → World → Proxy × World
destroy_data_handler env p w = elim (p.data_connector) [
  | none ↦ (p, w)
  | some d ↦ let (d', _, w') = close env d w in (record p { data_connector = some d' }, w')
]

-- `SetDataHandler`
unfoldable pub set_data_handler : Env → DataHandler → Proxy → World → Proxy × World
unfolding destroy_data_handler
set_data_handler env handler p w =
    let (p', w') = destroy_data_handler env p w in (record p' { data_connector = some handler }, w')

-- the port of a listener's address, `strconv.Atoi` of what SplitHostPort gives
unfoldable pub listen_port : Listener → ℕ
listen_port l = (atoi (parts l.addr).1).0

unfoldable pub pasv_reply : Bytes → ℕ → Bytes
pasv_reply masquerade_ip port =
    codes "227 Entering Passive Mode (" ++ (port_args masquerade_ip port ++ codes ").\r\n")

unfoldable pub epsv_reply : Bytes → Bytes
epsv_reply port = codes "229 Entering Extended Passive Mode (|||" ++ (port ++ codes "|).\r\n")

-- the reply in the client's mode; a handler with no listener is a nil pointer
unfoldable pub mode_reply : Config → Bytes → DataHandler → Outcome Bytes
mode_reply config buff d =
    let mode = d.client_conn.mode in
    let passive : Outcome Bytes = elim (d.client_conn.listener) [
      | none ↦ panic
      | some l ↦ ret (pasv_reply config.masquerade_ip (listen_port l))
    ] in
    let extended : Outcome Bytes = elim (d.client_conn.listener) [
      | none ↦ panic
      | some l ↦ ret (epsv_reply (parts l.addr).1)
    ] in
    if same mode (codes "PORT") || same mode (codes "EPRT")
    then ret (codes "200 " ++ (mode ++ codes " command successful\r\n"))
    else if same mode (codes "PASV")
    then passive
    else if same mode (codes "EPSV")
    then extended
    else ret buff

-- `s.dataConnector.parsePASVresponse(buff)`, on a nil pointer too; its error is dropped
unfoldable pub on_connector : (DataHandler → Outcome (DataHandler × Error)) → Proxy → Outcome Proxy
on_connector f p = elim (p.data_connector) [
  | none ↦ panic
  | some d ↦ f d >>= λ r. ret (record p { data_connector = some r.0 })
]

-- the lines that announce a data connection, with what is read from them
unfoldable pub read_announcement : Config → Bytes → Proxy → Outcome (Bool × Proxy)
read_announcement config buff p =
    if has_prefix buff (codes "227 ")
    then (on_connector (parse_pasv_response config buff) p >>= λ q. ret (true, q))
    else if has_prefix buff (codes "229 ")
    then (on_connector (parse_epsv_response buff) p >>= λ q. ret (true, q))
    else ret (has_prefix buff (codes "200 PORT command successful"), p)

-- 150 sets the transfer flag, 226 clears it
unfoldable pub mark_transfer : Bytes → World → World
unfolding has_prefix
mark_transfer buff w =
    if has_prefix buff (codes "150 ")
    then record w { in_data_transfer = true }
    else if has_prefix buff (codes "226 ")
    then record w { in_data_transfer = false }
    else w

unfoldable pub announce : Config → Bytes → Bool → Proxy → Outcome Bytes
announce config buff false p = ret buff
announce config buff true p = elim (p.data_connector) [
  | none ↦ ret (codes "425 Can't open data connection\r\n")
  | some d ↦
      if d.closed
      then ret (codes "425 Can't open data connection\r\n")
      else mode_reply config buff d
]

-- the part under `s.config.DataChanProxy && s.isLoggedin`
unfoldable pub data_channel : Config → Bytes → Proxy → World → Outcome (Bytes × Proxy × World)
data_channel config buff p w = read_announcement config buff p >>= λ r.
    announce config buff r.0 r.1 >>= λ out. ret (out, r.1, mark_transfer buff w)

-- `welcomeMsg`
abbrev pub welcome_of : Config → Bytes
welcome_of config = codes "220 " ++ (config.welcome_msg ++ crlf)

-- the greeting of the origin, before a login, is the configured one
unfoldable pub greet : Proxy → Bytes → Bytes
greet p buff =
    if same (code_of buff) (codes "220") && not p.is_loggedin then p.welcome_msg else buff

unfoldable pub note_login : Bytes → Proxy → Proxy
note_login buff p = if same (code_of buff) (codes "230") then record p { is_loggedin = true } else p

-- A line is dropped, or it becomes this text for the client.
pub data Reply : Type 0 where
  dropped : Reply
  reply : Bytes → Reply

abbrev pub pass_on : Outcome (Bytes × Proxy × World) → Outcome (Reply × Proxy × World)
pass_on (ret (buff, p, w)) = ret (reply buff, p, w)
pass_on panic = panic

-- one round of the read loop of `startProxy`, up to the multi-line part
unfoldable pub rewrite : Config → Bytes → Proxy → World → Outcome (Reply × Proxy × World)
rewrite config line p w =
    let buff = greet p line in
    let p' = note_login buff p in
    let through = pass_on (data_channel config buff p' w) in
    if config.proxy_protocol && contains buff (codes "500 PROXY")
    then ret (dropped, p', w)
    else if config.data_chan_proxy && p'.is_loggedin
    then through
    else ret (reply buff, p', w)

-- `getCode(res)[0] == params[0] && res[3] == ' '`, where the index may be out of range
unfoldable pub ends_multi_line : Bytes → Bytes → Outcome Bool
unfolding same
ends_multi_line code res =
    if same (code_of res) code
    then elim (get_elem? res 3) [ none ↦ panic | some b ↦ ret (b == b' ') ]
    else ret false

-- The lines of a multi-line reply, and the lines behind it; `none` is a read error.
unfoldable pub gather : Bytes → Bytes → List Bytes → Outcome (Option (Bytes × List Bytes))
unfolding ends_multi_line
gather code multi_line [] = ret none
gather code multi_line (res ∷ more) =
    let rest = gather code (multi_line ++ res) more in
    ends_multi_line code res >>= λ last. if last then ret (some (multi_line ++ res, more)) else rest

abbrev pub is_multi_line : Bytes → Bool
is_multi_line buff = leb 4 (length buff) && byte_at buff 3 == b'-'

-- the whole reply that a line starts
unfoldable pub complete : Bytes → List Bytes → Outcome (Option (Bytes × List Bytes))
unfolding gather
complete buff more =
    let gathered = gather (code_of buff) buff more in
    if is_multi_line buff then gathered else ret (some (buff, more))

-- what `sendToClient` writes of a reply
unfoldable pub client_text : Bytes → Bytes
unfolding trim_right
client_text buff = trim_right is_crlf buff ++ crlf
