-- ===== src/Proxy/Switch.antt =====
-- pftp/proxy.go: the origin of a session is replaced (switchOrigin), with the header of the PROXY
-- protocol and the TLS commands that the new origin gets first. The exchange of signals with the read
-- loop is in order: the loop closes the proxy before the new connection is made.
pub mod Secure
use pftp.Base.{
  ℕ, ◌+◌, Bool, true, false, not, ◌&&◌, ◌||◌, List, [], ◌∷◌, ◌++◌, Option, none, some, ◌==◌, ltb,
  length, if◌then◌else◌, Error, Outcome, ret, panic,
}
use pftp.Command.{first, get_command, code_of}
use pftp.Config.{Config}
use pftp.Net.{parse_ip, split_host_port}
use pftp.Proxy.{Proxy, suspend, unsuspend, destroy_data_handler, welcome_of}
use pftp.Text.Decimal.{atoi}
use pftp.Text.{Bytes, codes, same, contains, count, to_upper}
use pftp.Tls.{TlsDataSet, get_tls_config}
use pftp.World.{
  Conn, Event, connected, disconnected, to_origin, handshake, header, ProxyHeader, switched,
  Dialled, dialled, unreachable, Lookup, found_ip, unknown_host, Handshake, agreed, failed, Env,
  World, tick, lose,
}

-- What the origin says to AUTH: 234, another code, or nothing more.
pub data AuthReply : Type 0 where
  accepted : List Bytes → AuthReply
  declined : Bytes → List Bytes → AuthReply
  cut_off : AuthReply

-- the inner loop of `sendTLSCommand` behind AUTH, up to the handshake
unfoldable pub auth_reply : Config → List Bytes → AuthReply
auth_reply config [] = cut_off
auth_reply config (str ∷ more) =
    let again = auth_reply config more in
    if same (code_of str) (codes "234")
    then accepted more
    else if config.proxy_protocol && contains str (codes "500 PROXY")
    then again
    else declined (code_of str) more

-- What is left behind a command: the connection and the lines that have not been read.
pub record Link : Type 0 where
  pub conn : Conn
  pub lines : List Bytes

-- A step goes on with the last error, or ends the whole with an error.
pub data Step : Type 0 where
  go_on : Error → Link → Step
  fail : Bytes → Link → Step
  crash : Step

-- the error of a write ends the whole
abbrev pub unless_lost : Error → Link → World → Step × World → Step × World
unless_lost none l w rest = rest
unless_lost (some e) l w rest = (fail e l, lose w)

abbrev pub then_step : Step × World → (Error → Link → World → Step × World) → Step × World
then_step (go_on e l, w) next = next e l w
then_step (fail e l, w) next = (fail e l, w)
then_step (crash, w) next = (crash, w)

module _ (env : Env) where
  -- `strings.Compare(strings.ToUpper(getCommand(cmd)[0]), "AUTH") == 0`
  unfoldable pub is_auth : Bytes → Bool
  is_auth cmd = same (to_upper env.unicode_upper (first (get_command cmd))) (codes "AUTH")

  -- the TLS handshake with the origin
  unfoldable pub wrap : TlsDataSet → Error → Link → World → Step × World
  wrap tls last l w =
      let shaken : Step × World = elim (env.shake w.clock) [
        | failed e ↦ (fail (codes "TLS handshake with origin has failed " ++ e) l, tick handshake w)
        | agreed _ _ _ ↦
            (go_on last (record l { conn = record (l.conn) { in_tls = true } }), tick handshake w)
      ] in
      elim (get_tls_config tls.for_origin) [ panic ↦ (crash, w) | ret _ ↦ shaken ]

  unfoldable pub after_auth : TlsDataSet → Error → Link → World → AuthReply → Step × World
  after_auth tls last l w cut_off = (fail (codes "failed to make TLS connection") l, w)
  after_auth tls last l w (declined code more) = (
    go_on (some (code ++ codes " origin server has not support TLS connection"))
        (record l { lines = more }),
    w,
  )
  after_auth tls last l w (accepted more) = wrap tls last (record l { lines = more }) w

  unfoldable pub after_other : Error → Link → World → List Bytes → Step × World
  after_other last l w [] = (fail (codes "failed to make TLS connection") l, w)
  after_other last l w (_ ∷ more) = (go_on last (record l { lines = more }), w)

  -- one round of the outer loop of `sendTLSCommand`
  unfoldable pub send_one : Config → TlsDataSet → Bytes → Error → Link → World → Step × World
  send_one config tls cmd last l w =
      let sent = tick (to_origin cmd) w in
      unless_lost (env.write w.clock) l w (
        if is_auth cmd
        then after_auth tls last l sent (auth_reply config l.lines)
        else after_other last l sent l.lines)

  -- `sendTLSCommand`
  unfoldable pub send_tls_command :
      Config → TlsDataSet → List Bytes → Error → Link → World → Step × World
  send_tls_command config tls [] last l w = (go_on last l, w)
  send_tls_command config tls (cmd ∷ cmds) last l w =
      then_step (send_one config tls cmd last l w) (send_tls_command config tls cmds)

  -- the header, once both addresses are taken apart
  unfoldable pub write_header : Bytes → ℕ → Bytes → ℕ → World → Error × World
  write_header source port destination_host destination_port w =
      elim (env.lookup w.clock destination_host) [
        | unknown_host e ↦ (some e, lose w)
        | found_ip host_ip ↦
            let w' = lose w in
            let sent : Event = header (record {
              is_v6 = ltb 0 (count b':' source);
              source = parse_ip source;
              source_port = port;
              destination = parse_ip host_ip;
              destination_port = destination_port;
            }) in
            elim (env.write w'.clock) [ some e ↦ (some e, lose w') | none ↦ (none, tick sent w') ]
      ]

  -- `sendProxyHeader`
  unfoldable pub send_proxy_header : Bytes → Bytes → World → Error × World
  send_proxy_header client_addr origin_addr w = elim (split_host_port client_addr) [
    | none ↦ (some (env.bad_text client_addr), w)
    | some (source, source_port) ↦
        let (port, port_ok) = atoi source_port in
        let rest : Error × World = elim (split_host_port origin_addr) [
          | none ↦ (some (env.bad_text origin_addr), w)
          | some (host, host_port) ↦
              let (number, number_ok) = atoi host_port in
              if number_ok
              then write_header source port host number w
              else (some (env.bad_text host_port), w)
        ] in
        if port_ok then rest else (some (env.bad_text source_port), w)
  ]
