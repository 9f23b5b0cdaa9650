-- ===== src/Data/Announce/Epsv.antt =====
-- pftp/data_handler.go: the address that is dialled after a 229 reply.
use pftp.Base.{◌∷◌, none, some, ◌≡◌, ◌∙◌, ret, subst}
use pftp.Config.{Config}
use pftp.Data.Announce.Target.{parse_epsv_response-remote_ip}
use pftp.Data.Announce.{parse_epsv_response}
use pftp.Data.Balance.{Balanced, new_data_handler-Balanced}
use pftp.Data.{DataHandler, made, new_data_handler, origin_dial_addr}
use pftp.Net.{join_host_port}
use pftp.Text.{Bytes, contains}
use pftp.World.{Conn, Env, World}

-- After a 229 reply, read on a handler that newDataHandler has just made between two connections,
-- the address that originListenOrDial dials is a colon and the port: its host is empty.
pub parse_epsv_response-dial :
    (env : Env) (config : Config) (c o : Conn) (mode : Bytes) (w w' : World) (line : Bytes)
    {d d' : DataHandler}
    → new_data_handler env config (some c) (some o) mode w ≡ (made d, w')
    → parse_epsv_response line d ≡ ret (d', none)
    → origin_dial_addr d' ≡ b':' ∷ d'.origin_conn.remote_port
parse_epsv_response-dial env config c o mode w w' line {d} {d'} h p =
    let fresh =
      subst (Balanced config mode w) h (new_data_handler-Balanced env config c o mode w) in
    let kept = parse_epsv_response-remote_ip line d p ∙ fresh.0.origin_ip in
    unfold origin_dial_addr join_host_port contains in rw kept
