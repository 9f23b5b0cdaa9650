-- ===== src/Session/Start.antt =====
-- pftp/client_handler.go and pftp/context.go: how the session of a client begins (newClientHandler,
-- newContext, the first part of handleCommands) and how it ends (Close, the deferred part).
use pftp.Base.{
  ℕ, Bool, false, [], Option, none, some, ◌==◌, length, if◌then◌else◌, int32_lt, Error, Outcome,
  ret,
}
use pftp.Command.{first}
use pftp.Config.{Config}
use pftp.Proxy.Life.{close_proxy}
use pftp.Proxy.{Proxy}
use pftp.Session.User.{connect_proxy}
use pftp.Session.{Context, Session, response}
use pftp.Text.{codes, split}
use pftp.Tls.{TlsData, build_tls_config_for_origin}
use pftp.World.{Conn, disconnected, Env, World, tick}

-- `newContext`
abbrev pub new_context : Config → Conn → Context
new_context config conn = record {
  remote_addr = config.remote_addr;
  client_addr = conn.remote_addr;
}

-- Without a masquerade IP the shared configuration gets the address that this client reached.
unfoldable pub with_masquerade : Config → Conn → Config
with_masquerade config conn =
    if length config.masquerade_ip == 0
    then record config { masquerade_ip = first (split b':' conn.local_addr) }
    else config

-- `newClientHandler`, without the count of connections
unfoldable pub new_client_handler : Conn → Config → Option TlsData → World → Session
unfolding with_masquerade build_tls_config_for_origin
new_client_handler conn config shared w = record {
  config = with_masquerade config conn;
  conn = conn;
  tls = record {
    for_client = shared;
    for_origin = some (build_tls_config_for_origin (with_masquerade config conn));
    version = 0;
    cipher_suite = 0;
    server_name = [];
  };
  control_in_tls = false;
  transfer_in_tls = false;
  line = [];
  command = [];
  param = [];
  proxy = none;
  context = new_context config conn;
  src_ip = conn.remote_addr;
  previous_tls_commands = [];
  world = w;
}

-- `c.connCounts > c.config.MaxConnections`
abbrev pub over_limit : Config → ℕ → Bool
over_limit config conn_counts = int32_lt config.max_connections conn_counts

module _ (env : Env) where
  -- the answer to a client above the limit, which may not arrive
  unfoldable pub refuse : Session → Outcome Error × Session
  refuse s =
      let (_, s') =
        response env
          (record {
            code = 530;
            msg = codes "max client exceeded";
            err = some (codes "exceeded client connection limit");
          })
          s in
      (ret (some (codes "exceeded client connection limit")), s')

  -- `handleCommands`, up to the two loops
  unfoldable pub enter : ℕ → Session → Outcome Error × Session
  enter conn_counts s = if over_limit s.config conn_counts then refuse s else connect_proxy env s

  -- `Close`, with its error only logged
  abbrev pub close_client : Session → Session
  close_client s = record s { world = tick (disconnected s.conn.id) s.world }

  abbrev pub close_session_proxy : Option Proxy → Session → Session
  close_session_proxy none s = s
  close_session_proxy (some p) s =
      let (_, p', w') = close_proxy env p s.world in record s { proxy = some p'; world = w' }

  -- the connections closed behind a client, in `handleCommands`
  unfoldable pub leave : Session → Session
  leave s = close_session_proxy s.proxy (close_client s)
