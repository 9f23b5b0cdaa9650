-- ===== src/Server.antt =====
-- pftp/server.go: the server, its middleware, and the connections that it accepts.
pub mod Examples
pub mod Connections
pub mod Limit
pub mod Shutdown
use pftp.Base.{
  ℕ, ◌+◌, ◌-◌, ◌%◌, ◌^◌, Bool, true, false, List, [], ◌∷◌, Option, none, some, if◌then◌else◌, Error,
  Outcome, ret, panic,
}
use pftp.Config.{Config, TlsPair, load_config}
use pftp.Session.Dispatch.{Middleware}
use pftp.Session.{Context}
use pftp.Text.{Bytes, same, to_upper}
use pftp.Tls.{Files, TlsData, build_tls_config_for_client}
use pftp.World.{Listener, listening, refused, opened, released, Listened, Env, World, tick, lose}

-- `FtpServer`, with the count of open connections, which `serve` keeps
pub record Server : Type 0 where
  pub config : Config
  pub tls_data : Option TlsData
  pub middleware : Middleware
  pub client_counter : ℕ
  pub current_connection : ℕ
  pub listener : Option Listener
  pub shutdown : Bool

abbrev bare_server : Config → Option TlsData → Server
bare_server config tls_data = record {
  config = config;
  tls_data = tls_data;
  middleware = λ _. none;
  client_counter = 0;
  current_connection = 0;
  listener = none;
  shutdown = false;
}

-- TLS settings that cannot be built are an error, here `none`.
abbrev pub with_tls : Files → Config → Option TlsPair → Option Server
with_tls files config none = some (bare_server config none)
with_tls files config (some pair) = elim (build_tls_config_for_client files pair) [
  | none ↦ none
  | some data_for_client ↦ some (bare_server config (some data_for_client))
]

-- `NewFtpServerFromConfig`
unfoldable pub new_ftp_server_from_config : Files → Config → Option Server
new_ftp_server_from_config files config = with_tls files config config.tls

-- `NewFtpServer`
unfoldable pub new_ftp_server : (Bytes → Bytes) → Files → (Config → Config × Error) → Option Server
unfolding load_config new_ftp_server_from_config
new_ftp_server unicode_upper files decode = elim ((load_config unicode_upper decode).0) [
  | none ↦ none
  | some config ↦ new_ftp_server_from_config files config
]

-- What is asked of a middleware function.
abbrev pub MiddlewareFunc : Type 0
MiddlewareFunc = Context → Bytes → Outcome Error × Context

-- `Use`
unfoldable pub use_middleware : (Bytes → Bytes) → Bytes → MiddlewareFunc → Server → Server
use_middleware unicode_upper command m server =
    let name = to_upper unicode_upper command in
    record server { middleware = λ c. if same name c then some m else server.middleware c }

-- What a server starter hands over: nothing where it did not start the server; else the listeners,
-- which may be nil, and an error.
abbrev pub Inherited : Type 0
Inherited = Option (Option (List Listener) × Error)

module _ (env : Env) where
  -- the address of the configuration
  abbrev pub own_listener : Server → World → Listened → Outcome Error × Server × World
  own_listener server w (refused e) = (ret (some e), server, lose w)
  own_listener server w (listening addr) = (
    ret none,
    record server { listener = some (record { opened_at = w.clock; addr = addr }) },
    tick (opened w.clock) w,
  )

  -- `listen`: the first listener of a server starter; an empty list is out of range
  unfoldable pub listen : Inherited → Server → World → Outcome Error × Server × World
  listen none server w = own_listener server w (env.listen w.clock server.config.listen_addr)
  listen (some (none, e)) server w = (ret e, server, w)
  listen (some (some ls, some e)) server w = (ret (some e), server, w)
  listen (some (some [], none)) server w = (panic, server, w)
  listen (some (some (l ∷ ls), none)) server w = (ret none, record server { listener = some l }, w)

  -- `stop`
  unfoldable pub stop : Server → World → Error × Server × World
  stop server w = elim (server.listener) [
    | none ↦ (none, record server { shutdown = true }, w)
    | some l ↦ (env.close w.clock, record server { shutdown = true }, tick (released l.opened_at) w)
  ]
