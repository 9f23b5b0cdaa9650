-- ===== src/Server/Connections.antt =====
-- pftp/server.go: the connections of the server (serve), each with its client handler. Accepting a
-- connection, the check of the limit and the end of a client come in any order.
use pftp.Base.{ℕ, ◌+◌, ◌-◌, ◌%◌, ◌^◌, ◌<◌, List, ◌∷◌, ◌++◌, ◌≡◌, length, if◌then◌else◌}
use pftp.Config.{Config}
use pftp.Server.{Server}
use pftp.Session.Start.{new_client_handler, over_limit}
use pftp.Session.{Session}
use pftp.World.{Conn, World}

-- A client before the check of the limit, admitted by it, or refused.
pub data Phase : Type 0 where
  arrived : Phase
  admitted : Phase
  turned_away : Phase

pub record Client : Type 0 where
  pub id : ℕ
  pub conn_counts : ℕ
  pub phase : Phase
  pub session : Session

-- The clients are in the order of their arrival, the last one first.
pub record System : Type 0 where
  pub server : Server
  pub clients : List Client

-- a round of `serve` on a connection, with the count of `newClientHandler`
unfoldable pub accept : Conn → World → System → System
accept conn w y =
    let current = (y.server.current_connection + 1) % 2 ^ 32 in
    let id = (y.server.client_counter + 1) % 2 ^ 64 in
    let s = new_client_handler conn y.server.config y.server.tls_data w in
    record {
      server = record (y.server) {
        config = s.config;
        client_counter = id;
        current_connection = current;
      };
      clients = record { id = id; conn_counts = current; phase = arrived; session = s } ∷ y.clients;
    }

-- the check of the limit in `handleCommands`
unfoldable pub decide : Config → Client → Client
decide config c = record c {
  phase = if over_limit config c.conn_counts then turned_away else admitted;
}

-- `atomic.AddInt32(c.currentConnection, -1)`
unfoldable pub release : List Client → List Client → System → System
release before after y = record {
  server = record (y.server) {
    current_connection = (y.server.current_connection + (2 ^ 32 - 1)) % 2 ^ 32;
  };
  clients = before ++ after;
}

-- One step of the server. Connections are files, of which a system has fewer than 2 ^ 31.
pub data Step : System → System → Type 0 where
  accepts :
      {y : System} (conn : Conn) (w : World)
      → length y.clients + 1 < 2 ^ 31
      → Step y (accept conn w y)
  checks :
      {y : System} (before after : List Client) (c : Client)
      → y.clients ≡ before ++ c ∷ after
      → c.phase ≡ arrived
      → Step y (record y { clients = before ++ decide y.server.config c ∷ after })
  ends :
      {y : System} (before after : List Client) (c : Client)
      → y.clients ≡ before ++ c ∷ after
      → Step y (release before after y)

-- What comes of a system by steps.
pub data Reach (y : System) : System → Type 0 where
  begin : Reach y y
  later : {a b : System} → Reach y a → Step a b → Reach y b
