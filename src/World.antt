-- ===== src/World.antt =====
-- What the proxy does not compute itself: connections, listeners, and the answers of the network.
-- An answer depends on the time of the call, a counter of the calls made so far, so that the same
-- call may answer differently each time. Every call leaves an event behind, the last one first.
pub mod Samples
use pftp.Base.{
  ℕ, suc, ◌+◌, ◌==◌, ◌||◌, ◌&&◌, Bool, true, false, List, [], ◌∷◌, Option, none, some, Error,
  if◌then◌else◌,
}
use pftp.Net.{Ip}
use pftp.Text.{Bytes, codes, contains}

-- A connection, with `RemoteAddr().String()` and `LocalAddr().String()`.
pub record Conn : Type 0 where
  pub id : ℕ
  pub remote_addr : Bytes
  pub local_addr : Bytes
  pub in_tls : Bool

-- A listener, with the time at which it was opened and `Addr().String()`.
pub record Listener : Type 0 where
  pub opened_at : ℕ
  pub addr : Bytes

-- What a header of the PROXY protocol says, version 1: the transport is TCPv6 or TCPv4.
pub record ProxyHeader : Type 0 where
  pub is_v6 : Bool
  pub source : Option Ip
  pub source_port : ℕ
  pub destination : Option Ip
  pub destination_port : ℕ

-- `connected` and `disconnected` name a connection, `opened` and `released` a listener; `end_sent` is the
-- end of file passed on to a connection, `switched` the signal that a switch of the origin is over.
pub data Event : Type 0 where
  opened : ℕ → Event
  released : ℕ → Event
  disconnected : ℕ → Event
  to_client : Bytes → Event
  to_origin : Bytes → Event
  transfer : Bytes → Event
  handshake : Event
  connected : ℕ → Event
  header : ProxyHeader → Event
  end_sent : ℕ → Event
  switched : Bool → Event
  slept : Event

-- `listening` has the address of the new listener, `refused` the message of the error.
pub data Listened : Type 0 where
  listening : Bytes → Listened
  refused : Bytes → Listened

-- A TLS handshake: the server name, the version and the cipher suite of the session, or an error.
pub data Handshake : Type 0 where
  agreed : Bytes → ℕ → ℕ → Handshake
  failed : Bytes → Handshake

-- A new connection: its local and its remote address, and the lines that are read from it while it is
-- set up, behind which a read fails; or an error.
pub data Dialled : Type 0 where
  dialled : Bytes → Bytes → List Bytes → Dialled
  unreachable : Bytes → Dialled

-- A connection that a listener accepts: its local and its remote address; or an error.
pub data Accepted : Type 0 where
  incoming : Bytes → Bytes → Accepted
  none_came : Bytes → Accepted

-- `net.LookupIP`: the first address, or an error.
pub data Lookup : Type 0 where
  found_ip : Bytes → Lookup
  unknown_host : Bytes → Lookup

-- `bad_text` is the message of net.SplitHostPort and strconv.Atoi on a text that they refuse.
pub record Env : Type 0 where
  pub unicode_upper : Bytes → Bytes
  pub intn : ℕ → ℕ → ℕ
  pub resolve : ℕ → Bytes → Error
  pub listen : ℕ → Bytes → Listened
  pub close : ℕ → Error
  pub write : ℕ → Error
  pub shake : ℕ → Handshake
  pub accept : ℕ → Accepted
  pub dial : ℕ → Bytes → Dialled
  pub lookup : ℕ → Bytes → Lookup
  pub close_write : ℕ → Error
  pub bad_text : Bytes → Bytes

-- The flag is `inDataTransfer`, which the session, its proxy and its data handlers share.
pub record World : Type 0 where
  pub clock : ℕ
  pub events : List Event
  pub in_data_transfer : Bool

abbrev pub tick : Event → World → World
tick e w = record w { clock = w.clock + 1; events = e ∷ w.events }

-- `alreadyClosedMsg`
abbrev pub already_closed : Bytes → Bool
already_closed msg = contains msg (codes "use of closed")

-- a call that fails leaves no event
abbrev pub lose : World → World
lose w = record w { clock = w.clock + 1 }

-- the connection that comes to be at this time
abbrev pub conn_at : ℕ → Bytes → Bytes → Conn
conn_at time local remote = record {
  id = time;
  remote_addr = remote;
  local_addr = local;
  in_tls = false;
}
