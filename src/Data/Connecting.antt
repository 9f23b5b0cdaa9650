-- ===== src/Data/Connecting.antt =====
-- pftp/data_handler.go: the goroutines of a transfer (StartDataTransfer, clientListenOrDial,
-- originListenOrDial) beside the session, which may close the handler at any time. One step is one
-- use of the handler, of the network or of the channel clientConnected, and the steps come in any
-- order. What the connections carry is left out.
pub mod Sides
pub mod Order
pub mod Sockets
pub mod Settling
pub mod OriginEnds
pub mod Returns
pub mod Stuck
pub mod Examples
use pftp.Base.{Bool, true, false, not, ◌&&◌, ◌≡◌}

-- Where the goroutine of one side is.
pub data Part : Type 0 where
  held_back : Part  -- at `<-clientConnected`
  starting : Part  -- before the listener is taken, or before the dial
  reaching : Part  -- in `AcceptTCP` or in the dial
  telling : Bool → Part  -- at `clientConnected <- err`, where the Boolean says that there is an error
  putting : Part  -- before `dataConn = conn`
  checking : Part  -- before the tests for TLS
  shaking : Part  -- in the handshake
  wrapping : Part  -- before `dataConn = tlsConn`
  timing : Part  -- before the deadline of the data connection
  failing : Part  -- behind an error, before the handler is closed
  ended : Part
  failed : Part  -- ended with an error
  skipped : Part  -- ended for an error of the client

-- The goroutine of `StartDataTransfer`.
pub data Main : Type 0 where
  connecting : Main  -- at `eg.Wait()`
  copying : Main  -- in `run`
  leaving : Main  -- before the deferred close
  over : Main

-- `socket`: the connection is open. `conn`: `dataConn` is not nil. `late`: it was set on a handler that
-- had been closed.
pub record Side : Type 0 where
  pub part : Part
  pub socket : Bool
  pub conn : Bool
  pub late : Bool

pub record Transferring : Type 0 where
  pub client : Side
  pub origin : Side
  pub client_listens : Bool
  pub origin_listens : Bool
  pub in_tls : Bool
  pub closed : Bool
  pub main : Main

-- `Close` on one side, of a handler that is closed already or not
abbrev pub close_side : Bool → Side → Side
close_side true s = s
close_side false s = record s { socket = s.socket && not s.conn; conn = false }

abbrev pub shut : Transferring → Transferring
shut y = record y {
  client = close_side y.closed y.client;
  origin = close_side y.closed y.origin;
  closed = true;
}

abbrev pub after_put : Bool → Part
after_put true = checking
after_put false = timing

-- What the two sides have in common, with the connection in hand.
pub data Move (in_tls closed : Bool) (s : Side) : Side → Type 0 where
  puts :
      s.part ≡ putting
      → Move in_tls closed s (record s { part = after_put in_tls; conn = true; late = closed })
  lacks : s.part ≡ checking → Move in_tls closed s (record s { part = failing })
  aborts : s.part ≡ checking → closed ≡ true → Move in_tls closed s (record s { part = failing })
  checks : s.part ≡ checking → closed ≡ false → Move in_tls closed s (record s { part = shaking })
  fails : s.part ≡ shaking → Move in_tls closed s (record s { part = failing })
  shakes : s.part ≡ shaking → Move in_tls closed s (record s { part = wrapping })
  wraps : s.part ≡ wrapping → Move in_tls closed s (record s { part = timing; conn = true })
  times : s.part ≡ timing → Move in_tls closed s (record s { part = ended })

-- How a side begins: with a listener on a handler that must be open, or with a dial.
pub data Opening (listens closed : Bool) (s : Side) : Side → Type 0 where
  refuses :
      s.part ≡ starting
      → listens ≡ true
      → closed ≡ true
      → Opening listens closed s (record s { part = failing })
  listens :
      s.part ≡ starting
      → listens ≡ true
      → closed ≡ false
      → Opening listens closed s (record s { part = reaching })
  dials :
      s.part ≡ starting → listens ≡ false → Opening listens closed s (record s { part = reaching })
  -- the address to dial from cannot be resolved
  unresolved :
      s.part ≡ starting → listens ≡ false → Opening listens closed s (record s { part = failing })

abbrev pub told_client : Bool → Part
told_client true = failing
told_client false = putting

abbrev pub told_origin : Bool → Part
told_origin true = skipped
told_origin false = starting

abbrev pub is_done : Part → Bool
is_done ended = true
is_done failed = true
is_done skipped = true
is_done _ = false

abbrev pub is_ok : Part → Bool
is_ok ended = true
is_ok skipped = true
is_ok _ = false

pub data Step (y : Transferring) : Transferring → Type 0 where
  client_opens :
      {s : Side} → Opening y.client_listens y.closed y.client s → Step y (record y { client = s })
  client_reaches :
      y.client.part ≡ reaching
      → Step y (record y { client = record (y.client) { part = telling false; socket = true } })
  client_misses :
      y.client.part ≡ reaching
      → Step y (record y { client = record (y.client) { part = telling true } })
  tells :
      (b : Bool)
      → y.client.part ≡ telling b
      → y.origin.part ≡ held_back
      → Step y (record y {
        client = record (y.client) { part = told_client b };
        origin = record (y.origin) { part = told_origin b };
      })
  client_moves : {s : Side} → Move y.in_tls y.closed y.client s → Step y (record y { client = s })
  client_closes :
      y.client.part ≡ failing
      → Step y (shut (record y { client = record (y.client) { part = failed } }))
  origin_opens :
      {s : Side} → Opening y.origin_listens y.closed y.origin s → Step y (record y { origin = s })
  origin_reaches :
      y.origin.part ≡ reaching
      → Step y (record y { origin = record (y.origin) { part = putting; socket = true } })
  origin_misses :
      y.origin.part ≡ reaching → Step y (record y { origin = record (y.origin) { part = failing } })
  origin_moves : {s : Side} → Move y.in_tls y.closed y.origin s → Step y (record y { origin = s })
  origin_closes :
      y.origin.part ≡ failing
      → Step y (shut (record y { origin = record (y.origin) { part = failed } }))
  copies :
      y.main ≡ connecting
      → is_ok y.client.part ≡ true
      → is_ok y.origin.part ≡ true
      → Step y (record y { main = copying })
  gives_up :
      y.main ≡ connecting
      → is_done y.client.part ≡ true
      → is_done y.origin.part ≡ true
      → is_ok y.client.part && is_ok y.origin.part ≡ false
      → Step y (record y { main = leaving })
  -- A write of `copyPackets` fails, and it closes the connection that it writes to, on a handler that
  -- it has seen open. Where the session closes that handler first, the connection is closed anyway.
  client_breaks :
      y.main ≡ copying
      → y.closed ≡ false
      → Step y (record y { client = record (y.client) { socket = false } })
  origin_breaks :
      y.main ≡ copying
      → y.closed ≡ false
      → Step y (record y { origin = record (y.origin) { socket = false } })
  ends : y.main ≡ copying → Step y (record y { main = leaving })
  leaves : y.main ≡ leaving → Step y (shut (record y { main = over }))
  -- the session closes the handler
  closes : Step y (shut y)

pub data Reach (y : Transferring) : Transferring → Type 0 where
  here : Reach y y
  next : {a b : Transferring} → Reach y a → Step a b → Reach y b

-- a side before it has a connection
abbrev pub idle_side : Part → Side
idle_side p = record { part = p; socket = false; conn = false; late = false }

-- `StartDataTransfer` on a handler that is open
abbrev pub started : Bool → Bool → Bool → Transferring
started client_listens origin_listens in_tls = record {
  client = idle_side starting;
  origin = idle_side held_back;
  client_listens = client_listens;
  origin_listens = origin_listens;
  in_tls = in_tls;
  closed = false;
  main = connecting;
}
