-- ===== src/Session/Runs.antt =====
-- pftp/client_handler.go and pftp/proxy.go: the two loops of a session side by side, a command of the
-- client or a reply of the origin at a time, in any order. The read loop ends by a switch that failed
-- and by a reply that breaks off; behind that only the client has turns, and none that switches.
pub mod Laws
pub mod Tls
pub mod Examples
use pftp.Base.{
  ℕ, suc, ◌+◌, ltb, Bool, true, false, not, ◌&&◌, ◌||◌, List, [], ◌∷◌, Option, none, some, Outcome,
  ret, panic, ◌>>=◌, Error, if◌then◌else◌,
}
use pftp.Proxy.Life.{close_proxy}
use pftp.Proxy.Relay.Login.{is_login}
use pftp.Proxy.Relay.{Round, relay_round}
use pftp.Proxy.{Proxy}
use pftp.Session.Dispatch.{Middleware, handle_command}
use pftp.Session.Reading.{answer}
use pftp.Session.{Session}
use pftp.Text.{Bytes}
use pftp.World.{Event, switched, Env, World}

-- A line of the client, or a line of the origin with those that can be read behind it.
pub data Turn : Type 0 where
  commanded : Bytes → Turn
  replied : Bytes → List Bytes → Turn

-- a switch, and one that has told the read loop that it failed
abbrev pub is_switch : Event → Bool
is_switch (switched _) = true
is_switch _ = false

abbrev pub is_failed_switch : Event → Bool
is_failed_switch (switched b) = not b
is_failed_switch _ = false

abbrev pub times : (Event → Bool) → List Event → ℕ
times f [] = 0
times f (e ∷ es) = (if f e then 1 else 0) + times f es

-- whether such an event has come between these two sessions
abbrev pub came : (Event → Bool) → Session → Session → Bool
came f s s' = ltb (times f s.world.events) (times f s'.world.events)

-- a reply that breaks off ends the read loop
abbrev pub goes_on : Round → Bool
goes_on (some _, _, _) = true
goes_on (none, _, _) = false

-- A command that has led from the one session to the other. A switch behind the end of the read loop
-- waits for that loop for ever.
abbrev pub behind_command : Bool → Session → Session → Outcome (Session × Bool)
behind_command reads s s' =
    if not reads && came is_switch s s'
    then panic
    else ret (s', reads && not (came is_failed_switch s s'))

module _ (env : Env) where
  -- a reply that breaks off closes the proxy
  abbrev pub relayed : Session → Round → Session
  relayed s (some _, p, w) = record s { proxy = some p; world = w }
  relayed s (none, p, w) =
      let (_, p', w') = close_proxy env p w in record s { proxy = some p'; world = w' }

  -- a reply that the proxy of the session reads
  abbrev pub relay_by : Option Proxy → Bytes → List Bytes → Session → Outcome (Session × Bool)
  relay_by none line more s = panic
  relay_by (some p) line more s =
      relay_round env s.config line more p s.world >>= λ r. ret (relayed s r, goes_on r)

  -- A turn of the session, with whether its read loop goes on. Behind the end of that loop there is no
  -- turn of the origin any more.
  unfoldable pub turn : Middleware → Turn → Session × Bool → Outcome (Session × Bool)
  turn m (commanded line) (s, reads) =
      behind_command reads s (answer env (handle_command env m line s)).1
  turn m (replied line more) (s, true) = relay_by s.proxy line more s
  turn m (replied line more) (s, false) = panic

  unfoldable pub course : Middleware → List Turn → Session × Bool → Outcome (Session × Bool)
  course m [] x = ret x
  course m (t ∷ ts) x = turn m t x >>= course m ts

  -- The session behind these turns, from where the read loop goes on. It is `panic` too where the
  -- program cannot take these turns: a reply or a switch behind the end of the read loop.
  unfoldable pub run : Middleware → List Turn → Session → Outcome Session
  unfolding course
  run m ts s = course m ts (s, true) >>= λ x. ret x.0

-- What is asked of the login: it begins with the code 230 from the origin, and it does not end.
abbrev pub login_behind : List Turn → Bool → Bool
login_behind [] b = b
login_behind (commanded _ ∷ ts) b = login_behind ts b
login_behind (replied line _ ∷ ts) b = login_behind ts (b || is_login line)
