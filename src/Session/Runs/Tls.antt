-- ===== src/Session/Runs/Tls.antt =====
-- pftp/client_handler.go: a session from its beginning to USER, and TLS on both sides.
use pftp.Base.{
  ℕ, Bool, true, false, not, ◌&&◌, List, [], ◌∷◌, Option, none, some, ◌≡◌, refl, subst, Outcome,
  ret, panic, ◌>>=◌, Error, if_cases,
}
use pftp.Config.{Config}
use pftp.Proxy.Relay.{Round, relay_round}
use pftp.Proxy.{Proxy}
use pftp.Session.Dispatch.Commands.{
  is_vouched, handle_command-is_vouched, is_vouched-Vouched, Vouched-is_vouched,
}
use pftp.Session.Dispatch.Login.{connect_proxy-Keeps}
use pftp.Session.Dispatch.Sound.{response-Sound}
use pftp.Session.Dispatch.Vouched.{Keeps, Sound-Keeps}
use pftp.Session.Dispatch.{Middleware, handle_command}
use pftp.Session.Reading.{answer}
use pftp.Session.Runs.Laws.{answer-Sound}
use pftp.Session.Runs.{
  Turn, commanded, replied, is_switch, came, goes_on, relayed, relay_by, turn, course, run,
}
use pftp.Session.Start.{new_client_handler, enter, refuse, over_limit}
use pftp.Session.User.Tls.{handle_user-in_tls}
use pftp.Session.User.{connect_proxy, handle_user}
use pftp.Session.{Session}
use pftp.Text.{Bytes}
use pftp.Tls.{TlsData}
use pftp.World.{Conn, Env, World}

module _ (env : Env) where
  -- the same for a session that may not come to be
  abbrev Ready : Outcome (Session × Bool) → Type 0
  Ready (ret (s, _)) = is_vouched env s ≡ true
  Ready panic = Unit

  -- the same behind a whole run
  abbrev Ended : Outcome Session → Type 0
  Ended (ret s) = is_vouched env s ≡ true
  Ended panic = Unit

  Ready-Ended : (o : Outcome (Session × Bool)) → Ready o → Ended (o >>= λ x. ret x.0)
  Ready-Ended (ret (s, _)) h = h
  Ready-Ended panic h = tt

  Keeps-is_vouched :
      (s s' : Session) → Keeps env s s' → is_vouched env s ≡ true → is_vouched env s' ≡ true
  Keeps-is_vouched s s' k h = Vouched-is_vouched env s' (k.vouched (is_vouched-Vouched env s h))

  relayed-is_vouched :
      (s : Session) (r : Round) → is_vouched env s ≡ true → is_vouched env (relayed env s r) ≡ true
  relayed-is_vouched s (some rest, p, w) h = h
  relayed-is_vouched s (none, p, w) h = h

  relay-Ready :
      (s : Session) (r : Outcome Round)
      → is_vouched env s ≡ true
      → Ready (r >>= λ x. ret (relayed env s x, goes_on x))
  relay-Ready s (ret r) h = relayed-is_vouched s r h
  relay-Ready s panic h = tt

  relay_by-Ready :
      (o : Option Proxy) (line : Bytes) (more : List Bytes) (s : Session)
      → is_vouched env s ≡ true
      → Ready (relay_by env o line more s)
  relay_by-Ready none line more s h = tt
  relay_by-Ready (some p) line more s h =
      relay-Ready s (relay_round env s.config line more p s.world) h

  then_Ready :
      (o : Outcome (Session × Bool)) (next : Session × Bool → Outcome (Session × Bool))
      → Ready o
      → ((x : Session × Bool) → is_vouched env x.0 ≡ true → Ready (next x))
      → Ready (o >>= next)
  then_Ready (ret x) next h k = k x h
  then_Ready panic next h k = tt

  module _ (m : Middleware) where
    turn-Ready :
        (t : Turn) (x : Session × Bool) → is_vouched env x.0 ≡ true → Ready (turn env m t x)
    unfolding turn
    turn-Ready (commanded line) (s, reads) h =
        let done = handle_command env m line s in
        if_cases Ready (not reads && came is_switch s (answer env done).1) tt (
          Keeps-is_vouched done.1 (answer env done).1 (Sound-Keeps env (answer-Sound env m done))
            (handle_command-is_vouched env m line s h))
    turn-Ready (replied line more) (s, true) h = relay_by-Ready s.proxy line more s h
    turn-Ready (replied line more) (s, false) h = tt

    course-Ready :
        (ts : List Turn) (x : Session × Bool)
        → is_vouched env x.0 ≡ true
        → Ready (course env m ts x)
    unfolding course
    course-Ready [] x h = h
    course-Ready (t ∷ ts) x h =
        then_Ready (turn env m t x) (course env m ts) (turn-Ready t x h)
          (λ x k. course-Ready ts x k)

    run-Ended : (ts : List Turn) (s : Session) → is_vouched env s ≡ true → Ended (run env m ts s)
    unfolding run
    run-Ended ts s h = Ready-Ended _ (course-Ready ts (s, true) h)

  enter-is_vouched :
      (counts : ℕ) (s : Session)
      → is_vouched env s ≡ true
      → is_vouched env (enter env counts s).1 ≡ true
  unfolding enter refuse
  enter-is_vouched counts s h =
      if_cases (λ (r : Outcome Error × Session). is_vouched env r.1 ≡ true)
        (over_limit s.config counts)
        (Keeps-is_vouched s _ (Sound-Keeps env (response-Sound env _ s)) h)
        (Keeps-is_vouched s (connect_proxy env s).1 (connect_proxy-Keeps env s) h)

  -- the session of a new connection, before its first command
  abbrev pub entered : ℕ → Conn → Config → Option TlsData → World → Session
  entered counts conn config shared w =
      (enter env counts (new_client_handler conn config shared w)).1

  entered-is_vouched :
      (counts : ℕ) (conn : Conn) (config : Config) (shared : Option TlsData) (w : World)
      → is_vouched env (entered counts conn config shared w) ≡ true
  entered-is_vouched counts conn config shared w =
      enter-is_vouched counts (new_client_handler conn config shared w)
        (unfold new_client_handler in refl)

  -- A client that talks to the proxy in TLS gets no origin in clear: from a new connection on, behind
  -- any order of commands and replies that the program can take without a panic, where there is a proxy and
  -- USER ends without an answer of the proxy's own, the connection to the origin is in TLS.
  pub run-in_tls :
      (m : Middleware) (counts : ℕ) (conn : Conn) (config : Config) (shared : Option TlsData)
      (w : World) (ts : List Turn) (s s' : Session) (p : Proxy)
      → run env m ts (entered counts conn config shared w) ≡ ret s
      → s.control_in_tls ≡ true
      → s.proxy ≡ some p
      → handle_user env s ≡ (ret none, s')
      → (q : Proxy) × (c : Conn) × (s'.proxy ≡ some q) × (q.origin ≡ some c) × (c.in_tls ≡ true)
  run-in_tls m counts conn config shared w ts s s' p ran secured there ended =
      let start = entered-is_vouched counts conn config shared w in
      let vouched = subst Ended ran (run-Ended m ts (entered counts conn config shared w) start) in
      handle_user-in_tls env s s' p there (is_vouched-Vouched env s vouched secured) ended
