-- ===== src/Session/Runs/Laws.antt =====
-- pftp/client_handler.go and pftp/proxy.go: what a session keeps through any order of commands and
-- replies.
use pftp.Base.{
  Bool, true, false, not, ◌&&◌, ◌||◌, List, [], ◌∷◌, Option, none, some, ◌≡◌, refl, sym, ◌∙◌, ap,
  subst, arith, Outcome, ret, panic, ◌>>=◌, if_cases,
}
use pftp.Proxy.Life.{close_proxy}
use pftp.Proxy.Relay.Login.{is_login, Unmoved, Moves, relay_round-Moves}
use pftp.Proxy.Relay.{Round}
use pftp.Proxy.{Proxy, standing, destroy_data_handler}
use pftp.Session.Dispatch.Commands.{handle_command-On}
use pftp.Session.Dispatch.Passing.{On, On-Alike}
use pftp.Session.Dispatch.Sound.{Sound, response-Sound, Sound-refl}
use pftp.Session.Dispatch.{Middleware, handle_command}
use pftp.Session.DataCommands.{handle_data}
use pftp.Session.Guards.{login_first, handle_transfer-login}
use pftp.Session.Reading.{answer}
use pftp.Session.Runs.{
  Turn, commanded, replied, is_switch, came, behind_command, goes_on, relayed, relay_by, turn,
  course, run, login_behind,
}
use pftp.Session.{Session, Result, handle_transfer}
use pftp.Text.{Bytes}
use pftp.World.{Env, World}

module _ (env : Env) (m : Middleware) where
  pub answer-Sound : (r : Option Result × Session) → Sound r.1 (answer env r).1
  answer-Sound (none, s) = Sound-refl s
  answer-Sound (some r, s) = response-Sound env r s

  -- the login behind a turn, for a proxy with this welcome message
  abbrev Logged : Bool → Bytes → Outcome (Session × Bool) → Type 0
  Logged b welcome (ret (s, _)) = On (b, welcome) s.proxy
  Logged b welcome panic = Unit

  -- the same behind a whole run
  abbrev Ended : Bool → Bytes → Outcome Session → Type 0
  Ended b welcome (ret s) = On (b, welcome) s.proxy
  Ended b welcome panic = Unit

  Logged-Ended :
      (b : Bool) (welcome : Bytes) (o : Outcome (Session × Bool))
      → Logged b welcome o
      → Ended b welcome (o >>= λ x. ret x.0)
  Logged-Ended b welcome (ret (s, _)) h = h
  Logged-Ended b welcome panic h = tt

  behind_command-Logged :
      (reads : Bool) (s s' : Session) (b : Bool) (welcome : Bytes)
      → On (b, welcome) s'.proxy
      → Logged b welcome (behind_command reads s s')
  behind_command-Logged reads s s' b welcome h =
      if_cases (Logged b welcome) (not reads && came is_switch s s') tt h

  close_proxy-kept :
      (p : Proxy) (w : World)
      → let q = (close_proxy env p w).1 in
        (standing q ≡ standing p) × (q.pass_through ≡ p.pass_through)
  unfolding close_proxy destroy_data_handler
  close_proxy-kept p w = ground arith

  close_proxy-On :
      (b : Bool × Bytes) (p : Proxy) (w : World)
      → On b (some p)
      → On b (some (close_proxy env p w).1)
  close_proxy-On b p w h = let kept = close_proxy-kept p w in (kept.0 ∙ h.0, kept.1 ∙ h.1)

  moved-On :
      (p q : Proxy) (line : Bytes) (b : Bool) (welcome : Bytes)
      → On (b, welcome) (some p)
      → (q.is_loggedin ≡ (p.is_loggedin || is_login line)) × Unmoved p q
      → On (b || is_login line, welcome) (some q)
  moved-On p q line b welcome h (k, kept) =
      let logged = k ∙ ap (λ (x : Bool × Bytes). x.0 || is_login line) h.0 in
      let greeting = kept.0 ∙ ap (λ (x : Bool × Bytes). x.1) h.0 in
      (
        ap (λ c. (c, q.welcome_msg)) logged ∙ ap (λ c. (b || is_login line, c)) greeting,
        kept.1 ∙ h.1,
      )

  relayed-On :
      (p : Proxy) (line : Bytes) (s : Session) (r : Outcome Round) (b : Bool) (welcome : Bytes)
      → On (b, welcome) (some p)
      → Moves p line r
      → Logged (b || is_login line) welcome (r >>= λ x. ret (relayed env s x, goes_on x))
  relayed-On p line s (ret (some rest, q, w)) b welcome h k = moved-On p q line b welcome h k
  relayed-On p line s (ret (none, q, w)) b welcome h k =
      close_proxy-On _ q w (moved-On p q line b welcome h k)
  relayed-On p line s panic b welcome h k = tt

  relay_by-On :
      (o : Option Proxy) (line : Bytes) (more : List Bytes) (s : Session) (b : Bool)
      (welcome : Bytes)
      → is_login welcome ≡ false
      → On (b, welcome) o
      → Logged (b || is_login line) welcome (relay_by env o line more s)
  relay_by-On none line more s b welcome h k = tt
  relay_by-On (some p) line more s b welcome h k =
      let greeting = ap (λ (x : Bool × Bytes). x.1) k.0 in
      relayed-On p line s _ b welcome k
        (relay_round-Moves env s.config line more p s.world (ap is_login greeting ∙ h))

  -- what remains of a run, behind a turn
  then_run :
      (ts : List Turn) (o : Outcome (Session × Bool)) (b : Bool) (welcome : Bytes)
      → Logged b welcome o
      → ((x : Session × Bool)
          → On (b, welcome) x.0.proxy
          → Logged (login_behind ts b) welcome (course env m ts x))
      → Logged (login_behind ts b) welcome (o >>= course env m ts)
  then_run ts (ret x) b welcome h k = k x h
  then_run ts panic b welcome h k = tt

  course-On :
      (ts : List Turn) (s : Session) (reads : Bool) (b : Bool) (welcome : Bytes)
      → is_login welcome ≡ false
      → On (b, welcome) s.proxy
      → Logged (login_behind ts b) welcome (course env m ts (s, reads))
  unfolding course turn
  course-On [] s reads b welcome h k = k
  course-On (commanded line ∷ ts) s reads b welcome h k =
      let done = handle_command env m line s in
      let kept =
        On-Alike env (b, welcome) done.1.proxy (answer env done).1.proxy
          (handle_command-On env m line s (b, welcome) k) (answer-Sound done).proxy_alike in
      then_run ts (turn env m (commanded line) (s, reads)) b welcome
        (behind_command-Logged reads s (answer env done).1 b welcome kept)
        (λ x k. course-On ts x.0 x.1 b welcome h k)
  course-On (replied line more ∷ ts) s false b welcome h k = tt
  course-On (replied line more ∷ ts) s true b welcome h k =
      then_run ts (relay_by env s.proxy line more s) (b || is_login line) welcome
        (relay_by-On s.proxy line more s b welcome h k)
        (λ x k. course-On ts x.0 x.1 (b || is_login line) welcome h k)

  run-On :
      (ts : List Turn) (s : Session) (b : Bool) (welcome : Bytes)
      → is_login welcome ≡ false
      → On (b, welcome) s.proxy
      → Ended (login_behind ts b) welcome (run env m ts s)
  unfolding run
  run-On ts s b welcome h k = Logged-Ended _ welcome _ (course-On ts s true b welcome h k)

  On-proxy :
      (b : Bool) (welcome : Bytes) (o : Option Proxy)
      → On (b, welcome) o
      → (q : Proxy) × (o ≡ some q) × (q.is_loggedin ≡ b) × (q.pass_through ≡ true)
  On-proxy b welcome none h = absurd (ground arith)
  On-proxy b welcome (some q) h = (q, refl, ap (λ (x : Bool × Bytes). x.0) h.0, h.1)

  module _ (ts : List Turn) (s s' : Session) (p : Proxy) (there : s.proxy ≡ some p)
      (passes : p.pass_through ≡ true) (greeting : is_login p.welcome_msg ≡ false)
      (ran : run env m ts s ≡ ret s') where
    -- For a session whose proxy passes replies on and has a welcome message of another code than 230,
    -- in every order of commands and replies that the program can take without a panic: the login follows
    -- the code 230 of the replies alone, no command, no error and no panic of a handler changes it, and
    -- the proxy passes replies on at the end.
    pub run-login_behind :
        (q : Proxy) × (s'.proxy ≡ some q)
        × (q.is_loggedin ≡ login_behind ts p.is_loggedin)
        × (q.pass_through ≡ true)
    run-login_behind =
        let start = subst (On (standing p)) (sym there) (refl, passes) in
        let behind = run-On ts s p.is_loggedin p.welcome_msg greeting start in
        On-proxy _ p.welcome_msg s'.proxy
          (subst (Ended (login_behind ts p.is_loggedin) p.welcome_msg) ran behind)

    -- For a session whose proxy passes replies on and has a welcome message of another code than 230,
    -- in every order of commands and replies that the program can take without a panic and no reply has the
    -- code 230: a client that was not logged in can neither move data nor open a data connection, these
    -- commands answer 530 and change nothing.
    pub run-login_first :
        login_behind ts p.is_loggedin ≡ false
        → (handle_transfer env s' ≡ (login_first, s')) × (handle_data env s' ≡ (login_first, s'))
    run-login_first out =
        let (q, now, logged, _) = run-login_behind in
        handle_transfer-login env s' q now (logged ∙ out)
