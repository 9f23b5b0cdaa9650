-- ===== src/Main/Unknown.antt =====
-- main.go: a user whom the web API does not know.
use pftp.Base.{false, some, ◌≡◌, refl, sym, ◌∙◌, ap, subst, arith, ret}
use pftp.Command.{get_command, first}
use pftp.Main.{Web, no_domain, set_origin, get_domain_from_web_api, user, with_user}
use pftp.Proxy.Life.{switch_origin}
use pftp.Proxy.{Proxy, suspend, unsuspend}
use pftp.Server.{Server, use_middleware}
use pftp.Session.Dispatch.Passing.{suspended-some}
use pftp.Session.Dispatch.{
  Middleware, find_entry, unsuspend_after, recovered, handlers, suspended, run_entry, dispatch,
  after_middleware, with_middleware, run_command, handle_command,
}
use pftp.Session.User.{connect_proxy, after_connect, handle_user}
use pftp.Session.{Session, Result, parse_line}
use pftp.Text.{Bytes, codes, same, to_upper}
use pftp.World.{Env}

-- the answer to a user whose origin is unknown
abbrev pub user_not_found : Result
user_not_found = record {
  code = 530;
  msg = codes "user id not found";
  err = some (codes "user id not found");
}

-- the session behind it, with no origin in its context
abbrev pub left_alone : Proxy → Session → Session
left_alone p s = record s {
  context = record (s.context) { remote_addr = codes "" };
  proxy = some (unsuspend p);
}

module _ (env : Env) where
  nowhere :
      (s : Session) (p : Proxy)
      → s.context.remote_addr ≡ codes ""
      → s.proxy ≡ some p
      → connect_proxy env s ≡ (ret (some (codes "user id not found")), s)
  unfolding connect_proxy switch_origin
  nowhere s p h k = ground arith

  handle_user_nowhere :
      (s : Session) (p : Proxy)
      → s.context.remote_addr ≡ codes ""
      → s.proxy ≡ some p
      → p.is_loggedin ≡ false
      → handle_user env s ≡ (ret (some user_not_found), s)
  unfolding handle_user after_connect same
  handle_user_nowhere s p h k out = ground (arith, nowhere s p h k)

  dispatch_user :
      (s : Session) → s.command ≡ codes "USER" → dispatch env s ≡ suspended env (handle_user env) s
  unfolding dispatch handlers same
  dispatch_user s h =
      subst (λ c. run_entry env (find_entry c (handlers env)) s ≡ suspended env (handle_user env) s)
        (sym h) refl

  suspended_user :
      (s : Session) (p : Proxy)
      → s.proxy ≡ some p
      → p.is_loggedin ≡ false
      → s.context.remote_addr ≡ codes ""
      → suspended env (handle_user env) s
        ≡ (ret (some user_not_found), record s { proxy = some (unsuspend p) })
  unfolding suspend unsuspend
  suspended_user s p h out k =
      suspended-some env (handle_user env) s h
      ∙ ap unsuspend_after
          (handle_user_nowhere (record s { proxy = some (suspend p) }) (suspend p) k refl out)

  module _ (web : Web) (conf_file : Bytes) (server : Server) where
    abbrev middleware : Middleware
    middleware = (with_user web env.unicode_upper conf_file server).middleware

    user_middleware : middleware (codes "USER") ≡ some (user web conf_file)
    unfolding with_user use_middleware same to_upper
    user_middleware = refl

    run_user :
        (s : Session) (p : Proxy) (e : Bytes)
        → s.command ≡ codes "USER"
        → s.proxy ≡ some p
        → p.is_loggedin ≡ false
        → get_domain_from_web_api web conf_file s.param ≡ ret (no_domain e)
        → run_command env middleware s ≡ (ret (some user_not_found), left_alone p s)
    unfolding run_command user
    run_user s p e named there out failed =
        ap (with_middleware env s) (ap middleware named ∙ user_middleware)
        ∙ ap (λ d. after_middleware env s (set_origin web s.context d)) failed
        ∙ dispatch_user (record s { context = record (s.context) { remote_addr = codes "" } }) named
        ∙ suspended_user (record s { context = record (s.context) { remote_addr = codes "" } }) p
            there out refl

    -- With the middleware of the program, a client that is not logged in and sends USER with a name for
    -- which the web API gives no domain is answered 530 "user id not found". Nothing is sent to the
    -- origin, its connection stays, and the proxy passes replies on.
    pub handle_command-unknown :
        (line : Bytes) (s : Session) (p : Proxy) (e : Bytes)
        → to_upper env.unicode_upper (first (get_command line)) ≡ codes "USER"
        → s.proxy ≡ some p
        → p.is_loggedin ≡ false
        → get_domain_from_web_api web conf_file (parse_line env.unicode_upper line s).param
          ≡ ret (no_domain e)
        → handle_command env middleware line s
          ≡ (some user_not_found, left_alone p (parse_line env.unicode_upper line s))
    unfolding handle_command parse_line
    handle_command-unknown line s p e named there out failed =
        ap recovered (run_user (parse_line env.unicode_upper line s) p e named there out failed)
