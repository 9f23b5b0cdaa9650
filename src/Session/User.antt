-- ===== src/Session/User.antt =====
-- pftp/handle_commands.go and pftp/client_handler.go: USER, by which a session gets the origin that its
-- context names (handleUSER, connectProxy).
pub mod Tls
use pftp.Base.{
  Bool, true, false, List, [], ◌∷◌, Option, none, some, if◌then◌else◌, Error, Outcome, ret, panic,
}
use pftp.Proxy.Life.{Switched, new_proxy_server, switch_origin}
use pftp.Proxy.{Proxy, unsuspend}
use pftp.Session.{Session, Result, Handler, fails, send_to_origin, or_fail, with_proxy}
use pftp.Text.{Bytes, codes, same}
use pftp.World.{Env, World}

-- the session with what a switch left behind
abbrev pub switched_to : Session → Switched → Outcome Error × Session
switched_to s (r, p, w) = (r, record s { proxy = some p; world = w })

-- the session with a first proxy, or without one
abbrev pub first_proxy : Session → Option Proxy × Error × World → Outcome Error × Session
first_proxy s (none, e, w) = (ret e, record s { world = w })
first_proxy s (some p, e, w) = (ret e, record s { proxy = some p; world = w })

-- whether there is a proxy that is logged in
abbrev pub is_known : Option Proxy → Bool
is_known none = false
is_known (some p) = p.is_loggedin

module _ (env : Env) where
  -- `connectProxy`
  unfoldable pub connect_proxy : Session → Outcome Error × Session
  connect_proxy s = elim (s.proxy) [
    | some p ↦ switched_to s (
        switch_origin env s.config s.tls s.src_ip s.context.remote_addr s.previous_tls_commands p
          s.world)
    | none ↦ first_proxy s (new_proxy_server env s.config s.context.remote_addr s.world)
  ]

  -- behind a proxy that is connected: the line goes to the origin
  unfoldable pub log_in_by : Proxy → Handler
  log_in_by p s =
      or_fail env 530 (λ _. codes "I can't deal with you (proxy error) for user") (λ e. some e)
        (send_to_origin env s.line (record s { proxy = some (unsuspend p) }))

  unfoldable pub log_in : Handler
  log_in = with_proxy env log_in_by

  unfoldable pub after_connect : Outcome Error × Session → Outcome (Option Result) × Session
  after_connect (panic, s) = (panic, s)
  after_connect (ret none, s) = log_in s
  after_connect (ret (some e), s) =
      if same e (codes "user id not found")
      then fails 530 e (some e) s
      else fails 530 (codes "I can't deal with you (proxy error for user)") (some e) s

  -- `handleUSER`
  unfoldable pub handle_user : Handler
  handle_user s =
      if is_known s.proxy
      then fails 500 (codes "Already logged in") (some (codes "already logged in")) s
      else after_connect (connect_proxy s)
