-- ===== src/Session/User/Tls.antt =====
-- pftp/handle_commands.go: the connection to the origin behind USER.
use pftp.Base.{
  true, Option, none, some, ◌≡◌, refl, sym, ap, Error, if_cases, Outcome, ret, panic, subst,
}
use pftp.Proxy.Life.Switching.{Wrapped, switch_origin-Wrapped}
use pftp.Proxy.Life.{Switched}
use pftp.Proxy.Switch.Secure.{any_auth}
use pftp.Proxy.{Proxy, unsuspend}
use pftp.Session.Dispatch.Login.{connect_proxy-some}
use pftp.Session.Dispatch.Sound.{send-world, with_proxy-some}
use pftp.Session.User.{
  switched_to, is_known, connect_proxy, log_in_by, log_in, after_connect, handle_user,
}
use pftp.Session.{Session, Result, send_to_origin, or_fail}
use pftp.Text.{Bytes, codes, same}
use pftp.World.{Conn, Env}

-- a proxy with a connection in TLS
abbrev InTls : Option Proxy → Type 0
InTls o = (q : Proxy) × (c : Conn) × (o ≡ some q) × (q.origin ≡ some c) × (c.in_tls ≡ true)

-- the same where a handler ends without an answer of its own
abbrev Ending : Outcome (Option Result) × Session → Type 0
Ending (ret none, s) = InTls s.proxy
Ending (ret (some _), s) = Unit
Ending (panic, s) = Unit

abbrev Reaching : Outcome Error × Session → Type 0
Reaching (ret none, s) = InTls s.proxy
Reaching (ret (some _), s) = Unit
Reaching (panic, s) = Unit

module _ (env : Env) where
  switched_to-Reaching :
      (s : Session) (r : Switched)
      → Wrapped env s.config s.tls s.previous_tls_commands r
      → any_auth env s.previous_tls_commands ≡ true
      → Reaching (switched_to s r)
  switched_to-Reaching s (ret none, p, w) (c, h, k) q = (p, c, refl, h, k q)
  switched_to-Reaching s (ret (some e), p, w) h q = tt
  switched_to-Reaching s (panic, p, w) h q = tt

  or_fail-Ending :
      (r : Error × Session) (msg : Bytes → Bytes) (err : Bytes → Error)
      → InTls r.1.proxy
      → Ending (or_fail env 530 msg err r)
  or_fail-Ending (none, s) msg err h = h
  or_fail-Ending (some e, s) msg err h = tt

  log_in_by-Ending :
      (q : Proxy) (c : Conn) (s : Session)
      → q.origin ≡ some c
      → c.in_tls ≡ true
      → Ending (log_in_by env q s)
  unfolding log_in_by unsuspend
  log_in_by-Ending q c s h k =
      let s' : Session = record s { proxy = some (unsuspend q) } in
      or_fail-Ending (send_to_origin env s.line s') _ _
        (unsuspend q, c, ap (λ (t : Session). t.proxy) (send-world env s.line s'), h, k)

  after_connect-Ending : (r : Outcome Error × Session) → Reaching r → Ending (after_connect env r)
  unfolding after_connect log_in
  after_connect-Ending (ret none, s) (q, c, h, o, k) =
      subst Ending (sym (with_proxy-some env (log_in_by env) s h)) (log_in_by-Ending q c s o k)
  after_connect-Ending (ret (some e), s) h =
      if_cases Ending (same e (codes "user id not found")) tt tt
  after_connect-Ending (panic, s) h = tt

  handle_user-Ending :
      (s : Session) (p : Proxy)
      → s.proxy ≡ some p
      → any_auth env s.previous_tls_commands ≡ true
      → Ending (handle_user env s)
  unfolding handle_user
  handle_user-Ending s p h k = if_cases Ending (is_known s.proxy) tt (
      after_connect-Ending (connect_proxy env s) (
        subst Reaching (sym (connect_proxy-some env s h)) (
          switched_to-Reaching s _
            (switch_origin-Wrapped env s.config s.tls s.previous_tls_commands s.src_ip
              s.context.remote_addr p s.world)
            k)))

  -- Where USER ends without an answer of the proxy's own, for a client that sent AUTH before, the
  -- session has a connection to an origin, and that connection is in TLS.
  pub handle_user-in_tls :
      (s s' : Session) (p : Proxy)
      → s.proxy ≡ some p
      → any_auth env s.previous_tls_commands ≡ true
      → handle_user env s ≡ (ret none, s')
      → (q : Proxy) × (c : Conn) × (s'.proxy ≡ some q) × (q.origin ≡ some c) × (c.in_tls ≡ true)
  handle_user-in_tls s s' p h k e = subst Ending e (handle_user-Ending s p h k)
