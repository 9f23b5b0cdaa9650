-- ===== src/Session/Dispatch/Login.antt =====
-- pftp/handle_commands.go: what USER leaves as it was.
use pftp.Base.{
  Option, none, some, ◌≡◌, refl, sym, arith, Error, if_cases, Option-cases, inl, inr, Outcome, ret,
  panic, subst,
}
use pftp.Proxy.Life.Switching.{switch_origin-Steady}
use pftp.Proxy.Life.{Switched, switch_origin, new_proxy_server}
use pftp.Proxy.{Proxy, standing, unsuspend}
use pftp.Session.Dispatch.Sound.{or_fail-Ends, send-Sound}
use pftp.Session.Dispatch.Tls.{with_proxy-Held, Ends-Held}
use pftp.Session.Dispatch.Vouched.{
  LoginAlike, LoginAlike-refl, LoginAlike-trans, Keeps, Held, after-Held, ends-Held,
}
use pftp.Session.User.{
  switched_to, first_proxy, is_known, connect_proxy, log_in_by, log_in, after_connect, handle_user,
}
use pftp.Session.{Session}
use pftp.Text.{codes, same}
use pftp.World.{Env, World}

module _ (env : Env) where
  reached :
      (s : Session) (q : Option Proxy) (w : World)
      → LoginAlike s.proxy q
      → Keeps env s (record s { proxy = q; world = w })
  reached s q w h = record { login = h; vouched = λ v. v; line_same = refl }

  first_proxy-Keeps :
      (s : Session) (r : Option Proxy × Error × World)
      → s.proxy ≡ none
      → Keeps env s (first_proxy s r).1
  first_proxy-Keeps s (none, e, w) h = reached s s.proxy w (LoginAlike-refl s.proxy)
  first_proxy-Keeps s (some p, e, w) h =
      reached s (some p) w (subst (λ o. LoginAlike o (some p)) (sym h) tt)

  switched_to-Keeps :
      (s : Session) (p : Proxy) (r : Switched)
      → s.proxy ≡ some p
      → standing r.1 ≡ standing p
      → Keeps env s (switched_to s r).1
  switched_to-Keeps s p (r, q, w) h k =
      reached s (some q) w (subst (λ o. LoginAlike o (some q)) (sym h) k)

  connect_proxy-none :
      (s : Session)
      → s.proxy ≡ none
      → connect_proxy env s
        ≡ first_proxy s (new_proxy_server env s.config s.context.remote_addr s.world)
  unfolding connect_proxy
  connect_proxy-none s h = ground arith

  pub connect_proxy-some :
      (s : Session) {p : Proxy}
      → s.proxy ≡ some p
      → connect_proxy env s
        ≡ switched_to s (
            switch_origin env s.config s.tls s.src_ip s.context.remote_addr s.previous_tls_commands
              p s.world)
  unfolding connect_proxy
  connect_proxy-some s h = ground arith

  pub connect_proxy-Keeps : (s : Session) → Keeps env s (connect_proxy env s).1
  connect_proxy-Keeps s = elim (Option-cases s.proxy) [
    | inl absent ↦
        subst (λ (r : Outcome Error × Session). Keeps env s r.1) (sym (connect_proxy-none s absent))
          (first_proxy-Keeps s _ absent)
    | inr (p, there) ↦
        subst (λ (r : Outcome Error × Session). Keeps env s r.1) (sym (connect_proxy-some s there))
          (switched_to-Keeps s p
            (switch_origin env s.config s.tls s.src_ip s.context.remote_addr s.previous_tls_commands
              p s.world)
            there
            (switch_origin-Steady env s.config s.tls s.src_ip s.context.remote_addr
              s.previous_tls_commands p s.world).0)
  ]

  log_in_by-Held :
      (p : Proxy) (s : Session) → LoginAlike s.proxy (some p) → Held env s (log_in_by env p s)
  unfolding log_in_by
  log_in_by-Held p s h =
      let s' : Session = record s { proxy = some (unsuspend p) } in
      after-Held env {s' = s'} _
        (reached s (some (unsuspend p)) s.world
          (LoginAlike-trans s.proxy (some p) (some (unsuspend p)) h (unfold unsuspend in refl)))
        (Ends-Held env s' _ (or_fail-Ends env 530 _ _ s' _ (send-Sound env s.line s')))

  log_in-Held : (s : Session) → Held env s (log_in env s)
  unfolding log_in
  log_in-Held s = with_proxy-Held env (log_in_by env) s (λ p h. log_in_by-Held p s h)

  after_connect-Held :
      (s : Session) (r : Outcome Error × Session)
      → Keeps env s r.1
      → Held env s (after_connect env r)
  unfolding after_connect
  after_connect-Held s (panic, s') h = record { keeps = h }
  after_connect-Held s (ret none, s') h = after-Held env {s' = s'} _ h (log_in-Held s')
  after_connect-Held s (ret (some e), s') h =
      if_cases (Held env s) (same e (codes "user id not found")) (record { keeps = h })
        (record { keeps = h })

  pub handle_user-Held : (s : Session) → Held env s (handle_user env s)
  unfolding handle_user
  handle_user-Held s =
      if_cases (Held env s) (is_known s.proxy) (ends-Held env s _)
        (after_connect-Held s (connect_proxy env s) (connect_proxy-Keeps s))
