-- ===== src/Session/Dispatch/Tls.antt =====
-- pftp/handle_commands.go: what AUTH, PBSZ and PROT leave as it was.
use pftp.Base.{
  ℕ, Bool, true, false, not, ◌||◌, [], ◌∷◌, ◌++◌, Option, none, some, ◌≡◌, refl, sym, ◌∙◌, ap,
  arith, Error, if_cases, Outcome, ret, panic, subst, Option-cases, inl, inr,
}
use pftp.Proxy.Switch.{is_auth}
use pftp.Proxy.Switch.Secure.{any_auth}
use pftp.Proxy.{Proxy, unsuspend}
use pftp.Session.Dispatch.Sound.{
  Ends, response-Sound, send-Sound, or_fail-Ends, with_proxy-none, with_proxy-some,
}
use pftp.Session.Dispatch.Vouched.{
  LoginAlike, LoginAlike-refl, LoginAlike-trans, any_auth-append, Held, after-Held, ends-Held,
  Sound-Keeps,
}
use pftp.Session.Secure.{
  responded, after_response, adopted, adopt_tls, shaken, shake_hands, auth_with, handle_auth,
  remember, forward, needs_tls, pbsz_by, handle_pbsz, prot_result, set_protection, prot_by,
  handle_prot,
}
use pftp.Session.{Session, Result, Handler, response, with_proxy}
use pftp.Text.{Bytes, codes}
use pftp.Tls.{TlsData, TlsConfig, get_tls_config}
use pftp.World.{Env, Handshake, agreed, failed, tick, handshake}

or_true : (b : Bool) → (b || (true || false)) ≡ true
or_true b = ground arith

module _ (env : Env) where
  responded-Held :
      (next : Handler) (r : Error × Session)
      → Held env r.1 (next r.1)
      → Held env r.1 (responded env next r)
  responded-Held next (none, s) h = h
  responded-Held next (some e, s) h = ends-Held env s _

  after_response-Held :
      (r : Result) (next : Handler) (s : Session)
      → Held env (response env r s).1 (next (response env r s).1)
      → Held env s (after_response env r next s)
  after_response-Held r next s h =
      after-Held env _ (Sound-Keeps env (response-Sound env r s))
        (responded-Held next (response env r s) h)

  remember-Held : (s : Session) → Held env s (remember env s)
  remember-Held s = record {
    keeps = record {
      login = LoginAlike-refl s.proxy;
      vouched = λ v q.
          any_auth-append env s.previous_tls_commands (s.line ∷ [])
          ∙ ap (λ b. b || any_auth env (s.line ∷ [])) (v q);
      line_same = refl;
    };
  }

  adopted-Held : (s : Session) (m : Outcome (Option TlsData)) → Held env s (adopted env s m)
  adopted-Held s panic = ends-Held env s panic
  adopted-Held s (ret t) = record {
    keeps = record { login = LoginAlike-refl s.proxy; vouched = λ v. v; line_same = refl };
  }

  -- a session that adopts TLS has just been sent AUTH
  abbrev noted : Session → Bytes → ℕ → ℕ → Session
  noted s name version suite = record s {
    conn = record (s.conn) { in_tls = true };
    previous_tls_commands = s.previous_tls_commands ++ s.line ∷ [];
    control_in_tls = true;
    tls = record (s.tls) { server_name = name; version = version; cipher_suite = suite };
  }

  adopt_tls-Held :
      (name : Bytes) (version suite : ℕ) (s : Session)
      → is_auth env s.line ≡ true
      → Held env s (adopt_tls env name version suite s)
  unfolding adopt_tls
  adopt_tls-Held name version suite s h =
      after-Held env {s' = noted s name version suite} _
        (record {
          login = LoginAlike-refl s.proxy;
          vouched = λ v q.
              any_auth-append env s.previous_tls_commands (s.line ∷ [])
              ∙ ap (λ b. any_auth env s.previous_tls_commands || (b || false)) h
              ∙ or_true (any_auth env s.previous_tls_commands);
          line_same = refl;
        })
        (adopted-Held (noted s name version suite) _)

  shaken-Held :
      (h : Handshake) (s : Session) → is_auth env s.line ≡ true → Held env s (shaken env h s)
  shaken-Held (failed e) s h = ends-Held env s _
  shaken-Held (agreed name version suite) s h = adopt_tls-Held name version suite s h

  shake_hands-Held : (s : Session) → is_auth env s.line ≡ true → Held env s (shake_hands env s)
  unfolding shake_hands
  shake_hands-Held s h =
      let s' : Session = record s { world = tick handshake s.world } in
      after-Held env {s' = s'} _
        (record { login = LoginAlike-refl s.proxy; vouched = λ v. v; line_same = refl })
        (shaken-Held (env.shake s.world.clock) s' h)

  auth_with-Held :
      (m : Outcome (Option TlsConfig)) (s : Session)
      → is_auth env s.line ≡ true
      → Held env s (auth_with env m s)
  auth_with-Held panic s h = ends-Held env s panic
  auth_with-Held (ret none) s h = ends-Held env s _
  auth_with-Held (ret (some _)) s h =
      let r : Result = record {
        code = 234;
        msg = codes "AUTH command ok. Expecting " ++ (s.param ++ codes " Negotiation.");
        err = none;
      } in
      after_response-Held r (shake_hands env) s
        (shake_hands-Held _ (ap (is_auth env) (response-Sound env r s).line_same ∙ h))

  pub handle_auth-Held : (s : Session) → is_auth env s.line ≡ true → Held env s (handle_auth env s)
  unfolding handle_auth
  handle_auth-Held s h = auth_with-Held (get_tls_config s.tls.for_client) s h

  pub Ends-Held : (s : Session) (r : Outcome (Option Result) × Session) → Ends s r → Held env s r
  Ends-Held s r h = record { keeps = Sound-Keeps env h.sound }

  -- an unsuspended proxy, with the login of the session's own
  forward-Held :
      (what : Bytes) (p : Proxy) (s : Session)
      → LoginAlike s.proxy (some p)
      → Held env s (forward env what p s)
  unfolding forward
  forward-Held what p s h =
      let s' : Session = record s { proxy = some (unsuspend p) } in
      after-Held env {s' = s'} _
        (record {
          login =
              LoginAlike-trans s.proxy (some p) (some (unsuspend p)) h (unfold unsuspend in refl);
          vouched = λ v. v;
          line_same = refl;
        })
        (Ends-Held s' _ (or_fail-Ends env 530 _ _ s' _ (send-Sound env s.line s')))

  pbsz_by-Held :
      (p : Proxy) (s : Session) → LoginAlike s.proxy (some p) → Held env s (pbsz_by env p s)
  unfolding pbsz_by
  pbsz_by-Held p s h =
      let r : Result = record {
        code = 200;
        msg = codes "PBSZ " ++ (s.param ++ codes " successful");
        err = none;
      } in
      if_cases (Held env s) (not p.is_loggedin)
        (after_response-Held r (remember env) s (remember-Held _))
        (forward-Held (codes "pbsz") p s h)

  set_protection-Held :
      (s : Session) (r : Outcome (Option Result) × Session)
      → Held env s r
      → Held env s (set_protection env r)
  set_protection-Held s (ret none, s') h = record {
    keeps = record {
      login = h.keeps.login;
      vouched = h.keeps.vouched;
      line_same = h.keeps.line_same;
    };
  }
  set_protection-Held s (ret (some x), s') h = h
  set_protection-Held s (panic, s') h = h

  prot_by-Held :
      (p : Proxy) (s : Session) → LoginAlike s.proxy (some p) → Held env s (prot_by env p s)
  unfolding prot_by
  prot_by-Held p s h = set_protection-Held s _ (
      if_cases (Held env s) (not p.is_loggedin)
        (after_response-Held (prot_result env s.param) (remember env) s (remember-Held _))
        (forward-Held (codes "prot") p s h))

  pub with_proxy-Held :
      (h : Proxy → Handler) (s : Session)
      → ((p : Proxy) → LoginAlike s.proxy (some p) → Held env s (h p s))
      → Held env s (with_proxy env h s)
  with_proxy-Held h s k = elim (Option-cases s.proxy) [
    | inl absent ↦ subst (Held env s) (sym (with_proxy-none env h s absent)) (ends-Held env s panic)
    | inr (p, there) ↦
        subst (Held env s) (sym (with_proxy-some env h s there))
          (k p (subst (λ o. LoginAlike o (some p)) (sym there) refl))
  ]

  needs_tls-Held : (h : Handler) (s : Session) → Held env s (h s) → Held env s (needs_tls env h s)
  needs_tls-Held h s k = if_cases (Held env s) s.control_in_tls k (ends-Held env s _)

  pub handle_pbsz-Held : (s : Session) → Held env s (handle_pbsz env s)
  unfolding handle_pbsz
  handle_pbsz-Held s =
      needs_tls-Held (with_proxy env (pbsz_by env)) s
        (with_proxy-Held (pbsz_by env) s (λ p h. pbsz_by-Held p s h))

  pub handle_prot-Held : (s : Session) → Held env s (handle_prot env s)
  unfolding handle_prot
  handle_prot-Held s =
      needs_tls-Held (with_proxy env (prot_by env)) s
        (with_proxy-Held (prot_by env) s (λ p h. prot_by-Held p s h))
