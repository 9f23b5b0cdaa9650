-- ===== src/Session/Dispatch/Commands.antt =====
-- pftp/client_handler.go: what every command of a client leaves as it was, a panic included
-- (handleCommand).
use pftp.Base.{
  Bool, true, not, ◌||◌, List, [], ◌∷◌, Option, none, some, ◌≡◌, refl, sym, ◌∙◌, arith, Error,
  Bool-cases, inl, inr, Outcome, ret, panic, subst,
}
use pftp.Command.{get_command, first}
use pftp.Proxy.Switch.{is_auth}
use pftp.Proxy.Switch.Secure.{any_auth}
use pftp.Session.Dispatch.Data.{handle_data-Ends}
use pftp.Session.Dispatch.Login.{handle_user-Held}
use pftp.Session.Dispatch.Passing.{On, Goes, Ends-Goes, pass_line-Ends, suspended-Goes}
use pftp.Session.Dispatch.Sound.{handle_transfer-Ends, handle_proxy-Ends}
use pftp.Session.Dispatch.Tls.{handle_auth-Held, handle_pbsz-Held, handle_prot-Held}
use pftp.Session.Dispatch.Vouched.{Vouched}
use pftp.Session.Dispatch.{
  Middleware, Entry, find_entry, recovered, handlers, run_entry, dispatch, after_middleware,
  with_middleware, run_command, handle_command,
}
use pftp.Session.Secure.{handle_auth, handle_pbsz, handle_prot}
use pftp.Session.User.{handle_user}
use pftp.Session.{Context, Session, Result, parse_line}
use pftp.Text.Equal.{same_iff, same_self}
use pftp.Text.{Bytes, codes, same, to_upper}
use pftp.World.{Env}

-- a client in TLS has sent an AUTH command that is kept
abbrev pub is_vouched : Env → Session → Bool
is_vouched env s = not s.control_in_tls || any_auth env s.previous_tls_commands

module _ (env : Env) where
  -- every entry with the name of the command
  abbrev Listed : Session → List (Bytes × Entry) → Type 0
  Listed s [] = Unit
  Listed s ((name, e) ∷ rest) =
      (same name s.command ≡ true → Goes env s (run_entry env (some e) s)) × Listed s rest

  find_entry-Goes :
      (s : Session) (xs : List (Bytes × Entry))
      → Listed s xs
      → Goes env s (run_entry env (find_entry s.command xs) s)
  find_entry-Goes s [] h = Ends-Goes env s _ (pass_line-Ends env s)
  find_entry-Goes s ((name, e) ∷ rest) h = elim (Bool-cases (same name s.command)) [
    | inl named ↦ rw named (h.0 named)
    | inr other ↦ rw other (find_entry-Goes s rest h.1)
  ]

  -- the command of a session is that of its line
  abbrev Parsed : Session → Type 0
  Parsed s = s.command ≡ to_upper env.unicode_upper (first (get_command s.line))

  named_auth :
      (s : Session) → Parsed s → same (codes "AUTH") s.command ≡ true → is_auth env s.line ≡ true
  unfolding is_auth
  named_auth s h k =
      let is_it = (same_iff (codes "AUTH") s.command).0 k in
      subst (λ t. same t (codes "AUTH") ≡ true) (is_it ∙ h) (same_self (codes "AUTH"))

  all-Listed : (s : Session) → Parsed s → Listed s (handlers env)
  unfolding handlers
  all-Listed s h =
      let user =
        suspended-Goes env (handle_user env) s
          λ p. handle_user-Held env (record s { proxy = some p }) in
      let auth = λ (k : same (codes "AUTH") s.command ≡ true).
        suspended-Goes env (handle_auth env) s
          λ p. handle_auth-Held env (record s { proxy = some p }) (named_auth s h k) in
      let pbsz =
        suspended-Goes env (handle_pbsz env) s
          λ p. handle_pbsz-Held env (record s { proxy = some p }) in
      let prot =
        suspended-Goes env (handle_prot env) s
          λ p. handle_prot-Held env (record s { proxy = some p }) in
      let channel = Ends-Goes env s _ (handle_data-Ends env s) in
      let moves = Ends-Goes env s _ (handle_transfer-Ends env s) in
      (
        λ _. Ends-Goes env s _ (handle_proxy-Ends env s),
        (
          λ _. user,
          (
            auth,
            (
              λ _. pbsz,
              (
                λ _. prot,
                (
                  λ _. channel,
                  (
                    λ _. channel,
                    (
                      λ _. channel,
                      (
                        λ _. channel,
                        (
                          λ _. moves,
                          (
                            λ _. moves,
                            (
                              λ _. moves,
                              (λ _. moves, (λ _. moves, (λ _. moves, (λ _. moves, tt)))),
                            ),
                          ),
                        ),
                      ),
                    ),
                  ),
                ),
              ),
            ),
          ),
        ),
      )

  dispatch-Goes : (s : Session) → Parsed s → Goes env s (dispatch env s)
  unfolding dispatch
  dispatch-Goes s h = find_entry-Goes s (handlers env) (all-Listed s h)

  after_middleware-Goes :
      (s : Session) (r : Outcome Error × Context) → Parsed s → Goes env s (after_middleware env s r)
  after_middleware-Goes s (panic, c) h = record { on = λ b q. q; vouched = λ v. v }
  after_middleware-Goes s (ret (some e), c) h = record { on = λ b q. q; vouched = λ v. v }
  after_middleware-Goes s (ret none, c) h =
      let goes = dispatch-Goes (record s { context = c }) h in
      record { on = goes.on; vouched = goes.vouched }

  with_middleware-Goes :
      (s : Session) (o : Option (Context → Bytes → Outcome Error × Context))
      → Parsed s
      → Goes env s (with_middleware env s o)
  with_middleware-Goes s none h = dispatch-Goes s h
  with_middleware-Goes s (some f) h = after_middleware-Goes s (f s.context s.param) h

  run_command-Goes : (m : Middleware) (s : Session) → Parsed s → Goes env s (run_command env m s)
  unfolding run_command
  run_command-Goes m s h = with_middleware-Goes s (m s.command) h

  recovered-session : (r : Outcome (Option Result) × Session) → (recovered r).1 ≡ r.1
  recovered-session (ret r, s) = refl
  recovered-session (panic, s) = refl

  parse_line-Parsed : (line : Bytes) (s : Session) → Parsed (parse_line env.unicode_upper line s)
  unfolding parse_line
  parse_line-Parsed line s = refl

  -- The flag passThrough is set behind any command where it was set before it, and the login is as it
  -- was: behind a handler that suspended the proxy, behind an error, and behind a panic.
  pub handle_command-On :
      (m : Middleware) (line : Bytes) (s : Session) (b : Bool × Bytes)
      → On b s.proxy
      → On b (handle_command env m line s).1.proxy
  unfolding handle_command parse_line
  handle_command-On m line s b h =
      let s' = parse_line env.unicode_upper line s in
      subst (λ (t : Session). On b t.proxy) (sym (recovered-session (run_command env m s')))
        ((run_command-Goes m s' (parse_line-Parsed line s)).on b h)

  command-Vouched :
      (m : Middleware) (line : Bytes) (s : Session)
      → Vouched env s
      → Vouched env (handle_command env m line s).1
  unfolding handle_command parse_line
  command-Vouched m line s h =
      let s' = parse_line env.unicode_upper line s in
      subst (Vouched env) (sym (recovered-session (run_command env m s')))
        ((run_command-Goes m s' (parse_line-Parsed line s)).vouched h)

  pub is_vouched-Vouched : (s : Session) → is_vouched env s ≡ true → Vouched env s
  is_vouched-Vouched s h = λ q. ground arith

  pub Vouched-is_vouched : (s : Session) → Vouched env s → is_vouched env s ≡ true
  Vouched-is_vouched s h = elim (Bool-cases s.control_in_tls) [
    | inl secured ↦ ground (arith, h secured)
    | inr plain ↦ ground arith
  ]

  -- Behind any command a client whose control connection is in TLS has sent an AUTH command that is
  -- kept for its next origin, where this held before the command.
  pub handle_command-is_vouched :
      (m : Middleware) (line : Bytes) (s : Session)
      → is_vouched env s ≡ true
      → is_vouched env (handle_command env m line s).1 ≡ true
  handle_command-is_vouched m line s h =
      Vouched-is_vouched (handle_command env m line s).1
        (command-Vouched m line s (is_vouched-Vouched s h))
