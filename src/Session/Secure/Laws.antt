-- ===== src/Session/Secure/Laws.antt =====
-- pftp/handle_commands.go: what AUTH and PROT do to the session.
use pftp.Base.{
  Bool, true, false, not, Option, none, some, ◌≡◌, refl, ap, arith, Outcome, ret, panic, Bool-cases,
  Option-cases, inl, inr, if◌then◌else◌, Error,
}
use pftp.Command.{command_line_check}
use pftp.Proxy.{Proxy, unsuspend}
use pftp.Session.{Session, Result, Handler, response, send_to_origin, write_message, write, or_fail}
use pftp.Session.Secure.{
  handle_auth, handle_prot, forward, set_protection, after_response, remember, prot_result,
}
use pftp.Text.{Bytes, codes, same}
use pftp.Tls.{get_tls_config}
use pftp.World.{Env, Event, to_origin}

abbrev pub succeeded : Outcome (Option Result) → Bool
succeeded (ret none) = true
succeeded (ret (some _)) = false
succeeded panic = false

-- what the proxy has yet to say: the two fields that no response and no line to the origin changes
abbrev Same : Session → Session → Type 0
Same s s' = (s'.param ≡ s.param) × (s'.transfer_in_tls ≡ s.transfer_in_tls)

module _ (env : Env) where
  -- A server without TLS settings for its clients panics on AUTH, whatever the session is; it sends
  -- no response.
  pub handle_auth-nil : (s : Session) → s.tls.for_client ≡ none → handle_auth env s ≡ (panic, s)
  unfolding handle_auth get_tls_config
  handle_auth-nil s h = rw h refl

  write-Same : (e : Event) (s : Session) → Same s (write env e s).1
  unfolding write
  write-Same e s = ground arith

  response-Same : (r : Result) (s : Session) → Same s (response env r s).1
  unfolding response write_message
  response-Same r s = ground arith

  send_to_origin-Same : (line : Bytes) (s : Session) → Same s (send_to_origin env line s).1
  unfolding send_to_origin
  send_to_origin-Same line s =
      let written = write-Same (to_origin (command_line_check line).0) s in ground arith

  set_protection-level :
      (s : Session) (r : Outcome (Option Result) × Session)
      → Same s r.1
      → (set_protection env r).1.transfer_in_tls ≡ (
          if succeeded (set_protection env r).0
          then same s.param (codes "P")
          else s.transfer_in_tls)
  set_protection-level s (ret none, s') h = ap (λ x. same x (codes "P")) h.0
  set_protection-level s (ret (some x), s') h = h.1
  set_protection-level s (panic, s') h = h.1

  or_fail-Same :
      (code : _) (msg : Bytes → Bytes) (err : Bytes → Error) (s : Session) (r : Error × Session)
      → Same s r.1
      → Same s (or_fail env code msg err r).1
  or_fail-Same code msg err s (none, s') h = h
  or_fail-Same code msg err s (some e, s') h = h

  after-Same : (r : Result) (s : Session) → Same s (after_response env r (remember env) s).1
  after-Same r s = let written = response-Same r s in ground arith

  forward-Same : (what : Bytes) (p : Proxy) (s : Session) → Same s (forward env what p s).1
  unfolding forward
  forward-Same what p s =
      or_fail-Same 530 _ _ s _
        (send_to_origin-Same s.line (record s { proxy = some (unsuspend p) }))

  -- the branches of PROT under TLS
  abbrev answer : Proxy → Handler
  answer p s =
      if not p.is_loggedin
      then after_response env (prot_result env s.param) (remember env) s
      else forward env (codes "prot") p s

  answer-Same : (p : Proxy) (s : Session) → Same s (answer p s).1
  answer-Same p s =
      let unknown = after-Same (prot_result env s.param) s in
      let known = forward-Same (codes "prot") p s in ground arith

  handle_prot_tls :
      (s : Session) (p : Proxy)
      → s.control_in_tls ≡ true
      → s.proxy ≡ some p
      → handle_prot env s ≡ set_protection env (answer p s)
  unfolding handle_prot
  handle_prot_tls s p tls present = ground arith

  -- PROT sets the protection of the data connections to TLS for the parameter "P", and to clear for
  -- any other, where it ends without a failure; where it fails or panics, the protection stays.
  pub handle_prot-level :
      (s : Session)
      → (handle_prot env s).1.transfer_in_tls
        ≡ (if succeeded (handle_prot env s).0 then same s.param (codes "P") else s.transfer_in_tls)
  unfolding handle_prot
  handle_prot-level s = elim (Bool-cases s.control_in_tls) [
    | inr plain ↦ ground arith
    | inl tls ↦ elim (Option-cases s.proxy) [
      | inl absent ↦ ground arith
      | inr (p, present) ↦
          rw (handle_prot_tls s p tls present) (set_protection-level s _ (answer-Same p s))
    ]
  ]
