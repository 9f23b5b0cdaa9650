-- ===== src/Session/Dispatch/Sound.antt =====
-- pftp/client_handler.go: what every command of the client leaves as it was.
use pftp.Base.{
  true, false, not, Option, none, some, ◌≡◌, refl, sym, ◌∙◌, arith, Error, if_cases, Option-cases,
  inl, inr, Outcome, panic, subst, ◌==◌,
}
use pftp.Command.{command_line_check}
use pftp.Proxy.{Proxy, standing, is_data_handler_available, is_data_transfer_started}
use pftp.Session.{
  Session, Result, Handler, send_to_origin, or_fail, write, transfer_by, handle_transfer,
  start_transfer, handle_proxy, response, write_message, with_proxy,
}
use pftp.Text.{Bytes}
use pftp.World.{Env, World, Event, to_origin}

-- the login and the passing on of a proxy are as they were
abbrev pub Alike : Option Proxy → Option Proxy → Type 0
Alike none q = q ≡ none
Alike (some p) none = (p ≡ p) × (true ≡ false)
Alike (some p) (some q) = (standing q ≡ standing p) × (q.pass_through ≡ p.pass_through)

-- What a handler that does not set up TLS or a login leaves as it was.
pub record Sound (s s' : Session) : Type 0 where
  pub proxy_alike : Alike s.proxy s'.proxy
  pub tls_same : s'.control_in_tls ≡ s.control_in_tls
  pub line_same : s'.line ≡ s.line
  pub commands_same : s'.previous_tls_commands ≡ s.previous_tls_commands

pub Alike-refl : (q : Option Proxy) → Alike q q
Alike-refl none = refl
Alike-refl (some p) = (refl, refl)

pub Alike-trans : (a b c : Option Proxy) → Alike a b → Alike b c → Alike a c
Alike-trans none none c h k = k
Alike-trans none (some q) c h k = cc
Alike-trans (some p) none c h k = cc
Alike-trans (some p) (some q) none h k = cc
Alike-trans (some p) (some q) (some r) h k = (k.0 ∙ h.0, k.1 ∙ h.1)

pub Sound-refl : (s : Session) → Sound s s
Sound-refl s = record {
  proxy_alike = Alike-refl s.proxy;
  tls_same = refl;
  line_same = refl;
  commands_same = refl;
}

pub Sound-trans : {a b c : Session} → Sound a b → Sound b c → Sound a c
Sound-trans {a} {b} {c} h k = record {
  proxy_alike = Alike-trans a.proxy b.proxy c.proxy h.proxy_alike k.proxy_alike;
  tls_same = k.tls_same ∙ h.tls_same;
  line_same = k.line_same ∙ h.line_same;
  commands_same = k.commands_same ∙ h.commands_same;
}

pub record Ends (s : Session) (r : Outcome (Option Result) × Session) : Type 0 where
  pub sound : Sound s r.1

-- a handler that ends at once
pub stays : (s : Session) (r : Outcome (Option Result)) → Ends s (r, s)
stays s r = record { sound = Sound-refl s }

-- only the world is another
pub world-Sound : (s : Session) (w : World) → Sound s (record s { world = w })
world-Sound s w = record {
  proxy_alike = Alike-refl s.proxy;
  tls_same = refl;
  line_same = refl;
  commands_same = refl;
}

of_world : (s : Session) {s' : Session} (w : World) → s' ≡ record s { world = w } → Sound s s'
of_world s w e = subst (Sound s) (sym e) (world-Sound s w)

module _ (env : Env) where
  write-world :
      (e : Event) (s : Session) → (write env e s).1 ≡ record s { world = (write env e s).1.world }
  unfolding write
  write-world e s = ground arith

  pub send-world :
      (line : Bytes) (s : Session)
      → (send_to_origin env line s).1 ≡ record s { world = (send_to_origin env line s).1.world }
  unfolding send_to_origin
  send-world line s = ground (arith, write-world (to_origin (command_line_check line).0) s)

  pub send-Sound : (line : Bytes) (s : Session) → Sound s (send_to_origin env line s).1
  send-Sound line s = of_world s _ (send-world line s)

  response-world :
      (r : Result) (s : Session)
      → (response env r s).1 ≡ record s { world = (response env r s).1.world }
  unfolding response write_message
  response-world r s =
      if_cases (λ (x : Error × Session). x.1 ≡ record s { world = x.1.world }) (r.code == 0) refl
        (write-world _ s)

  pub response-Sound : (r : Result) (s : Session) → Sound s (response env r s).1
  response-Sound r s = of_world s _ (response-world r s)

  pub or_fail-Ends :
      (code : _) (msg : Bytes → Bytes) (err : Bytes → Error) (s : Session) (r : Error × Session)
      → Sound s r.1
      → Ends s (or_fail env code msg err r)
  or_fail-Ends code msg err s (none, s') h = record { sound = h }
  or_fail-Ends code msg err s (some e, s') h = record { sound = h }

  start_transfer-Sound : (s : Session) → Sound s (start_transfer env s)
  unfolding start_transfer
  start_transfer-Sound s = of_world s (start_transfer env s).world (ground arith)

  pub with_proxy-none :
      (h : Proxy → Handler) (s : Session) → s.proxy ≡ none → with_proxy env h s ≡ (panic, s)
  with_proxy-none h s e = ground arith

  pub with_proxy-some :
      (h : Proxy → Handler) (s : Session) {p : Proxy}
      → s.proxy ≡ some p
      → with_proxy env h s ≡ h p s
  with_proxy-some h s e = ground arith

  pub with_proxy-Ends :
      (h : Proxy → Handler) (s : Session)
      → ((p : Proxy) → s.proxy ≡ some p → Ends s (h p s))
      → Ends s (with_proxy env h s)
  with_proxy-Ends h s k = elim (Option-cases s.proxy) [
    | inl absent ↦ subst (Ends s) (sym (with_proxy-none h s absent)) (stays s panic)
    | inr (p, there) ↦ subst (Ends s) (sym (with_proxy-some h s there)) (k p there)
  ]

  transfer_by-Ends : (p : Proxy) (s : Session) → Ends s (transfer_by env p s)
  unfolding transfer_by
  transfer_by-Ends p s = if_cases (Ends s) (not p.is_loggedin) (stays s _) (
      if_cases (Ends s) (not (is_data_handler_available p)) (stays s _) (
        if_cases (Ends s) (is_data_transfer_started p s.world.in_data_transfer) (stays s _) (
          or_fail-Ends 500 _ _ s _
            (Sound-trans (start_transfer-Sound s) (send-Sound s.line (start_transfer env s))))))

  pub handle_transfer-Ends : (s : Session) → Ends s (handle_transfer env s)
  unfolding handle_transfer
  handle_transfer-Ends s = with_proxy-Ends (transfer_by env) s λ p there. transfer_by-Ends p s

  proxy_header-Sound : (s : Session) (ip : Bytes) → Sound s (record s { src_ip = ip })
  proxy_header-Sound s ip = record {
    proxy_alike = Alike-refl s.proxy;
    tls_same = refl;
    line_same = refl;
    commands_same = refl;
  }

  handle_proxy-ip :
      (s : Session) → (handle_proxy env s).1 ≡ record s { src_ip = (handle_proxy env s).1.src_ip }
  unfolding handle_proxy
  handle_proxy-ip s = ground arith

  pub handle_proxy-Ends : (s : Session) → Ends s (handle_proxy env s)
  handle_proxy-Ends s = record {
    sound =
        subst (Sound s) (sym (handle_proxy-ip s))
          (proxy_header-Sound s (handle_proxy env s).1.src_ip);
  }
