-- ===== src/Session/Dispatch/Passing.antt =====
-- pftp/client_handler.go: a proxy that passes replies on, through one handler of a command.
use pftp.Base.{
  Bool, true, false, Option, none, some, ◌≡◌, ◌≢◌, refl, sym, ◌∙◌, arith, Option-cases, inl, inr,
  Outcome, panic, subst,
}
use pftp.Proxy.{Proxy, standing, suspend, unsuspend}
use pftp.Session.Dispatch.Sound.{Alike, Sound, Sound-refl, Ends, or_fail-Ends, send-Sound}
use pftp.Session.Dispatch.Tls.{Ends-Held}
use pftp.Session.Dispatch.Vouched.{LoginAlike, Vouched, Keeps, Held}
use pftp.Session.Dispatch.{unsuspend_after, suspended, pass_line}
use pftp.Session.{Session, Result, Handler, send_to_origin, or_fail, internal_error}
use pftp.Text.{Bytes}
use pftp.World.{Env}

-- a proxy that passes replies on, with this login
abbrev pub On : Bool × Bytes → Option Proxy → Type 0
On b none = true ≡ false
On b (some p) = (standing p ≡ b) × (p.pass_through ≡ true)

-- What a command leaves as it was.
pub record Goes (env : Env) (s : Session) (r : Outcome (Option Result) × Session) : Type 0 where
  pub on : (b : Bool × Bytes) → On b s.proxy → On b r.1.proxy
  pub vouched : Vouched env s → Vouched env r.1

module _ (env : Env) where
  -- the session of a suspended handler behind it
  abbrev lifted : Session → Session
  lifted s = (unsuspend_after (panic, s)).1

  lifted-proxy :
      (s : Session) {p : Proxy} → s.proxy ≡ some p → (lifted s).proxy ≡ some (unsuspend p)
  lifted-proxy s h = ground arith

  lifted-Keeps : (s : Session) → Keeps env s (lifted s)
  lifted-Keeps s = elim (Option-cases s.proxy) [
    | inl absent ↦ record {
      login = subst (λ o. LoginAlike o (lifted s).proxy) (sym absent) tt;
      vouched = λ v. v;
      line_same = refl;
    }
    | inr (p, there) ↦ record {
      login =
          subst (LoginAlike s.proxy) (sym (lifted-proxy s there))
            (subst (λ o. LoginAlike o (some (unsuspend p))) (sym there) (unfold unsuspend in refl));
      vouched = λ v. v;
      line_same = refl;
    }
  ]

  pass_line-none : (s : Session) → s.proxy ≡ none → (pass_line env s).1 ≡ s
  unfolding pass_line
  pass_line-none s h = ground arith

  pass_line-some :
      (s : Session) {p : Proxy}
      → s.proxy ≡ some p
      → pass_line env s
        ≡ or_fail env 500 (internal_error env) (λ _. none) (send_to_origin env s.line s)
  unfolding pass_line
  pass_line-some s h = ground arith

  pub pass_line-Ends : (s : Session) → Ends s (pass_line env s)
  pass_line-Ends s = elim (Option-cases s.proxy) [
    | inl absent ↦ record { sound = subst (Sound s) (sym (pass_line-none s absent)) (Sound-refl s) }
    | inr (p, there) ↦
        subst (Ends s) (sym (pass_line-some s there))
          (or_fail-Ends env 500 _ _ s _ (send-Sound env s.line s))
  ]

  off : true ≢ false
  off h = ground arith

  pub On-Alike : (b : Bool × Bytes) (o q : Option Proxy) → On b o → Alike o q → On b q
  On-Alike b none q h k = absurd (off h)
  On-Alike b (some p) none h k = absurd (off k.1)
  On-Alike b (some p) (some q) h k = (k.0 ∙ h.0, k.1 ∙ h.1)

  pub Ends-Goes : (s : Session) (r : Outcome (Option Result) × Session) → Ends s r → Goes env s r
  Ends-Goes s r h = record {
    on = λ b k. On-Alike b s.proxy r.1.proxy k h.sound.proxy_alike;
    vouched = (Ends-Held env s r h).keeps.vouched;
  }

  -- a suspended handler that keeps the login
  On-lifted :
      (b : Bool × Bytes) (s : Session) (p : Proxy)
      → standing p ≡ b
      → LoginAlike (some p) s.proxy
      → On b (lifted s).proxy
  unfolding unsuspend
  On-lifted b s p h k = elim (Option-cases s.proxy) [
    | inl absent ↦ absurd (off (subst (LoginAlike (some p)) absent k))
    | inr (q, there) ↦
        subst (On b) (sym (lifted-proxy s there)) (subst (LoginAlike (some p)) there k ∙ h, refl)
  ]

  suspended-none : (h : Handler) (s : Session) → s.proxy ≡ none → suspended env h s ≡ (panic, s)
  unfolding suspended
  suspended-none h s e = ground arith

  pub suspended-some :
      (h : Handler) (s : Session) {p : Proxy}
      → s.proxy ≡ some p
      → suspended env h s ≡ unsuspend_after (h (record s { proxy = some (suspend p) }))
  unfolding suspended
  suspended-some h s e = ground arith

  pub suspended-Goes :
      (h : Handler) (s : Session)
      → ((p : Proxy) → Held env (record s { proxy = some p }) (h (record s { proxy = some p })))
      → Goes env s (suspended env h s)
  suspended-Goes h s k = elim (Option-cases s.proxy) [
    | inl absent ↦
        subst (Goes env s) (sym (suspended-none h s absent))
          (record { on = λ b q. q; vouched = λ v. v })
    | inr (p, there) ↦
        let held = k (suspend p) in
        let s' = (h (record s { proxy = some (suspend p) })).1 in
        subst (Goes env s) (sym (suspended-some h s there)) (record {
          on = λ b q.
              On-lifted b s' (suspend p) (unfold suspend in (subst (On b) there q).0)
                held.keeps.login;
          vouched = λ v. (lifted-Keeps s').vouched (held.keeps.vouched v);
        })
  ]
