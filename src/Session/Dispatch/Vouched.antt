-- ===== src/Session/Dispatch/Vouched.antt =====
-- pftp/client_handler.go: a client in TLS, and the AUTH command that its next origin will get.
use pftp.Base.{
  true, false, ◌||◌, List, [], ◌∷◌, ◌++◌, Option, none, some, ◌≡◌, refl, sym, ◌∙◌, ap, arith,
  Outcome,
}
use pftp.Proxy.Switch.Secure.{any_auth}
use pftp.Proxy.{Proxy, standing}
use pftp.Session.Dispatch.Sound.{Alike, Sound}
use pftp.Session.{Session, Result}
use pftp.Text.{Bytes}
use pftp.World.{Env}

-- the login of a proxy is as it was
abbrev pub LoginAlike : Option Proxy → Option Proxy → Type 0
LoginAlike none q = Unit
LoginAlike (some p) none = true ≡ false
LoginAlike (some p) (some q) = standing q ≡ standing p

pub LoginAlike-refl : (o : Option Proxy) → LoginAlike o o
LoginAlike-refl none = tt
LoginAlike-refl (some p) = refl

pub LoginAlike-trans : (a b c : Option Proxy) → LoginAlike a b → LoginAlike b c → LoginAlike a c
LoginAlike-trans none b c h k = tt
LoginAlike-trans (some p) none c h k = cc
LoginAlike-trans (some p) (some q) none h k = cc
LoginAlike-trans (some p) (some q) (some r) h k = k ∙ h

Alike-login : (a b : Option Proxy) → Alike a b → LoginAlike a b
Alike-login none b h = tt
Alike-login (some p) none h = h.1
Alike-login (some p) (some q) h = h.0

pub any_auth-append :
    (env : Env) (xs ys : List Bytes)
    → any_auth env (xs ++ ys) ≡ (any_auth env xs || any_auth env ys)
any_auth-append env [] ys = refl
any_auth-append env (x ∷ xs) ys = ground (arith, any_auth-append env xs ys)

-- A client whose control connection is in TLS has sent an AUTH command, which is kept for the origin.
abbrev pub Vouched : Env → Session → Type 0
Vouched env s = s.control_in_tls ≡ true → any_auth env s.previous_tls_commands ≡ true

-- What every handler keeps.
pub record Keeps (env : Env) (s s' : Session) : Type 0 where
  pub login : LoginAlike s.proxy s'.proxy
  pub vouched : Vouched env s → Vouched env s'
  pub line_same : s'.line ≡ s.line

pub record Held (env : Env) (s : Session) (r : Outcome (Option Result) × Session) : Type 0 where
  pub keeps : Keeps env s r.1

module _ (env : Env) where
  pub Keeps-refl : (s : Session) → Keeps env s s
  Keeps-refl s = record { login = LoginAlike-refl s.proxy; vouched = λ h. h; line_same = refl }

  pub Keeps-trans : {a b c : Session} → Keeps env a b → Keeps env b c → Keeps env a c
  Keeps-trans {a} {b} {c} h k = record {
    login = LoginAlike-trans a.proxy b.proxy c.proxy h.login k.login;
    vouched = λ v. k.vouched (h.vouched v);
    line_same = k.line_same ∙ h.line_same;
  }

  pub after-Held :
      {s s' : Session} (r : Outcome (Option Result) × Session)
      → Keeps env s s'
      → Held env s' r
      → Held env s r
  after-Held r h k = record { keeps = Keeps-trans h k.keeps }

  pub ends-Held : (s : Session) (r : Outcome (Option Result)) → Held env s (r, s)
  ends-Held s r = record { keeps = Keeps-refl s }

  pub Sound-Keeps : {s s' : Session} → Sound s s' → Keeps env s s'
  Sound-Keeps {s} {s'} h = record {
    login = Alike-login s.proxy s'.proxy h.proxy_alike;
    vouched = λ v q. ap (any_auth env) h.commands_same ∙ v (sym h.tls_same ∙ q);
    line_same = h.line_same;
  }
