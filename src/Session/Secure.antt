-- ===== src/Session/Secure.antt =====
-- pftp/handle_commands.go: AUTH, PBSZ and PROT.
pub mod Laws
use pftp.Base.{
  ℕ, ◌+◌, Bool, true, false, not, List, [], ◌∷◌, ◌++◌, Option, none, some, if◌then◌else◌, Error,
  Outcome, ret, panic, ◌>>=◌,
}
use pftp.Proxy.{Proxy, unsuspend}
use pftp.Session.{
  Session, Result, Handler, fails, succeeds, response, send_to_origin, or_fail, with_proxy,
}
use pftp.Text.{Bytes, codes, same}
use pftp.Tls.{
  TlsData, TlsConfig, TlsDataSet, get_tls_config, set_server_name, set_specific_tls_version,
  set_cipher_suite,
}
use pftp.World.{Env, World, tick, handshake, Handshake, agreed, failed}

module _ (env : Env) where
  -- what follows a response; a failed write ends the handler
  abbrev pub responded : Handler → Error × Session → Outcome (Option Result) × Session
  responded next (none, s) = next s
  responded next (some e, s) = fails 550 (codes "Client Response Error") (some e) s

  abbrev pub after_response : Result → Handler → Handler
  after_response r next s = responded next (response env r s)

  abbrev pub adopted : Session → Outcome (Option TlsData) → Outcome (Option Result) × Session
  adopted s panic = (panic, s)
  adopted s (ret t) = succeeds (record s { tls = record (s.tls) { for_origin = t } })

  -- the session behind a finished handshake; the setters panic on a nil pointer
  unfoldable pub adopt_tls : Bytes → ℕ → ℕ → Session → Outcome (Option Result) × Session
  unfolding set_server_name set_specific_tls_version set_cipher_suite
  adopt_tls name version suite s =
      adopted
        (record s {
          conn = record (s.conn) { in_tls = true };
          previous_tls_commands = s.previous_tls_commands ++ s.line ∷ [];
          control_in_tls = true;
          tls = record (s.tls) { server_name = name; version = version; cipher_suite = suite };
        })
        (set_server_name name s.tls.for_origin >>= λ a.
          set_specific_tls_version version a >>= λ b. set_cipher_suite suite b)

  abbrev pub shaken : Handshake → Handler
  shaken (failed e) s = fails 550 (codes "TLS Handshake Error") (some e) s
  shaken (agreed name version suite) s = adopt_tls name version suite s

  -- `tls.Server(…).Handshake()` and what follows it
  unfoldable pub shake_hands : Handler
  unfolding adopt_tls
  shake_hands s = shaken (env.shake s.world.clock) (record s { world = tick handshake s.world })

  abbrev pub auth_with : Outcome (Option TlsConfig) → Handler
  auth_with panic s = (panic, s)
  auth_with (ret none) s = fails 550 (codes "Cannot get a TLS config") none s
  auth_with (ret (some _)) s =
      after_response
        (record {
          code = 234;
          msg = codes "AUTH command ok. Expecting " ++ (s.param ++ codes " Negotiation.");
          err = none;
        })
        shake_hands s

  -- `handleAUTH`
  unfoldable pub handle_auth : Handler
  unfolding get_tls_config shake_hands response
  handle_auth s = auth_with (get_tls_config s.tls.for_client) s

  -- the line is kept for a later origin
  abbrev pub remember : Handler
  remember s =
      succeeds (record s { previous_tls_commands = s.previous_tls_commands ++ s.line ∷ [] })

  -- `c.proxy.unsuspend()` and then `sendToOrigin(c.line)`
  unfoldable pub forward : Bytes → Proxy → Handler
  unfolding send_to_origin unsuspend
  forward what p s =
      or_fail env 530 (λ _. codes "I can't deal with you (proxy error for " ++ (what ++ codes ")"))
        (λ e. some e) (send_to_origin env s.line (record s { proxy = some (unsuspend p) }))

  abbrev pub needs_tls : Handler → Handler
  needs_tls h s =
      if s.control_in_tls then h s else fails 503 (codes "Not using TLS connection") none s

  -- `handlePBSZ` behind the test for TLS
  unfoldable pub pbsz_by : Proxy → Handler
  unfolding forward response
  pbsz_by p s =
      if not p.is_loggedin
      then after_response
          (record {
            code = 200;
            msg = codes "PBSZ " ++ (s.param ++ codes " successful");
            err = none;
          })
          remember s
      else forward (codes "pbsz") p s

  -- `handlePBSZ`
  unfoldable pub handle_pbsz : Handler
  unfolding pbsz_by
  handle_pbsz = needs_tls (with_proxy env pbsz_by)

  abbrev pub prot_result : Bytes → Result
  prot_result param =
      if same param (codes "C")
      then record { code = 200; msg = codes "Protection Set to Clear"; err = none }
      else if same param (codes "P")
      then record { code = 200; msg = codes "Protection Set to Private."; err = none }
      else record { code = 534; msg = codes "Only C or P Level supported."; err = none }

  -- the end of `handlePROT`, where nothing failed before
  abbrev pub set_protection : Outcome (Option Result) × Session → Outcome (Option Result) × Session
  set_protection (ret none, s) = (ret none, record s { transfer_in_tls = same s.param (codes "P") })
  set_protection r = r

  -- `handlePROT` behind the test for TLS
  unfoldable pub prot_by : Proxy → Handler
  unfolding forward response same
  prot_by p s = set_protection (
      if not p.is_loggedin
      then after_response (prot_result s.param) remember s
      else forward (codes "prot") p s)

  -- `handlePROT`
  unfoldable pub handle_prot : Handler
  unfolding prot_by
  handle_prot = needs_tls (with_proxy env prot_by)
