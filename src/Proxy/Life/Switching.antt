-- ===== src/Proxy/Life/Switching.antt =====
-- pftp/proxy.go: what switchOrigin leaves behind.
use pftp.Base.{
  Bool, true, false, List, [], ◌∷◌, none, some, ◌≡◌, refl, ◌∙◌, arith, Error, Outcome, ret, panic,
  if_cases, ◌==◌, length,
}
use pftp.Config.{Config}
use pftp.Proxy.Life.{
  Switched, finish, headed, stop_relay, set_up, introduce, reconnect, signal, switch_origin,
}
use pftp.Proxy.Switch.Secure.{Kept, any_auth, send_tls_command-Kept}
use pftp.Proxy.Switch.{Link, Step, go_on, fail, crash, send_tls_command, send_proxy_header}
use pftp.Proxy.{Proxy, standing}
use pftp.Text.{Bytes}
use pftp.Tls.{TlsDataSet}
use pftp.World.{conn_at, Conn, Env, World, Dialled, dialled, unreachable, tick, connected}

module _ (env : Env) (config : Config) (tls : TlsDataSet) (commands : List Bytes) where
  -- Where there is no error, there is a connection, in TLS where a command asks for it.
  abbrev pub Wrapped : Switched → Type 0
  Wrapped (ret none, p, w) =
      (c : Conn) × (p.origin ≡ some c) × (any_auth env commands ≡ true → c.in_tls ≡ true)
  Wrapped (ret (some e), p, w) = Unit
  Wrapped (panic, p, w) = Unit

  finish-Wrapped :
      (p : Proxy) (l : Link) (s : Step) (w : World)
      → Kept (any_auth env commands) none l s
      → Wrapped (finish p (s, w))
  finish-Wrapped p l (go_on none l') w h = (l'.conn, refl, λ q. ground arith)
  finish-Wrapped p l (go_on (some e) l') w h = tt
  finish-Wrapped p l (fail e l') w h = tt
  finish-Wrapped p l crash w h = tt

  set_up-Wrapped :
      (c : Conn) (lines : List Bytes) (p : Proxy) (w : World)
      → Wrapped (set_up env config tls commands c lines p w)
  unfolding set_up
  set_up-Wrapped c [] p w = tt
  set_up-Wrapped c (_ ∷ more) p w =
      let l : Link = record { conn = c; lines = more } in
      finish-Wrapped p l _ (send_tls_command env config tls commands none l w).1
        (send_tls_command-Kept env config tls commands none l w)

  headed-Wrapped :
      (next : World → Switched) (p : Proxy) (e : Error) (w : World)
      → ((w' : World) → Wrapped (next w'))
      → Wrapped (headed next p (e, w))
  headed-Wrapped next p none w h = h w
  headed-Wrapped next p (some e) w h = tt

  module _ (client_addr origin_addr : Bytes) where
    introduce-Wrapped :
        (c : Conn) (lines : List Bytes) (p : Proxy) (w : World)
        → Wrapped (introduce env config tls client_addr origin_addr commands c lines p w)
    unfolding introduce
    introduce-Wrapped c lines p w =
        if_cases Wrapped config.proxy_protocol
          (headed-Wrapped _ p _ (send_proxy_header env client_addr origin_addr w).1
            (set_up-Wrapped c lines p))
          (set_up-Wrapped c lines p w)

    reconnect-Wrapped :
        (p : Proxy) (w : World) (d : Dialled)
        → Wrapped (reconnect env config tls client_addr origin_addr commands p w d)
    unfolding reconnect
    reconnect-Wrapped p w (unreachable e) = tt
    reconnect-Wrapped p w (dialled local remote lines) =
        let c = conn_at w.clock local remote in
        introduce-Wrapped c lines (record p { origin = some c }) (tick (connected w.clock) w)

    signal-Wrapped :
        (b : Bool) (r : Outcome Error) (p : Proxy) (w : World)
        → Wrapped (r, p, w)
        → Wrapped (signal b (r, p, w))
    signal-Wrapped b (ret none) p w h = h
    signal-Wrapped b (ret (some e)) p w h = tt
    signal-Wrapped b panic p w h = tt

    -- After a switch of the origin without an error there is a connection to the new origin, and it is
    -- in TLS where one of the commands that the client sent before its login is AUTH.
    pub switch_origin-Wrapped :
        (p : Proxy) (w : World)
        → Wrapped (switch_origin env config tls client_addr origin_addr commands p w)
    unfolding switch_origin
    switch_origin-Wrapped p w =
        let stopped = stop_relay env (record p { pass_through = false }) w in
        if_cases Wrapped (length origin_addr == 0) tt (
          if_cases Wrapped p.is_loggedin tt (
            signal-Wrapped p.pass_through _ _ _
              (reconnect-Wrapped stopped.0 stopped.1 (env.dial stopped.1.clock origin_addr))))

-- what only a reply changes is this
abbrev pub Steady : Bool × Bytes → Switched → Type 0
Steady b s = standing s.1 ≡ b

module _ (env : Env) (config : Config) (tls : TlsDataSet) (client_addr origin_addr : Bytes)
    (commands : List Bytes) where
  stop_relay-standing : (p : Proxy) (w : World) → standing (stop_relay env p w).0 ≡ standing p
  unfolding stop_relay pftp.Proxy.Life.close_proxy pftp.Proxy.destroy_data_handler
  stop_relay-standing p w = ground arith

  finish-Steady : (p : Proxy) (s : Step × World) → Steady (standing p) (finish p s)
  finish-Steady p (go_on e l, w) = refl
  finish-Steady p (fail e l, w) = refl
  finish-Steady p (crash, w) = refl

  set_up-Steady :
      (c : Conn) (lines : List Bytes) (p : Proxy) (w : World)
      → Steady (standing p) (set_up env config tls commands c lines p w)
  unfolding set_up
  set_up-Steady c [] p w = refl
  set_up-Steady c (_ ∷ more) p w = finish-Steady p _

  headed-Steady :
      (next : World → Switched) (p : Proxy) (e : Error) (w : World)
      → ((w' : World) → Steady (standing p) (next w'))
      → Steady (standing p) (headed next p (e, w))
  headed-Steady next p none w h = h w
  headed-Steady next p (some e) w h = refl

  reconnect-Steady :
      (p : Proxy) (w : World) (d : Dialled)
      → Steady (standing p) (reconnect env config tls client_addr origin_addr commands p w d)
  unfolding reconnect introduce
  reconnect-Steady p w (unreachable e) = refl
  reconnect-Steady p w (dialled local remote lines) =
      let c = conn_at w.clock local remote in
      let q : Proxy = record p { origin = some c } in
      let now = tick (connected w.clock) w in
      if_cases (Steady (standing p)) config.proxy_protocol
        (headed-Steady _ q _ (send_proxy_header env client_addr origin_addr now).1
          (set_up-Steady c lines q))
        (set_up-Steady c lines q now)

  -- A switch of the origin changes neither the login and the welcome message nor whether the proxy passes replies on.
  pub switch_origin-Steady :
      (p : Proxy) (w : World)
      → let q = (switch_origin env config tls client_addr origin_addr commands p w).1 in
        (standing q ≡ standing p) × (q.pass_through ≡ p.pass_through)
  unfolding switch_origin
  switch_origin-Steady p w =
      let stopped = stop_relay env (record p { pass_through = false }) w in
      let same_login =
        reconnect-Steady stopped.0 stopped.1 (env.dial stopped.1.clock origin_addr)
        ∙ stop_relay-standing (record p { pass_through = false }) w in
      let P = λ (s : Switched). (standing s.1 ≡ standing p) × (s.1.pass_through ≡ p.pass_through) in
      if_cases P (length origin_addr == 0) (refl, refl)
        (if_cases P p.is_loggedin (refl, refl) (same_login, refl))
