-- ===== src/Proxy/Switch/Secure.antt =====
-- pftp/proxy.go: TLS toward the new origin (sendTLSCommand).
use pftp.Base.{
  Bool, true, false, ◌||◌, List, [], ◌∷◌, none, some, ◌≡◌, refl, arith, Error, Bool-cases, inl, inr,
}
use pftp.Config.{Config}
use pftp.Proxy.Switch.{
  AuthReply, accepted, declined, cut_off, auth_reply, Link, Step, go_on, fail, crash, is_auth, wrap,
  after_auth, after_other, send_one, unless_lost, then_step, send_tls_command,
}
use pftp.Text.{Bytes}
use pftp.Tls.{TlsDataSet}
use pftp.World.{to_origin, Env, World, tick}

-- After a step without an error there was none before, and the connection is in TLS where it was
-- before or where the step has to make it so.
abbrev pub Kept : Bool → Error → Link → Step → Type 0
Kept asked last l (go_on none l') =
    (last ≡ none) × ((l.conn.in_tls || asked) ≡ true → l'.conn.in_tls ≡ true)
Kept asked last l _ = Unit

-- whether a command of the list is AUTH
abbrev pub any_auth : Env → List Bytes → Bool
any_auth env [] = false
any_auth env (cmd ∷ cmds) = is_auth env cmd || any_auth env cmds

module _ (env : Env) (config : Config) (tls : TlsDataSet) where
  wrap-Kept : (last : Error) (l : Link) (w : World) → Kept true last l (wrap env tls last l w).0
  unfolding wrap
  wrap-Kept last l w = ground arith

  after_auth-Kept :
      (last : Error) (l : Link) (w : World) (r : AuthReply)
      → Kept true last l (after_auth env tls last l w r).0
  unfolding after_auth
  after_auth-Kept last l w cut_off = tt
  after_auth-Kept last l w (declined code more) = tt
  after_auth-Kept last l w (accepted more) = wrap-Kept last (record l { lines = more }) w

  after_other-Kept :
      (last : Error) (l : Link) (w : World) (lines : List Bytes)
      → Kept false last l (after_other env last l w lines).0
  unfolding after_other
  after_other-Kept last l w [] = tt
  after_other-Kept none l w (_ ∷ more) = (refl, λ h. ground arith)
  after_other-Kept (some e) l w (_ ∷ more) = tt

  unless_lost-Kept :
      (asked : Bool) (e last : Error) (l : Link) (w : World) (rest : Step × World)
      → Kept asked last l rest.0
      → Kept asked last l (unless_lost e l w rest).0
  unless_lost-Kept asked none last l w rest h = h
  unless_lost-Kept asked (some e) last l w rest h = tt

  send_one-Kept :
      (cmd : Bytes) (last : Error) (l : Link) (w : World)
      → Kept (is_auth env cmd) last l (send_one env config tls cmd last l w).0
  unfolding send_one
  send_one-Kept cmd last l w =
      let sent = tick (to_origin cmd) w in
      unless_lost-Kept (is_auth env cmd) (env.write w.clock) last l w _
        (elim (Bool-cases (is_auth env cmd)) [
          | inl asked ↦ rw asked (after_auth-Kept last l sent (auth_reply config l.lines))
          | inr unasked ↦ rw unasked (after_other-Kept last l sent l.lines)
        ])

  Kept-trans :
      (a b : Bool) (last e : Error) (l l' : Link) (s : Step)
      → Kept a last l (go_on e l')
      → Kept b e l' s
      → Kept (a || b) last l s
  Kept-trans a b last none l l' (go_on none l'') h k = (h.0, λ q. ground arith)
  Kept-trans a b last none l l' (go_on (some _) l'') h k = tt
  Kept-trans a b last none l l' (fail _ _) h k = tt
  Kept-trans a b last none l l' crash h k = tt
  Kept-trans a b last (some e) l l' (go_on none l'') h k = absurd (ground arith)
  Kept-trans a b last (some e) l l' (go_on (some _) l'') h k = tt
  Kept-trans a b last (some e) l l' (fail _ _) h k = tt
  Kept-trans a b last (some e) l l' crash h k = tt

  then_step-Kept :
      (a b : Bool) (last : Error) (l : Link) (s : Step × World)
      (next : Error → Link → World → Step × World)
      → Kept a last l s.0
      → ((e : Error) (l' : Link) (w : World) → Kept b e l' (next e l' w).0)
      → Kept (a || b) last l (then_step s next).0
  then_step-Kept a b last l (go_on e l', w) next h k =
      Kept-trans a b last e l l' (next e l' w).0 h (k e l' w)
  then_step-Kept a b last l (fail e l', w) next h k = tt
  then_step-Kept a b last l (crash, w) next h k = tt

  -- The commands are all sent without an error only to an origin that is in TLS behind them, where it
  -- was before or one of them is AUTH.
  pub send_tls_command-Kept :
      (cmds : List Bytes) (last : Error) (l : Link) (w : World)
      → Kept (any_auth env cmds) last l (send_tls_command env config tls cmds last l w).0
  unfolding send_tls_command
  send_tls_command-Kept [] none l w = (refl, λ h. ground arith)
  send_tls_command-Kept [] (some e) l w = tt
  send_tls_command-Kept (cmd ∷ cmds) last l w =
      then_step-Kept (is_auth env cmd) (any_auth env cmds) last l
        (send_one env config tls cmd last l w) (send_tls_command env config tls cmds)
        (send_one-Kept cmd last l w) (send_tls_command-Kept cmds)
