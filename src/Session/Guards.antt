-- ===== src/Session/Guards.antt =====
-- pftp/handle_commands.go: the conditions under which a session may move data.
use pftp.Base.{
  ℕ, suc, ◌+◌, ap, ◌∙◌, List, [], ◌∷◌, true, false, Option, none, some, ◌≡◌, arith, Outcome, ret,
}
use pftp.Proxy.{Proxy, is_data_handler_available, is_data_transfer_started}
use pftp.Session.{Session, Result, handle_transfer, send_to_origin, write, direction}
use pftp.Session.DataCommands.{handle_data}
use pftp.Text.{Bytes, codes}
use pftp.World.{Env, Event, transfer}

abbrev pub login_first : Outcome (Option Result)
login_first =
    ret (some (record { code = 530; msg = codes "Please login with USER and PASS"; err = none }))

-- how many transfers have been started
abbrev pub starts : List Event → ℕ
starts [] = 0
starts (transfer _ ∷ es) = suc (starts es)
starts (_ ∷ es) = starts es

module _ (env : Env) where
  -- Before the login the data commands and the transfer commands answer 530 and change nothing:
  -- no listener is opened, no transfer starts and the origin gets no line.
  pub handle_transfer-login :
      (s : Session) (p : Proxy)
      → s.proxy ≡ some p
      → p.is_loggedin ≡ false
      → (handle_transfer env s ≡ (login_first, s)) × (handle_data env s ≡ (login_first, s))
  unfolding handle_transfer handle_data
  handle_transfer-login s p hp hl = ground arith

  -- a transfer command that starts one, before the flag is set
  handle_transfer-once :
      (s : Session) (p : Proxy) (t : Bytes)
      → s.proxy ≡ some p
      → p.is_loggedin ≡ true
      → is_data_handler_available p ≡ true
      → s.world.in_data_transfer ≡ false
      → direction env s.command ≡ some t
      → let s' = (handle_transfer env s).1 in
        (starts s'.world.events ≡ suc (starts s.world.events))
        × (s'.proxy ≡ some p)
        × (s'.world.in_data_transfer ≡ false)
        × (s'.command ≡ s.command)
  unfolding handle_transfer send_to_origin write is_data_transfer_started
  handle_transfer-once s p t hp hl ha hf hd = ground arith

  -- Behind a login, with an open data handler and before any line 150: a transfer command and a second
  -- one behind it each start a transfer, on the same proxy and so on the same data handler.
  pub handle_transfer-twice :
      (s : Session) (p : Proxy) (t : Bytes)
      → s.proxy ≡ some p
      → p.is_loggedin ≡ true
      → is_data_handler_available p ≡ true
      → s.world.in_data_transfer ≡ false
      → direction env s.command ≡ some t
      → let s' = (handle_transfer env (handle_transfer env s).1).1 in
        (starts s'.world.events ≡ 2 + starts s.world.events) × (s'.proxy ≡ some p)
  handle_transfer-twice s p t hp hl ha hf hd =
      let (first, there, still, named) = handle_transfer-once s p t hp hl ha hf hd in
      let (second, behind, _, _) =
        handle_transfer-once (handle_transfer env s).1 p t there hl ha still
          (ap (direction env) named ∙ hd) in
      (omega (arith, first, second), behind)
