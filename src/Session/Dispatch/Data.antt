-- ===== src/Session/Dispatch/Data.antt =====
-- pftp/handle_commands.go: what handleDATA leaves as it was.
use pftp.Base.{
  not, Option, none, some, refl, sym, arith, Error, if_cases, Outcome, ret, panic, subst,
}
use pftp.Data.Announce.{parse_port_command, parse_eprt_command}
use pftp.Data.{DataHandler, Made, made, refused_with, broke, new_data_handler, close}
use pftp.Proxy.{Proxy, set_data_handler, destroy_data_handler, is_data_transfer_started}
use pftp.Session.DataCommands.{
  put_handler, close_and_fail, told, tell_origin, tell, engage, eprt_code, parsed, read_command,
  attach, open_channel, data_by, handle_data,
}
use pftp.Session.Dispatch.Sound.{
  Alike, Alike-trans, Sound, Sound-trans, Ends, stays, world-Sound, send-world, send-Sound,
  or_fail-Ends, with_proxy-Ends,
}
use pftp.Session.{Session, Result, send_to_origin}
use pftp.Text.{Bytes, codes, same}
use pftp.World.{Env, World}

-- another data handler makes no difference
Alike-connector :
    (o : Option Proxy) (p : Proxy) (d : Option DataHandler)
    → Alike o (some p)
    → Alike o (some (record p { data_connector = d }))
Alike-connector none p d h = cc
Alike-connector (some q) p d h = h

after-Ends :
    {s s' : Session} (r : Outcome (Option Result) × Session) → Sound s s' → Ends s' r → Ends s r
after-Ends r h k = record { sound = Sound-trans h k.sound }

proxy-Sound :
    (s : Session) (p : Proxy) (w : World)
    → Alike s.proxy (some p)
    → Sound s (record s { proxy = some p; world = w })
proxy-Sound s p w h = record {
  proxy_alike = h;
  tls_same = refl;
  line_same = refl;
  commands_same = refl;
}

module _ (env : Env) where
  close_and_fail-Ends :
      (code : _) (msg e : Bytes) (d : DataHandler) (p : Proxy) (s : Session)
      → Alike s.proxy (some p)
      → Ends s (close_and_fail env code msg e d p s)
  close_and_fail-Ends code msg e d p s h =
      let closed = close env d s.world in
      record {
        sound =
            proxy-Sound s (record p { data_connector = some closed.0 }) closed.2
              (Alike-connector s.proxy p (some closed.0) h);
      }

  told-Ends :
      (d : DataHandler) (p : Proxy) (r : Error × Session)
      → Alike r.1.proxy (some p)
      → Ends r.1 (told env d p r)
  told-Ends d p (none, s) h = stays s _
  told-Ends d p (some e, s) h = close_and_fail-Ends 500 _ e d p s h

  tell_origin-Ends :
      (msg : Bytes) (d : DataHandler) (p : Proxy) (s : Session)
      → Alike s.proxy (some p)
      → Ends s (tell_origin env msg d p s)
  tell_origin-Ends msg d p s h = after-Ends _ (send-Sound env msg s) (
      told-Ends d p (send_to_origin env msg s)
        (subst (λ (x : Session). Alike x.proxy (some p)) (sym (send-world env msg s)) h))

  tell-Ends :
      (m : Outcome Bytes) (d : DataHandler) (p : Proxy) (s : Session)
      → Alike s.proxy (some p)
      → Ends s (tell env m d p s)
  tell-Ends panic d p s h = stays s panic
  tell-Ends (ret msg) d p s h = tell_origin-Ends msg d p s h

  engage-Ends :
      (d : DataHandler) (p : Proxy) (s : Session)
      → Alike s.proxy (some p)
      → Ends s (engage env d p s)
  unfolding engage
  engage-Ends d p s h = if_cases (Ends s) d.closed (stays s _) (tell-Ends _ d p s h)

  parsed-Ends :
      (refusal : _) (m : Outcome (DataHandler × Error)) (d : DataHandler) (p : Proxy) (s : Session)
      → Alike s.proxy (some p)
      → Ends s (parsed env refusal m d p s)
  parsed-Ends refusal panic d p s h = stays s panic
  parsed-Ends refusal (ret (d', none)) d p s h =
      let put = Alike-connector s.proxy p (some d') h in
      after-Ends _ (proxy-Sound s (record p { data_connector = some d' }) s.world put)
        (engage-Ends d' p (put_handler env d' p s) (refl, refl))
  parsed-Ends refusal (ret (d', some e)) d p s h =
      let put = Alike-connector s.proxy p (some d') h in
      after-Ends _ (proxy-Sound s (record p { data_connector = some d' }) s.world put)
        (close_and_fail-Ends _ _ e d' p (put_handler env d' p s) (refl, refl))

  read_command-Ends :
      (d : DataHandler) (p : Proxy) (s : Session)
      → Alike s.proxy (some p)
      → Ends s (read_command env d p s)
  unfolding read_command
  read_command-Ends d p s h =
      if_cases (Ends s) (same s.command (codes "PORT"))
        (parsed-Ends _ (parse_port_command s.line d) d p s h)
        (if_cases (Ends s) (same s.command (codes "EPRT"))
          (parsed-Ends (eprt_code env) (parse_eprt_command s.line d) d p s h) (engage-Ends d p s h))

  set_data_handler-Alike :
      (d : DataHandler) (p : Proxy) (w : World)
      → Alike (some p) (some (set_data_handler env d p w).0)
  unfolding set_data_handler destroy_data_handler
  set_data_handler-Alike d p w = ground arith

  attach-Ends :
      (m : Made) (p : Proxy) (s : Session) → Alike s.proxy (some p) → Ends s (attach env m p s)
  unfolding attach
  attach-Ends (made d) p s h =
      let set = set_data_handler env d p s.world in
      after-Ends _
        (proxy-Sound s set.0 set.1
          (Alike-trans s.proxy (some p) (some set.0) h (set_data_handler-Alike d p s.world)))
        (read_command-Ends d set.0 (record s { proxy = some set.0; world = set.1 }) (refl, refl))
  attach-Ends (refused_with e) p s h = stays s _
  attach-Ends broke p s h = stays s panic

  open_channel-Ends :
      (p : Proxy) (s : Session) → Alike s.proxy (some p) → Ends s (open_channel env p s)
  unfolding open_channel
  open_channel-Ends p s h =
      let made_of = new_data_handler env s.config (some s.conn) p.origin s.command s.world in
      if_cases (Ends s) (is_data_transfer_started p s.world.in_data_transfer) (stays s _) (
        after-Ends _ (world-Sound s made_of.1)
          (attach-Ends made_of.0 p (record s { world = made_of.1 }) h))

  data_by-Ends : (p : Proxy) (s : Session) → Alike s.proxy (some p) → Ends s (data_by env p s)
  unfolding data_by
  data_by-Ends p s h = if_cases (Ends s) (not p.is_loggedin) (stays s _) (
      if_cases (Ends s) s.config.data_chan_proxy (open_channel-Ends p s h)
        (or_fail-Ends env 530 _ _ s _ (send-Sound env s.line s)))

  pub handle_data-Ends : (s : Session) → Ends s (handle_data env s)
  unfolding handle_data
  handle_data-Ends s =
      with_proxy-Ends env (data_by env) s
        λ p there. data_by-Ends p s (subst (λ o. Alike o (some p)) (sym there) (refl, refl))
