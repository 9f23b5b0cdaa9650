-- ===== src/Data/Transfer/Ends.antt =====
-- pftp/data_handler.go: what a transfer leaves behind (StartDataTransfer).
use pftp.Base.{false, [], Option, none, some, ◌≡◌, if_cases, Error, Outcome, ret, panic}
use pftp.Data.Transfer.{
  Connected, Part, put_client, put_origin, no_client, no_origin, after_accept, after_dial, report,
  accept_client, dial_client, connect_client, as_part, accept_origin, connect_origin, after_shake,
  shake_on, with_tls_config,
}
use pftp.Data.{DataHandler, client_dial_addr, origin_dial_addr}
use pftp.Net.{join_host_port}
use pftp.Text.{Bytes, codes}
use pftp.Tls.{TlsConfig}
use pftp.World.{
  Conn, Listener, Accepted, incoming, none_came, Dialled, dialled, unreachable, Handshake, agreed,
  failed, Env, World,
}

-- the part leaves an open handler open
abbrev pub Open : Part → Type 0
Open (r, d, w) = d.closed ≡ false

abbrev pub Linked : Connected × DataHandler × World → Type 0
Linked (c, d, w) = d.closed ≡ false

module _ (env : Env) where
  report-Linked : (r : Error × DataHandler × World) → r.1.closed ≡ false → Linked (report env r)
  report-Linked (e, d, w) h = h

  after_accept-closed :
      (put : Conn → DataHandler) (d : DataHandler) (l : Listener) (w : World) (a : Accepted)
      → ((c : Conn) → (put c).closed ≡ false)
      → d.closed ≡ false
      → (after_accept env put d l w a).1.closed ≡ false
  after_accept-closed put d l w (incoming local remote) k h = k _
  after_accept-closed put d l w (none_came e) k h = h

  after_dial-closed :
      (put : Conn → DataHandler) (what : Bytes) (d : DataHandler) (w : World) (a : Dialled)
      → ((c : Conn) → (put c).closed ≡ false)
      → d.closed ≡ false
      → (after_dial env put what d w a).1.closed ≡ false
  after_dial-closed put what d w (dialled local remote lines) k h = k _
  after_dial-closed put what d w (unreachable e) k h = h

  accept_client-Linked :
      (l : Option Listener) (d : DataHandler) (w : World)
      → d.closed ≡ false
      → Linked (accept_client env l d w)
  accept_client-Linked none d w h = h
  accept_client-Linked (some l) d w h =
      report-Linked (after_accept env (put_client d) d l w (env.accept w.clock))
        (after_accept-closed (put_client d) d l w (env.accept w.clock) (λ c. h) h)

  dial_client-Linked :
      (d : DataHandler) (w : World) (e : Error) → d.closed ≡ false → Linked (dial_client env d w e)
  dial_client-Linked d w (some e) h = h
  dial_client-Linked d w none h =
      report-Linked (after_dial env (put_client d) no_client d _ (env.dial _ (client_dial_addr d)))
        (after_dial-closed (put_client d) no_client d _ (env.dial _ (client_dial_addr d)) (λ c. h)
          h)

  pub connect_client-Linked :
      (d : DataHandler) (w : World) → d.closed ≡ false → Linked (connect_client env d w)
  unfolding connect_client
  connect_client-Linked d w h =
      if_cases Linked d.client_conn.needs_listen
        (if_cases Linked d.closed h (accept_client-Linked d.client_conn.listener d w h))
        (dial_client-Linked d w (env.resolve w.clock (join_host_port [] (codes "20"))) h)

  as_part-Open : (r : Error × DataHandler × World) → r.1.closed ≡ false → Open (as_part env r)
  as_part-Open (e, d, w) h = h

  accept_origin-Open :
      (l : Option Listener) (d : DataHandler) (w : World)
      → d.closed ≡ false
      → Open (accept_origin env l d w)
  accept_origin-Open none d w h = h
  accept_origin-Open (some l) d w h =
      as_part-Open (after_accept env (put_origin d) d l w (env.accept w.clock))
        (after_accept-closed (put_origin d) d l w (env.accept w.clock) (λ c. h) h)

  pub connect_origin-Open :
      (d : DataHandler) (w : World) → d.closed ≡ false → Open (connect_origin env d w)
  unfolding connect_origin
  connect_origin-Open d w h =
      if_cases Open d.origin_conn.needs_listen
        (if_cases Open d.closed h (accept_origin-Open d.origin_conn.listener d w h))
        (as_part-Open
          (after_dial env (put_origin d) no_origin d w (env.dial w.clock (origin_dial_addr d)))
          (after_dial-closed (put_origin d) no_origin d w (env.dial w.clock (origin_dial_addr d))
            (λ c. h) h))

  after_shake-Open :
      (put : Conn → DataHandler) (c : Conn) (what : Bytes) (d : DataHandler) (w : World)
      (r : Handshake)
      → ((c : Conn) → (put c).closed ≡ false)
      → d.closed ≡ false
      → Open (after_shake env put c what d w r)
  after_shake-Open put c what d w (agreed _ _ _) k h = k _
  after_shake-Open put c what d w (failed e) k h = h

  shake_on-Open :
      (c : Option Conn) (put : Conn → DataHandler) (what : Bytes) (d : DataHandler) (w : World)
      → ((c : Conn) → (put c).closed ≡ false)
      → d.closed ≡ false
      → Open (shake_on env c put what d w)
  shake_on-Open none put what d w k h = h
  shake_on-Open (some c) put what d w k h = after_shake-Open put c what d w (env.shake w.clock) k h

  pub with_tls_config-Open :
      (m : Outcome (Option TlsConfig)) (c : Option Conn) (put : Conn → DataHandler)
      (missing what : Bytes) (d : DataHandler) (w : World)
      → ((c : Conn) → (put c).closed ≡ false)
      → d.closed ≡ false
      → Open (with_tls_config env m c put missing what d w)
  with_tls_config-Open panic c put missing what d w k h = h
  with_tls_config-Open (ret none) c put missing what d w k h = h
  with_tls_config-Open (ret (some _)) c put missing what d w k h =
      if_cases Open d.closed h (shake_on-Open c put what d w k h)
