-- ===== src/Data/Transfer/Leak.antt =====
-- pftp/data_handler.go: an origin that is dialled after the handler is closed (originListenOrDial).
use pftp.Base.{
  Bool, true, false, List, Option, none, some, ◌≡◌, refl, sym, ◌∙◌, ap, subst, arith, if_cases,
  if◌then◌else◌, Error, Outcome, ret, panic,
}
use pftp.Data.Close.{close-IsClosed, close_of_closed, close_of_open}
use pftp.Data.Copy.{Round}
use pftp.Data.Transfer.{
  reported, Part, client_first, Transfer, put_origin, no_origin, after_dial, connect_client,
  as_part, connect_origin, after_shake, shake_on, with_tls_config, secure_client, secure_origin,
  then_secure, or_close, after_parts, second_part, origin_part, after_connect, start_data_transfer,
}
use pftp.Data.{Connector, DataHandler, close, close_open, origin_dial_addr}
use pftp.Net.{join_host_port}
use pftp.Text.{Bytes}
use pftp.Tls.{TlsConfig, TlsDataSet, get_tls_config}
use pftp.World.{conn_at, tick, connected, Conn, dialled, Handshake, agreed, failed, Env, World}

-- a closed handler with a connection to the origin
abbrev Left : DataHandler → Type 0
Left d = (d.closed ≡ true) × (c : Conn) × (d.origin_conn.data_conn ≡ some c)

abbrev LeftPart : Part → Type 0
LeftPart (r, d, w) = Left d

abbrev LeftEnd : Transfer × DataHandler × World → Type 0
LeftEnd (t, d, w) = Left d

module _ (env : Env) (needs_tls : Bool) (tls : TlsDataSet) where
  close-Left : (d : DataHandler) (w : World) → Left d → Left (close env d w).0
  close-Left d w h =
      subst (λ (r : DataHandler × Error × World). Left r.0) (sym (close_of_closed env d w h.0)) h

  after_shake-Left :
      (c : Conn) (what : Bytes) (d : DataHandler) (w : World) (r : Handshake)
      → Left d
      → LeftPart (after_shake env (put_origin d) c what d w r)
  after_shake-Left c what d w (agreed _ _ _) h = (h.0, _, refl)
  after_shake-Left c what d w (failed e) h = h

  shake_on-Left :
      (c : Option Conn) (what : Bytes) (d : DataHandler) (w : World)
      → Left d
      → LeftPart (shake_on env c (put_origin d) what d w)
  shake_on-Left none what d w h = h
  shake_on-Left (some c) what d w h = after_shake-Left c what d w (env.shake w.clock) h

  with_tls_config-Left :
      (m : Outcome (Option TlsConfig)) (c : Option Conn) (missing what : Bytes) (d : DataHandler)
      (w : World)
      → Left d
      → LeftPart (with_tls_config env m c (put_origin d) missing what d w)
  with_tls_config-Left panic c missing what d w h = h
  with_tls_config-Left (ret none) c missing what d w h = h
  with_tls_config-Left (ret (some _)) c missing what d w h =
      if_cases LeftPart d.closed h (shake_on-Left c what d w h)

  secure_origin-Left :
      (d : DataHandler) (w : World) → Left d → LeftPart (secure_origin env needs_tls tls d w)
  unfolding secure_origin
  secure_origin-Left d w h =
      if_cases LeftPart needs_tls
        (with_tls_config-Left (get_tls_config tls.for_origin) d.origin_conn.data_conn _ _ d w h) h

  or_close-Left : (r : Part) → LeftPart r → LeftPart (or_close env needs_tls tls r)
  or_close-Left (ret none, d, w) h = h
  or_close-Left (ret (some e), d, w) h = close-Left d w h
  or_close-Left (panic, d, w) h = h

  after_parts-Left :
      (down up : List Round) (e : Bytes) (r : Part)
      → LeftPart r
      → LeftEnd (after_parts env needs_tls tls down up (some e) r)
  after_parts-Left down up e (ret x, d, w) h = close-Left d w h
  after_parts-Left down up e (panic, d, w) h = h

  if_false : {A : Type 0} (b : Bool) (x y : A) → b ≡ false → (if b then x else y) ≡ y
  if_false true x y h = absurd (ground arith)
  if_false false x y h = refl

  dials_origin :
      (local remote : Bytes) (lines : List Bytes) (d : DataHandler) (w : World)
      → d.origin_conn.needs_listen ≡ false
      → env.dial w.clock (origin_dial_addr d) ≡ dialled local remote lines
      → connect_origin env d w
        ≡ (ret none, put_origin d (conn_at w.clock local remote), tick (connected w.clock) w)
  unfolding connect_origin
  dials_origin local remote lines d w k e =
      if_false d.origin_conn.needs_listen _ _ k
      ∙ ap (λ a. as_part env (after_dial env (put_origin d) no_origin d w a)) e

  -- the origin dialled by a closed handler
  late_dial :
      (local remote : Bytes) (lines : List Bytes) (d : DataHandler) (w : World)
      → d.closed ≡ true
      → d.origin_conn.needs_listen ≡ false
      → env.dial w.clock (origin_dial_addr d) ≡ dialled local remote lines
      → LeftPart (origin_part env needs_tls tls d w)
  late_dial local remote lines d w h k e =
      subst (λ r. LeftPart (then_secure env needs_tls tls r))
        (sym (dials_origin local remote lines d w k e))
        (secure_origin-Left (put_origin d (conn_at w.clock local remote))
          (tick (connected w.clock) w) (h, conn_at w.clock local remote, refl))

  -- closing changes nothing of where the origin is dialled
  close-origin :
      (d : DataHandler) (w : World)
      → d.closed ≡ false
      → (close env d w).0.origin_conn ≡ record (d.origin_conn) { data_conn = none; listener = none }
  unfolding close_open
  close-origin d w h = rw (close_of_open env d w h) refl

  dial_same :
      (d : DataHandler) (w : World)
      → d.closed ≡ false
      → origin_dial_addr (close env d w).0 ≡ origin_dial_addr d
  unfolding origin_dial_addr
  dial_same d w h =
      ap (λ (c : Connector). join_host_port c.remote_ip c.remote_port) (close-origin d w h)

  module _ (down up : List Round) (d d1 : DataHandler) (w w1 w2 : World) (e local remote : Bytes)
      (lines : List Bytes) where
    -- Where the client is connected and the handler is open, the TLS part of the client fails before an
    -- origin that is to be dialled is dialled, and dialling it succeeds at any time, the transfer leaves
    -- the handler closed with the new connection to the origin still in it, and closing the handler
    -- again does nothing.
    pub start_data_transfer-leak :
        connect_client env d w ≡ (reported none, d1, w1)
        → secure_client env needs_tls tls d1 w1 ≡ (ret (some e), d1, w2)
        → d1.closed ≡ false
        → d1.origin_conn.needs_listen ≡ false
        → ((time : _) → env.dial time (origin_dial_addr d1) ≡ dialled local remote lines)
        → let (t, d', w') = start_data_transfer env needs_tls tls client_first down up d w in
          (d'.closed ≡ true)
          × (c : Conn) × (d'.origin_conn.data_conn ≡ some c)
          × (close env d' w' ≡ (d', none, w'))
    unfolding start_data_transfer
    start_data_transfer-leak linked refused open_still dials reached =
        let shut = close env d1 w2 in
        let late =
          late_dial local remote lines shut.0 shut.2 (close-IsClosed env d1 w2 open_still).closed
            (ap (λ (c : Connector). c.needs_listen) (close-origin d1 w2 open_still) ∙ dials)
            (ap (env.dial shut.2.clock) (dial_same d1 w2 open_still) ∙ reached shut.2.clock) in
        let ends =
          after_parts-Left down up e
            (or_close env needs_tls tls (origin_part env needs_tls tls shut.0 shut.2))
            (or_close-Left (origin_part env needs_tls tls shut.0 shut.2) late) in
        let behind =
          subst
            (λ x. LeftEnd (
              second_part env needs_tls tls (origin_part env needs_tls tls) down up
                (or_close env needs_tls tls x)))
            (sym refused) ends in
        let whole =
          subst (λ x. LeftEnd (after_connect env needs_tls tls client_first down up x)) (sym linked)
            behind in
        (whole.0, whole.1, whole.2, close_of_closed env _ _ whole.0)
