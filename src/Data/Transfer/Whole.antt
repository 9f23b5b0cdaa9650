-- ===== src/Data/Transfer/Whole.antt =====
-- pftp/data_handler.go: a transfer that is completed, and one whose client has no TLS
-- (StartDataTransfer).
use pftp.Base.{
  Option, sym, Bool, true, false, List, none, some, ◌≡◌, refl, subst, if_cases, Error, ret, panic,
}
use pftp.Data.Close.{close-IsClosed}
use pftp.Data.Copy.{Round, Stop, copy_packets}
use pftp.Data.Transfer.{
  Connected, reported, unreported, broken, Part, Order, client_first, origin_first, Transfer,
  completed, not_set_up, stuck, crashed, put_client, put_origin, connect_client, connect_origin,
  secure_client, secure_origin, then_secure, or_close, closing, copying, after_parts, second_part,
  origin_part, after_connect, start_data_transfer,
}
use pftp.Data.Transfer.Ends.{
  Open, Linked, connect_client-Linked, connect_origin-Open, with_tls_config-Open,
}
use pftp.Data.{DataHandler}
use pftp.Text.{Bytes}
use pftp.Tls.{TlsDataSet, get_tls_config}
use pftp.World.{Conn, Env, World}

-- the part leaves an open handler open, where it has no error
abbrev OpenSo : Part → Type 0
OpenSo (ret none, d, w) = d.closed ≡ false
OpenSo (ret (some e), d, w) = Unit
OpenSo (panic, d, w) = Unit

-- a transfer that is completed has nothing left open, and copied both ways
abbrev Whole : List Round → List Round → Transfer × DataHandler × World → Type 0
Whole down up (completed a b, d, w) =
    (a ≡ copy_packets down)
    × (b ≡ copy_packets up)
    × (d.client_conn.data_conn ≡ none)
    × (d.origin_conn.data_conn ≡ none)
    × (d.client_conn.listener ≡ none)
    × (d.origin_conn.listener ≡ none)
    × (w.in_data_transfer ≡ false)
Whole down up (not_set_up e, d, w) = Unit
Whole down up (stuck, d, w) = Unit
Whole down up (crashed, d, w) = Unit

module _ (env : Env) (needs_tls : Bool) (tls : TlsDataSet) where
  secure_client-Open :
      (d : DataHandler) (w : World) → d.closed ≡ false → Open (secure_client env needs_tls tls d w)
  unfolding secure_client
  secure_client-Open d w h =
      if_cases Open needs_tls
        (with_tls_config-Open env (get_tls_config tls.for_client) d.client_conn.data_conn
          (put_client d) _ _ d w (λ c. h) h)
        h

  secure_origin-Open :
      (d : DataHandler) (w : World) → d.closed ≡ false → Open (secure_origin env needs_tls tls d w)
  unfolding secure_origin
  secure_origin-Open d w h =
      if_cases Open needs_tls
        (with_tls_config-Open env (get_tls_config tls.for_origin) d.origin_conn.data_conn
          (put_origin d) _ _ d w (λ c. h) h)
        h

  then_secure-Open : (r : Part) → Open r → Open (then_secure env needs_tls tls r)
  then_secure-Open (ret none, d, w) h = secure_origin-Open d w h
  then_secure-Open (ret (some e), d, w) h = h
  then_secure-Open (panic, d, w) h = h

  origin_part-Open :
      (d : DataHandler) (w : World) → d.closed ≡ false → Open (origin_part env needs_tls tls d w)
  origin_part-Open d w h = then_secure-Open (connect_origin env d w) (connect_origin-Open env d w h)

  or_close-OpenSo : (r : Part) → Open r → OpenSo (or_close env needs_tls tls r)
  or_close-OpenSo (ret none, d, w) h = h
  or_close-OpenSo (ret (some e), d, w) h = tt
  or_close-OpenSo (panic, d, w) h = tt

  closing-Whole :
      (down up : List Round) (d : DataHandler) (w : World)
      → d.closed ≡ false
      → Whole down up
          (closing env needs_tls tls (completed (copy_packets down) (copy_packets up)) d w)
  closing-Whole down up d w h =
      let k = close-IsClosed env d w h in
      (refl, refl, k.client_data, k.origin_data, k.client_listener, k.origin_listener, k.flag)

  copying-Whole :
      (down up : List Round) (c o : Option Conn) (d : DataHandler) (w : World)
      → d.closed ≡ false
      → Whole down up (copying env needs_tls tls down up false c o d w)
  copying-Whole down up (some _) (some _) d w h = closing-Whole down up d w h
  copying-Whole down up (some _) none d w h = tt
  copying-Whole down up none o d w h = tt

  lost-Whole :
      (down up : List Round) (e : Bytes) (r : Part)
      → Whole down up (after_parts env needs_tls tls down up (some e) r)
  lost-Whole down up e (ret x, d, w) = tt
  lost-Whole down up e (panic, d, w) = tt

  after_parts-Whole :
      (down up : List Round) (e : Error) (r : Part)
      → OpenSo r
      → Whole down up (after_parts env needs_tls tls down up e r)
  after_parts-Whole down up (some e) r h = lost-Whole down up e r
  after_parts-Whole down up none (ret none, d, w) h =
      subst
        (λ b.
          Whole down up (
            copying env needs_tls tls down up b d.client_conn.data_conn d.origin_conn.data_conn d
              w))
        (sym h) (copying-Whole down up d.client_conn.data_conn d.origin_conn.data_conn d w h)
  after_parts-Whole down up none (ret (some e), d, w) h = tt
  after_parts-Whole down up none (panic, d, w) h = tt

  second_part-Whole :
      (next : DataHandler → World → Part) (down up : List Round) (r : Part)
      → OpenSo r
      → ((d : DataHandler) (w : World) → d.closed ≡ false → Open (next d w))
      → Whole down up (second_part env needs_tls tls next down up r)
  second_part-Whole next down up (ret none, d, w) h k =
      after_parts-Whole down up none (or_close env needs_tls tls (next d w))
        (or_close-OpenSo (next d w) (k d w h))
  second_part-Whole next down up (ret (some e), d, w) h k =
      lost-Whole down up e (or_close env needs_tls tls (next d w))
  second_part-Whole next down up (panic, d, w) h k = tt

  after_connect-Whole :
      (order : Order) (down up : List Round) (r : Connected × DataHandler × World)
      → Linked r
      → Whole down up (after_connect env needs_tls tls order down up r)
  after_connect-Whole order down up (broken, d, w) h = tt
  after_connect-Whole order down up (unreported e, d, w) h = tt
  after_connect-Whole order down up (reported (some e), d, w) h = tt
  after_connect-Whole client_first down up (reported none, d, w) h =
      second_part-Whole (origin_part env needs_tls tls) down up
        (or_close env needs_tls tls (secure_client env needs_tls tls d w))
        (or_close-OpenSo (secure_client env needs_tls tls d w) (secure_client-Open d w h))
        origin_part-Open
  after_connect-Whole origin_first down up (reported none, d, w) h =
      second_part-Whole (secure_client env needs_tls tls) down up
        (or_close env needs_tls tls (origin_part env needs_tls tls d w))
        (or_close-OpenSo (origin_part env needs_tls tls d w) (origin_part-Open d w h))
        secure_client-Open

  -- A transfer on an open handler that gets both its connections copies both directions, as
  -- copyPackets does, and leaves no data connection and no listener in the handler and the transfer
  -- flag clear, in either order of the client's TLS and the origin's connection.
  pub start_data_transfer-Whole :
      (order : Order) (down up : List Round) (d d' : DataHandler) (w w' : World)
      (to_client_copy to_origin_copy : Bytes × Stop)
      → d.closed ≡ false
      → start_data_transfer env needs_tls tls order down up d w
        ≡ (completed to_client_copy to_origin_copy, d', w')
      → (to_client_copy ≡ copy_packets down)
        × (to_origin_copy ≡ copy_packets up)
        × (d'.client_conn.data_conn ≡ none)
        × (d'.origin_conn.data_conn ≡ none)
        × (d'.client_conn.listener ≡ none)
        × (d'.origin_conn.listener ≡ none)
        × (w'.in_data_transfer ≡ false)
  unfolding start_data_transfer
  start_data_transfer-Whole order down up d d' w w' a b h e =
      subst (Whole down up) e (
        after_connect-Whole order down up (connect_client env d w)
          (connect_client-Linked env d w h))

  -- A transfer whose handler was closed before it began, where the client is to connect to a listener,
  -- never comes to an end: the goroutine of the origin waits for a report that nobody makes.
  pub start_data_transfer-stuck :
      (order : Order) (down up : List Round) (d : DataHandler) (w : World)
      → d.client_conn.needs_listen ≡ true
      → d.closed ≡ true
      → (start_data_transfer env needs_tls tls order down up d w).0 ≡ stuck
  unfolding start_data_transfer connect_client
  start_data_transfer-stuck order down up d w h k = rw (h, k) refl
