-- ===== src/Data/Transfer/Copies.antt =====
-- pftp/data_handler.go: a transfer that gets its connections (StartDataTransfer).
use pftp.Base.{true, false, List, some, none, ◌≡◌, ◌∙◌, refl, ret, ap, sym, subst}
use pftp.Data.Close.{IsClosed, close-IsClosed}
use pftp.Data.Copy.{Round, copy_packets}
use pftp.Data.Transfer.{
  Order, client_first, origin_first, Transfer, completed, reported, put_client, put_origin,
  connect_client, connect_origin, secure_client, secure_origin, closing, copying, after_connect,
  start_data_transfer,
}
use pftp.Data.{DataHandler, origin_dial_addr}
use pftp.Text.{Bytes}
use pftp.Tls.{TlsDataSet}
use pftp.World.{Listener, conn_at, connected, released, incoming, dialled, Env, World, tick}

module _ (env : Env) (tls : TlsDataSet) (d : DataHandler) (w : World) (l : Listener)
    (near far here there : Bytes) (banner : List Bytes) where
  -- the handler and the world behind the connection of the client
  abbrev pub met : DataHandler
  met = put_client d (conn_at w.clock near far)

  abbrev pub met_world : World
  met_world = tick (released l.opened_at) (tick (connected w.clock) w)

  -- and behind that of the origin
  abbrev pub linked : DataHandler
  linked = put_origin met (conn_at met_world.clock here there)

  abbrev pub linked_world : World
  linked_world = tick (connected met_world.clock) met_world

  module _ (opened : d.closed ≡ false) (listens : d.client_conn.needs_listen ≡ true)
      (listener : d.client_conn.listener ≡ some l) (dials : d.origin_conn.needs_listen ≡ false)
      (comes : env.accept w.clock ≡ incoming near far)
      (answers : env.dial met_world.clock (origin_dial_addr met) ≡ dialled here there banner) where
    connect_client-met : connect_client env d w ≡ (reported none, met, met_world)
    unfolding connect_client
    connect_client-met = rw (listens, opened, listener, comes) refl

    connect_origin-linked : connect_origin env met met_world ≡ (ret none, linked, linked_world)
    unfolding connect_origin origin_dial_addr
    connect_origin-linked = rw (dials, answers) refl

    set_up :
        (order : Order) (down up : List Round)
        → after_connect env false tls order down up (reported none, met, met_world)
          ≡ copying env false tls down up d.closed linked.client_conn.data_conn
              linked.origin_conn.data_conn linked linked_world
    unfolding secure_client secure_origin
    set_up client_first down up = rw connect_origin-linked refl
    set_up origin_first down up = rw connect_origin-linked refl

    completes :
        (order : Order) (down up : List Round)
        → start_data_transfer env false tls order down up d w
          ≡ closing env false tls
              (completed (copy_packets down) (copy_packets up))
              linked
              linked_world
    unfolding start_data_transfer
    completes order down up =
        ap (after_connect env false tls order down up) connect_client-met
        ∙ set_up order down up
        ∙ ap
            (λ b.
              copying env false tls down up b linked.client_conn.data_conn
                linked.origin_conn.data_conn linked linked_world)
            opened

    -- A transfer without TLS on an open handler that listens toward the client and dials the origin, where
    -- the client comes and the origin answers: both connections are made, the client's first; the
    -- transfer is completed with what copyPackets makes of the two directions; and then the handler
    -- with these two connections is closed, each of them once. So in either order of the two parts.
    pub start_data_transfer-copies :
        (order : Order) (down up : List Round)
        → let r = start_data_transfer env false tls order down up d w in
          (r.0 ≡ completed (copy_packets down) (copy_packets up))
          × IsClosed linked r.1 linked_world r.2
    start_data_transfer-copies order down up =
        subst
          (λ (r : Transfer × DataHandler × World).
            (r.0 ≡ completed (copy_packets down) (copy_packets up))
            × IsClosed linked r.1 linked_world r.2)
          (sym (completes order down up)) (refl, close-IsClosed env linked linked_world opened)
