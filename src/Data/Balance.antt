-- ===== src/Data/Balance.antt =====
-- pftp/data_handler.go: the listeners that newDataHandler opens and releases.
use pftp.Base.{
  ℕ, ◌+◌, Bool, true, false, List, [], ◌++◌, none, some, ◌≡◌, refl, arith, Bool-cases, inl, inr,
}
use pftp.Config.{Config}
use pftp.Data.Close.{held, close-IsClosed}
use pftp.Data.Open.{opens, releases, listening_on, listeners, Searched, set_new_listener-Searched}
use pftp.Data.{
  DataHandler, Search, found, gave_up, crashed, out_of_rounds, set_new_listener, Made, made,
  refused_with, broke, with_listener, open_origin, open_both, new_data_handler, bare_handler,
  check_need_listen, close,
}
use pftp.Text.{Bytes}
use pftp.World.{Conn, Listener, Event, Env, World}

-- A handler as it is before any transfer.
pub record IsFresh (config : Config) (mode : Bytes) (d : DataHandler) : Type 0 where
  pub open_still : d.closed ≡ false
  pub client_mode : d.client_conn.mode ≡ mode
  pub origin_mode : d.origin_conn.mode ≡ config.transfer_mode
  pub client_data : d.client_conn.data_conn ≡ none
  pub origin_data : d.origin_conn.data_conn ≡ none
  pub client_ip : d.client_conn.remote_ip ≡ []
  pub origin_ip : d.origin_conn.remote_ip ≡ []

abbrev pub number_of : Bool → ℕ
number_of true = 1
number_of false = 0

-- What has been opened and released since `w`, against the listeners that are still there.
abbrev pub Balanced : Config → Bytes → World → Made × World → Type 0
Balanced config mode w (made d, w') =
    IsFresh config mode d
    × (opens w'.events ≡ opens w.events + listeners d)
    × (releases w'.events ≡ releases w.events)
    × (listening_on d.client_conn.listener
        ≡ number_of (check_need_listen mode config.transfer_mode true))
    × (listening_on d.origin_conn.listener
        ≡ number_of (check_need_listen mode config.transfer_mode false))
Balanced config mode w (refused_with e, w') =
    (opens w'.events + releases w.events ≡ releases w'.events + opens w.events)
    × (w'.in_data_transfer ≡ false)
Balanced config mode w (broke, w') = Unit

opens-held : (d : DataHandler) (es : List Event) → opens (held d ++ es) ≡ opens es
opens-held d es = ground arith

releases-held :
    (d : DataHandler) (es : List Event)
    → d.client_conn.data_conn ≡ none
    → d.origin_conn.data_conn ≡ none
    → releases (held d ++ es) ≡ releases es + listeners d
releases-held d es h k = ground arith

-- Where newDataHandler stands before it looks after the origin's listener.
record Halfway (config : Config) (mode : Bytes) (w : World) (d : DataHandler) (w' : World)
    : Type 0 where
  fresh : IsFresh config mode d
  opened_so_far : opens w'.events ≡ opens w.events + listeners d
  released_so_far : releases w'.events ≡ releases w.events
  client_listens :
      listening_on d.client_conn.listener
      ≡ number_of (check_need_listen mode config.transfer_mode true)
  no_origin : d.origin_conn.listener ≡ none

module _ (env : Env) (config : Config) (mode : Bytes) (w0 : World) where
  -- Giving up closes the handler, and so releases what it had opened.
  close-balance :
      (d : DataHandler) (w w' : World)
      → IsFresh config mode d
      → opens w.events ≡ opens w0.events + listeners d
      → releases w.events ≡ releases w0.events
      → (opens w'.events ≡ opens w.events) × (releases w'.events ≡ releases w.events)
      → (e : Bytes) → Balanced config mode w0 (refused_with e, (close env d w').2)
  close-balance d w w' f o r s e =
      let c = close-IsClosed env d w' f.open_still in
      (
        rw c.events (
            omega (
              arith,
              opens-held d w'.events,
              releases-held d w'.events f.client_data f.origin_data,
            )),
        c.flag,
      )

  found_origin :
      (d : DataHandler) (w : World) (s : Search × World)
      → Halfway config mode w0 d w
      → check_need_listen mode config.transfer_mode false ≡ true
      → Searched w s
      → Balanced config mode w0 (
          with_listener env
            (λ (l : Listener). record d {
              origin_conn = record (d.origin_conn) { listener = some l; needs_listen = true };
            })
            d
            s
            (λ (h : DataHandler) (v : World). (made h, v)))
  unfolding with_listener
  found_origin d w (found l, w') half needed s =
      let f = half.fresh in
      (
        record {
          open_still = f.open_still;
          client_mode = f.client_mode;
          origin_mode = f.origin_mode;
          client_data = f.client_data;
          origin_data = f.origin_data;
          client_ip = f.client_ip;
          origin_ip = f.origin_ip;
        },
        ground arith,
        ground arith,
        half.client_listens,
        rw needed,
      )
  found_origin d w (gave_up e, w') half needed s =
      close-balance d w w' half.fresh half.opened_so_far half.released_so_far s e
  found_origin d w (crashed, w') half needed s = tt
  found_origin d w (out_of_rounds, w') half needed s = tt

  origin_listens :
      (d : DataHandler) (w : World)
      → check_need_listen d.client_conn.mode d.origin_conn.mode false ≡ true
      → open_origin env config d w
        ≡ with_listener env
            (λ (l : Listener). record d {
              origin_conn = record (d.origin_conn) { listener = some l; needs_listen = true };
            })
            d
            (set_new_listener env config w)
            (λ (h : DataHandler) (v : World). (made h, v))
  unfolding open_origin
  origin_listens d w h = rw (h, open_origin)

  origin_idle :
      (d : DataHandler) (w : World)
      → check_need_listen d.client_conn.mode d.origin_conn.mode false ≡ false
      → open_origin env config d w ≡ (made d, w)
  unfolding open_origin
  origin_idle d w h = rw (h, open_origin)

  open_origin-Balanced :
      (d : DataHandler) (w : World)
      → Halfway config mode w0 d w
      → Balanced config mode w0 (open_origin env config d w)
  open_origin-Balanced d w half =
      elim (Bool-cases (check_need_listen mode config.transfer_mode false)) [
        | inl needed ↦
            rw (origin_listens d w (cc (half.fresh.client_mode, half.fresh.origin_mode))) (
              found_origin d w (set_new_listener env config w) half needed
                (set_new_listener-Searched env config w))
        | inr idle ↦ rw (origin_idle d w (cc (half.fresh.client_mode, half.fresh.origin_mode))) (
          half.fresh,
          half.opened_so_far,
          half.released_so_far,
          half.client_listens,
          rw (half.no_origin, idle),
        )
      ]

  found_client :
      (d : DataHandler) (w : World) (s : Search × World)
      → IsFresh config mode d
      → (d.client_conn.listener ≡ none) × (d.origin_conn.listener ≡ none)
      → check_need_listen mode config.transfer_mode true ≡ true
      → (opens w.events ≡ opens w0.events) × (releases w.events ≡ releases w0.events)
      → Searched w s
      → Balanced config mode w0 (
          with_listener env
            (λ (l : Listener). record d {
              client_conn = record (d.client_conn) { listener = some l; needs_listen = true };
            })
            d
            s
            (open_origin env config))
  unfolding with_listener
  found_client d w (found l, w') f nothing needed start s =
      open_origin-Balanced
        (record d {
          client_conn = record (d.client_conn) { listener = some l; needs_listen = true };
        })
        w'
        (record {
          fresh = record {
            open_still = f.open_still;
            client_mode = f.client_mode;
            origin_mode = f.origin_mode;
            client_data = f.client_data;
            origin_data = f.origin_data;
            client_ip = f.client_ip;
            origin_ip = f.origin_ip;
          };
          opened_so_far = ground arith;
          released_so_far = ground arith;
          client_listens = rw needed;
          no_origin = nothing.1;
        })
  found_client d w (gave_up e, w') f nothing needed start s =
      close-balance d w w' f (ground arith) start.1 s e
  found_client d w (crashed, w') f nothing needed start s = tt
  found_client d w (out_of_rounds, w') f nothing needed start s = tt

  client_listens_lem :
      (d : DataHandler) (w : World)
      → check_need_listen d.client_conn.mode d.origin_conn.mode true ≡ true
      → open_both env config d w
        ≡ with_listener env
            (λ (l : Listener). record d {
              client_conn = record (d.client_conn) { listener = some l; needs_listen = true };
            })
            d
            (set_new_listener env config w)
            (open_origin env config)
  unfolding open_both
  client_listens_lem d w h = rw (h, open_both)

  client_idle :
      (d : DataHandler) (w : World)
      → check_need_listen d.client_conn.mode d.origin_conn.mode true ≡ false
      → open_both env config d w ≡ open_origin env config d w
  unfolding open_both
  client_idle d w h = rw (h, open_both)

bare_handler-IsFresh :
    (env : Env) (config : Config) (c o : Conn) (mode : Bytes)
    → IsFresh config mode (bare_handler env config (some c) (some o) mode)
      × ((bare_handler env config (some c) (some o) mode).client_conn.listener ≡ none)
      × ((bare_handler env config (some c) (some o) mode).origin_conn.listener ≡ none)
unfolding bare_handler
bare_handler-IsFresh env config c o mode = ground arith

-- newDataHandler between two live connections, for every configuration, mode and behaviour of the
-- network. A handler that it makes is open, holds no data connection and no remote address yet, and
-- listens toward the client and toward the origin exactly where checkNeedListen says so; these
-- listeners are all that was opened. After an error every listener that was opened on the way has
-- been released, and the transfer flag is clear.
pub new_data_handler-Balanced :
    (env : Env) (config : Config) (c o : Conn) (mode : Bytes) (w : World)
    → Balanced config mode w (new_data_handler env config (some c) (some o) mode w)
unfolding new_data_handler
new_data_handler-Balanced env config c o mode w =
    let d = bare_handler env config (some c) (some o) mode in
    let (f, no_client, no_origin) = bare_handler-IsFresh env config c o mode in
    elim (Bool-cases (check_need_listen mode config.transfer_mode true)) [
      | inl needed ↦
          rw (client_listens_lem env config mode w d w (cc (f.client_mode, f.origin_mode))) (
            found_client env config mode w d w (set_new_listener env config w) f
              (no_client, no_origin) needed (refl, refl) (set_new_listener-Searched env config w))
      | inr idle ↦ rw (client_idle env config mode w d w (cc (f.client_mode, f.origin_mode))) (
          open_origin-Balanced env config mode w d w (record {
            fresh = f;
            opened_so_far = omega arith;
            released_so_far = refl;
            client_listens = rw idle;
            no_origin = no_origin;
          }))
    ]
