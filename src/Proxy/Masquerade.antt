-- ===== src/Proxy/Masquerade.antt =====
-- pftp/proxy.go: what a client in passive mode learns of the origin's data address.
use pftp.Base.{
  Bool, true, false, ◌&&◌, some, ◌≡◌, ◌⊎◌, Bool-cases, inl, inr, sym, ◌∙◌, ap, arith, Error, ret,
  ◌>>=◌, >>=-eq-ret, ret-injective,
}
use pftp.Config.{Config}
use pftp.Data.{DataHandler}
use pftp.Data.Announce.{parse_pasv_response}
use pftp.Data.Announce.Target.{parse_pasv_response-AimsOrigin}
use pftp.Proxy.{
  Proxy, on_connector, read_announcement, announce, data_channel, mode_reply, pasv_reply,
  listen_port, rewrite, dropped, greet, note_login, Reply, reply,
}
use pftp.Proxy.Rewrite.{
  data_channel-parts, pass_on-eq, note_login-is_loggedin, rewrite-dropped, rewrite-channel,
}
use pftp.Text.{Bytes, codes, contains, has_prefix, same}
use pftp.World.{Listener, World}

-- A handler whose client side is unchanged and that is open still.
record KeepsClient (d : DataHandler) (q : Proxy) : Type 0 where
  after : DataHandler
  connector_is : q.data_connector ≡ some after
  client_kept : after.client_conn ≡ d.client_conn
  closed_kept : after.closed ≡ d.closed

pasv-client :
    (config : Config) (line : Bytes) (d : DataHandler) {d' : DataHandler} {e : Error}
    → parse_pasv_response config line d ≡ ret (d', e)
    → (d'.client_conn ≡ d.client_conn) × (d'.closed ≡ d.closed)
pasv-client config line d h = elim (parse_pasv_response-AimsOrigin config line d h) [
  | inl (_, aims) ↦
      (ap (λ (x : DataHandler). x.client_conn) aims.1, ap (λ (x : DataHandler). x.closed) aims.1)
  | inr (_, same_d) ↦ (
    ap (λ (x : DataHandler). x.client_conn) same_d.0,
    ap (λ (x : DataHandler). x.closed) same_d.0,
  )
]

module _ (config : Config) (line : Bytes) (p : Proxy) (d : DataHandler) where
  connector_step :
      p.data_connector ≡ some d
      → on_connector (parse_pasv_response config line) p
        ≡ (parse_pasv_response config line d >>= λ r. ret (record p { data_connector = some r.0 }))
  unfolding on_connector
  connector_step there = rw (there, on_connector)

  on_connector-KeepsClient :
      {q : Proxy}
      → p.data_connector ≡ some d
      → on_connector (parse_pasv_response config line) p ≡ ret q
      → KeepsClient d q
  on_connector-KeepsClient {q} there h =
      let (r, parsed, kept) =
        >>=-eq-ret (parse_pasv_response config line d)
          (λ r. ret (record p { data_connector = some r.0 })) (sym (connector_step there) ∙ h) in
      let e : (record p { data_connector = some r.0 }) ≡ q = ret-injective kept in
      let (client, open_same) = pasv-client config line d parsed in
      record {
        after = r.0;
        connector_is = ap (λ (x : Proxy). x.data_connector) (sym e);
        client_kept = client;
        closed_kept = open_same;
      }

module _ (config : Config) (line : Bytes) (p : Proxy) (d : DataHandler) (l : Listener) (w : World)
    (announced : has_prefix line (codes "227 ") ≡ true) (connected : p.data_connector ≡ some d)
    (open_still : d.closed ≡ false) (passive : d.client_conn.mode ≡ codes "PASV")
    (listens : d.client_conn.listener ≡ some l) where
  read_announcement_pasv :
      read_announcement config line p
      ≡ (on_connector (parse_pasv_response config line) p >>= λ q. ret (true, q))
  unfolding read_announcement
  read_announcement_pasv = rw announced

  mode_reply_pasv :
      (d' : DataHandler)
      → d'.client_conn ≡ d.client_conn
      → mode_reply config line d' ≡ ret (pasv_reply config.masquerade_ip (listen_port l))
  unfolding mode_reply same
  mode_reply_pasv d' kept =
      let mode = ap (λ (c : _). c.mode) kept ∙ passive in
      let there = ap (λ (c : _). c.listener) kept ∙ listens in ground arith

  announce_pasv :
      {q : Proxy}
      → KeepsClient d q
      → announce config line true q ≡ ret (pasv_reply config.masquerade_ip (listen_port l))
  unfolding announce
  announce_pasv {q} k =
      let there = k.connector_is in
      let still = k.closed_kept ∙ open_still in
      let said = mode_reply_pasv k.after k.client_kept in ground arith

  data_channel_pasv :
      {out : Bytes} {p' : Proxy} {w' : World}
      → data_channel config line p w ≡ ret (out, p', w')
      → out ≡ pasv_reply config.masquerade_ip (listen_port l)
  data_channel_pasv {out} {p'} h =
      let (b, read, written, _) = data_channel-parts config line p w h in
      let (q, kept, last) =
        >>=-eq-ret (on_connector (parse_pasv_response config line) p) (λ q. ret (true, q))
          (sym read_announcement_pasv ∙ read) in
      let e = ret-injective last in
      let b_is : true ≡ b = ap (λ (t : Bool × Proxy). t.0) e in
      let q_is : q ≡ p' = ap (λ (t : Bool × Proxy). t.1) e in
      let said = announce_pasv (on_connector-KeepsClient config line p d connected kept) in
      ret-injective
        (sym written ∙ sym (ap (λ (t : Bool × Proxy). announce config line t.0 t.1) e) ∙ said)

module _ (line : Bytes) (p : Proxy) where
  greet_after_login : p.is_loggedin ≡ true → greet p line ≡ line
  unfolding greet
  greet_after_login h = ground arith

  note_login-data_connector : (note_login line p).data_connector ≡ p.data_connector
  unfolding note_login
  note_login-data_connector = ground arith

-- Behind a login, with the data channel proxy, a 227 line of the origin reaches a client whose open
-- data handler is in passive mode only as the reply with the configured masquerade IP and the port
-- of the proxy's own listener, whatever address the origin announced, or not at all.
pub rewrite-pasv_reply :
    (config : Config) (line : Bytes) (p : Proxy) (d : DataHandler) (l : Listener) (w : World)
    {r : Reply} {p' : Proxy} {w' : World}
    → config.data_chan_proxy ≡ true
    → p.is_loggedin ≡ true
    → has_prefix line (codes "227 ") ≡ true
    → p.data_connector ≡ some d
    → d.closed ≡ false
    → d.client_conn.mode ≡ codes "PASV"
    → d.client_conn.listener ≡ some l
    → rewrite config line p w ≡ ret (r, p', w')
    → (r ≡ dropped) ⊎ (r ≡ reply (pasv_reply config.masquerade_ip (listen_port l)))
rewrite-pasv_reply config line p d l w {r} {p'} {w'} on known announced connected open_still passive
      listens h =
    let buff_is = greet_after_login line p known in
    elim (Bool-cases (config.proxy_protocol && contains (greet p line) (codes "500 PROXY"))) [
      | inl drop ↦ inl (
          sym (
            ap (λ (t : Reply × Proxy × World). t.0)
              (ret-injective (sym (rewrite-dropped config line p w drop) ∙ h))))
      | inr keep ↦
          let loud : (config.data_chan_proxy && (note_login (greet p line) p).is_loggedin) ≡ true =
            ground (arith, note_login-is_loggedin (greet p line) p) in
          let (out, there, r_is) =
            pass_on-eq _ (sym (rewrite-channel config line p w keep loud) ∙ h) in
          let there' : data_channel config line (note_login line p) w ≡ ret (out, p', w') =
            ap (λ b. data_channel config b (note_login b p) w) (sym buff_is) ∙ there in
          inr (
            r_is
            ∙ ap reply (
                data_channel_pasv config line (note_login line p) d l w announced
                  (note_login-data_connector line p ∙ connected) open_still passive listens there'))
    ]
