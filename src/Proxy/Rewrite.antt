-- ===== src/Proxy/Rewrite.antt =====
-- pftp/proxy.go: how a line of the origin changes the login and the transfer flag (startProxy).
use pftp.Base.{
  not, refl, subst, Bool, true, false, ◌&&◌, ◌||◌, ◌≡◌, ◌⊎◌, inl, inr, sym, ◌∙◌, ap, arith,
  Bool-cases, Outcome, ret, panic, ◌>>=◌, >>=-eq-ret, ret-injective, Error,
}
use pftp.Command.{code_of}
use pftp.Config.{Config}
use pftp.Data.Announce.{parse_pasv_response, parse_epsv_response}
use pftp.Data.{DataHandler}
use pftp.Proxy.{
  Proxy, greet, note_login, rewrite, Reply, dropped, reply, data_channel, announce,
  read_announcement, mark_transfer, on_connector, pass_on,
}
use pftp.Text.{Bytes, codes, same, contains, has_prefix}
use pftp.World.{World}

on_connector-login :
    (f : DataHandler → Outcome (DataHandler × Error)) (p : Proxy) {q : Proxy}
    → on_connector f p ≡ ret q
    → q.is_loggedin ≡ p.is_loggedin
unfolding on_connector
on_connector-login f p {q} h = ground arith

read_announcement-login :
    (config : Config) (buff : Bytes) (p : Proxy) {b : Bool} {q : Proxy}
    → read_announcement config buff p ≡ ret (b, q)
    → q.is_loggedin ≡ p.is_loggedin
unfolding read_announcement
read_announcement-login config buff p {b} {q} h = ground (
  arith,
  on_connector-login (parse_pasv_response config buff) p {q = q},
  on_connector-login (parse_epsv_response buff) p {q = q},
)

pub data_channel-parts :
    (config : Config) (buff : Bytes) (p : Proxy) (w : World) {out : Bytes} {q : Proxy} {w' : World}
    → data_channel config buff p w ≡ ret (out, q, w')
    → (b : Bool) × (read_announcement config buff p ≡ ret (b, q))
      × (announce config buff b q ≡ ret out)
      × (w' ≡ mark_transfer buff w)
unfolding data_channel
data_channel-parts config buff p w {out} {q} {w'} h =
    let (r, read, rest) =
      >>=-eq-ret (read_announcement config buff p)
        (λ r. announce config buff r.0 r.1 >>= λ out. ret (out, r.1, mark_transfer buff w)) h in
    let (text, written, last) =
      >>=-eq-ret (announce config buff r.0 r.1) (λ out. ret (out, r.1, mark_transfer buff w))
        rest in
    let e = ret-injective last in
    let q_is : r.1 ≡ q = ap (λ (t : Bytes × Proxy × World). t.1) e in
    (
      r.0,
      read ∙ ap (λ (x : Proxy). ret (r.0, x)) q_is,
      ap (λ (x : Proxy). announce config buff r.0 x) (sym q_is)
          ∙ written
          ∙ ap (λ (t : Bytes × Proxy × World). ret (t.0)) e,
      sym (ap (λ (t : Bytes × Proxy × World). t.2) e),
    )

pub note_login-is_loggedin :
    (buff : Bytes) (p : Proxy)
    → (note_login buff p).is_loggedin ≡ (p.is_loggedin || same (code_of buff) (codes "230"))
unfolding note_login
note_login-is_loggedin buff p = ground arith

pub pass_on-eq :
    (m : Outcome (Bytes × Proxy × World)) {r : Reply} {p' : Proxy} {w' : World}
    → pass_on m ≡ ret (r, p', w')
    → (out : Bytes) × (m ≡ ret (out, p', w')) × (r ≡ reply out)
pass_on-eq (ret (out, q, v)) h =
    let e = ret-injective h in
    (
      out,
      ap (λ (t : Reply × Proxy × World). ret (out, t.1, t.2)) e,
      ap (λ (t : Reply × Proxy × World). t.0) (sym e),
    )
pass_on-eq panic h = absurd (cc)

module _ (config : Config) (line : Bytes) (p : Proxy) (w : World) where
  -- the three ways of `rewrite`
  pub rewrite-dropped :
      (config.proxy_protocol && contains (greet p line) (codes "500 PROXY")) ≡ true
      → rewrite config line p w ≡ ret (dropped, note_login (greet p line) p, w)
  unfolding rewrite
  rewrite-dropped h = rw h

  pub rewrite-plain :
      (config.proxy_protocol && contains (greet p line) (codes "500 PROXY")) ≡ false
      → (config.data_chan_proxy && (note_login (greet p line) p).is_loggedin) ≡ false
      → rewrite config line p w ≡ ret (reply (greet p line), note_login (greet p line) p, w)
  unfolding rewrite
  rewrite-plain h k = rw (h, k)

  pub rewrite-channel :
      (config.proxy_protocol && contains (greet p line) (codes "500 PROXY")) ≡ false
      → (config.data_chan_proxy && (note_login (greet p line) p).is_loggedin) ≡ true
      → rewrite config line p w
        ≡ pass_on (data_channel config (greet p line) (note_login (greet p line) p) w)
  unfolding rewrite
  rewrite-channel h k = rw (h, k)

  -- the world behind a line that begins with 150 or 226, or with neither
  abbrev pub Flagged : Bytes → World → World → Type 0
  Flagged buff v v' =
      ((has_prefix buff (codes "150 ") ≡ true) × (v' ≡ record v { in_data_transfer = true }))
      ⊎ ((has_prefix buff (codes "226 ") ≡ true) × (v' ≡ record v { in_data_transfer = false }))
      ⊎ ((has_prefix buff (codes "150 ") ≡ false)
          × (has_prefix buff (codes "226 ") ≡ false)
          × (v' ≡ v))

  mark_transfer-Flagged : (buff : Bytes) → Flagged buff w (mark_transfer buff w)
  unfolding mark_transfer
  mark_transfer-Flagged buff = elim (Bool-cases (has_prefix buff (codes "150 "))) [
    | inl begins ↦ inl (begins, rw begins refl)
    | inr other ↦ elim (Bool-cases (has_prefix buff (codes "226 "))) [
      | inl finishes ↦ inr (inl (finishes, rw (other, finishes) refl))
      | inr neither ↦ inr (inr (other, neither, rw (other, neither) refl))
    ]
  ]

  -- The read loop looks for 150 and 226 behind a login, with the data channel proxy, on a line that is
  -- not dropped.
  abbrev pub looks : Proxy → Bool
  looks p' =
      config.data_chan_proxy
      && (p'.is_loggedin
          && not (config.proxy_protocol && contains (greet p line) (codes "500 PROXY")))

  -- the login and the transfer flag behind a line, by their state before it
  pub record Follows (p' : Proxy) (w' : World) : Type 0 where
    pub login : p'.is_loggedin ≡ (p.is_loggedin || same (code_of (greet p line)) (codes "230"))
    pub flag : ((looks p' ≡ true) × Flagged (greet p line) w w') ⊎ ((looks p' ≡ false) × (w' ≡ w))

  channel-Follows :
      (config.proxy_protocol && contains (greet p line) (codes "500 PROXY")) ≡ false
      → (config.data_chan_proxy && (note_login (greet p line) p).is_loggedin) ≡ true
      → {out : Bytes} {p' : Proxy} {w' : World}
      → data_channel config (greet p line) (note_login (greet p line) p) w ≡ ret (out, p', w')
      → Follows p' w'
  channel-Follows keep on {p' = p'} h =
      let buff = greet p line in
      let (b, read, written, marked) = data_channel-parts config buff (note_login buff p) w h in
      let kept = read_announcement-login config buff (note_login buff p) read in
      record {
        login = kept ∙ note_login-is_loggedin buff p;
        flag = inl (
          ground (arith, kept),
          subst (Flagged buff w) (sym marked) (mark_transfer-Flagged buff),
        );
      }

  plain-Follows :
      looks (note_login (greet p line) p) ≡ false
      → {r r' : Reply} {p' : Proxy} {w' : World}
      → ◌≡◌ {A = Outcome (Reply × Proxy × World)}
          (ret (r, note_login (greet p line) p, w))
          (ret (r', p', w'))
      → Follows p' w'
  plain-Follows blind h =
      let e = ret-injective h in
      let same_proxy = ap (λ (t : Reply × Proxy × World). t.1) e in
      record {
        login =
            ap (λ (x : Proxy). x.is_loggedin) (sym same_proxy)
            ∙ note_login-is_loggedin (greet p line) p;
        flag =
            inr
              (ap looks (sym same_proxy) ∙ blind, ap (λ (t : Reply × Proxy × World). t.2) (sym e));
      }

  -- For every line on which the read loop does not panic: the client is logged in behind it exactly
  -- where it was before or the line, as the client gets it, has the code 230. Behind a login, with the
  -- data channel proxy, and where the line is not dropped, a line that begins with 150 sets the transfer
  -- flag, one that begins with 226 clears it, and any other leaves it; the world is else as it was. In
  -- all other cases the world stays as it is.
  pub rewrite-Follows :
      {r : Reply} {p' : Proxy} {w' : World}
      → rewrite config line p w ≡ ret (r, p', w')
      → Follows p' w'
  rewrite-Follows {r} {p'} {w'} h =
      let buff = greet p line in
      elim (Bool-cases (config.proxy_protocol && contains buff (codes "500 PROXY"))) [
        | inl drop ↦ plain-Follows (ground arith) (sym (rewrite-dropped drop) ∙ h)
        | inr keep ↦ elim (Bool-cases (config.data_chan_proxy && (note_login buff p).is_loggedin)) [
          | inr plain ↦ plain-Follows (ground arith) (sym (rewrite-plain keep plain) ∙ h)
          | inl on ↦
              let (out, there, _) = pass_on-eq _ (sym (rewrite-channel keep on) ∙ h) in
              channel-Follows keep on there
        ]
      ]
