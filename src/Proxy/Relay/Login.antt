-- ===== src/Proxy/Relay/Login.antt =====
-- pftp/proxy.go: the login behind a round of the read loop, by the line that it read.
use pftp.Base.{
  Bool, true, false, ◌||◌, ◌&&◌, List, Option, none, some, ◌≡◌, refl, sym, ◌∙◌, ap, subst, arith,
  Error, Outcome, ret, panic, ◌>>=◌, ret-injective, Bool-cases, inl, inr,
}
use pftp.Command.{code_of}
use pftp.Config.{Config}
use pftp.Data.Announce.{parse_pasv_response, parse_epsv_response}
use pftp.Data.{DataHandler}
use pftp.Proxy.Relay.{Round, after_complete, after_rewrite, relay_round}
use pftp.Proxy.Rewrite.{
  rewrite-Follows, data_channel-parts, pass_on-eq, rewrite-dropped, rewrite-plain, rewrite-channel,
}
use pftp.Proxy.{
  Proxy, Reply, dropped, reply, rewrite, complete, greet, note_login, on_connector,
  read_announcement,
}
use pftp.Text.Equal.{same_iff}
use pftp.Text.{Bytes, codes, same, contains}
use pftp.World.{Env, World}

-- the reply that tells of a login
abbrev pub is_login : Bytes → Bool
is_login line = same (code_of line) (codes "230")

-- what a reply does not change
abbrev pub Unmoved : Proxy → Proxy → Type 0
Unmoved p q = (q.welcome_msg ≡ p.welcome_msg) × (q.pass_through ≡ p.pass_through)

on_connector-Unmoved :
    (f : DataHandler → Outcome (DataHandler × Error)) (p : Proxy) {q : Proxy}
    → on_connector f p ≡ ret q
    → Unmoved p q
unfolding on_connector
on_connector-Unmoved f p {q} h = ground arith

read_announcement-Unmoved :
    (config : Config) (buff : Bytes) (p : Proxy) {b : Bool} {q : Proxy}
    → read_announcement config buff p ≡ ret (b, q)
    → Unmoved p q
unfolding read_announcement
read_announcement-Unmoved config buff p {b} {q} h = ground (
  arith,
  on_connector-Unmoved (parse_pasv_response config buff) p {q = q},
  on_connector-Unmoved (parse_epsv_response buff) p {q = q},
)

note_login-Unmoved : (buff : Bytes) (p : Proxy) → Unmoved p (note_login buff p)
unfolding note_login
note_login-Unmoved buff p = ground arith

module _ (config : Config) (line : Bytes) (p : Proxy) (w : World) where
  plain-Unmoved :
      {r r' : Reply} {p' : Proxy} {w' : World}
      → ◌≡◌ {A = Outcome (Reply × Proxy × World)}
          (ret (r, note_login (greet p line) p, w))
          (ret (r', p', w'))
      → Unmoved p p'
  plain-Unmoved h =
      subst (Unmoved p) (ap (λ (t : Reply × Proxy × World). t.1) (ret-injective h))
        (note_login-Unmoved (greet p line) p)

  rewrite-Unmoved :
      {r : Reply} {p' : Proxy} {w' : World}
      → rewrite config line p w ≡ ret (r, p', w')
      → Unmoved p p'
  rewrite-Unmoved {r} {p'} {w'} h =
      let buff = greet p line in
      elim (Bool-cases (config.proxy_protocol && contains buff (codes "500 PROXY"))) [
        | inl drop ↦ plain-Unmoved (sym (rewrite-dropped config line p w drop) ∙ h)
        | inr keep ↦ elim (Bool-cases (config.data_chan_proxy && (note_login buff p).is_loggedin)) [
          | inr plain ↦ plain-Unmoved (sym (rewrite-plain config line p w keep plain) ∙ h)
          | inl on ↦
              let (out, there, _) =
                pass_on-eq _ (sym (rewrite-channel config line p w keep on) ∙ h) in
              let (b, read, _, _) = data_channel-parts config buff (note_login buff p) w there in
              let moved = read_announcement-Unmoved config buff (note_login buff p) read in
              let noted = note_login-Unmoved buff p in (moved.0 ∙ noted.0, moved.1 ∙ noted.1)
        ]
      ]

greeting_is_no_login :
    (line : Bytes) → same (code_of line) (codes "220") ≡ true → is_login line ≡ false
unfolding same
greeting_is_no_login line h =
    subst (λ c. same c (codes "230") ≡ false) (sym ((same_iff (code_of line) (codes "220")).0 h))
      refl

greet-is_login :
    (p : Proxy) (line : Bytes)
    → is_login p.welcome_msg ≡ false
    → is_login (greet p line) ≡ is_login line
unfolding greet
greet-is_login p line h = ground (arith, greeting_is_no_login line)

-- the login behind a round, and what a round does not change
abbrev pub Moves : Proxy → Bytes → Outcome Round → Type 0
Moves p line (ret (o, q, w)) = (q.is_loggedin ≡ (p.is_loggedin || is_login line)) × Unmoved p q
Moves p line panic = Unit

module _ (env : Env) (config : Config) (line : Bytes) (more : List Bytes) (p : Proxy) where
  after_complete-Moves :
      (q : Proxy) (w : World) (o : Outcome (Option (Bytes × List Bytes)))
      → Moves p line (ret (none, q, w))
      → Moves p line (o >>= λ x. ret (after_complete env q w x))
  after_complete-Moves q w (ret (some (whole, rest))) h = h
  after_complete-Moves q w (ret none) h = h
  after_complete-Moves q w panic h = tt

  after_rewrite-Moves :
      (m : Outcome (Reply × Proxy × World))
      → ((r : Reply) (q : Proxy) (w : World) → m ≡ ret (r, q, w) → Moves p line (ret (none, q, w)))
      → Moves p line (m >>= after_rewrite env more)
  after_rewrite-Moves (ret (dropped, q, w)) h = h dropped q w refl
  after_rewrite-Moves (ret (reply buff, q, w)) h =
      after_complete-Moves q w (complete buff more) (h (reply buff) q w refl)
  after_rewrite-Moves panic h = tt

  -- Behind a round of the loop that does not panic the client is logged in exactly where it was before
  -- or the line read has the code 230, with a welcome message of another code.
  pub relay_round-Moves :
      (w : World)
      → is_login p.welcome_msg ≡ false
      → Moves p line (relay_round env config line more p w)
  unfolding relay_round
  relay_round-Moves w h = after_rewrite-Moves (rewrite config line p w) λ r q w' e. (
    (rewrite-Follows config line p w e).login
        ∙ ap (λ b. p.is_loggedin || b) (greet-is_login p line h),
    rewrite-Unmoved config line p w e,
  )
