-- ===== src/Proxy/Replies.antt =====
-- pftp/proxy.go: the replies that pftp writes to the client itself.
use pftp.Address.RoundTrip.{parse_line_to_addr-port_args}
use pftp.Address.{port_args, is_public_ip}
use pftp.Net.{parse_ip, parse_ipv4}
use pftp.Text.Decimal.{itoa}
use pftp.Data.Announce.Target.{pasv_some}
use pftp.Base.{
  ℕ, ◌+◌, ◌<◌, true, false, not, ◌||◌, [], ◌∷◌, ◌++◌, none, some, ◌≡◌, refl, ◌∙◌, ap, arith,
  if◌then◌else◌, ret, length, take, ltb, ◌-◌,
}
use pftp.Command.{code_of}
use pftp.Config.{Config}
use pftp.Data.Announce.{parse_pasv_response, between, slice, aim_origin}
use pftp.Data.{DataHandler}
use pftp.Proxy.{Proxy, greet, note_login, rewrite, reply, pasv_reply}
use pftp.Text.Split.{index-Lacks, last_index-Lacks}
use pftp.Text.{Bytes, index, last_index, codes, same, contains}
use pftp.World.{World}

take-length-append : (s t : Bytes) → take (length s) (s ++ t) ≡ s
take-length-append [] t = refl
take-length-append (c ∷ s) t = ap (◌∷◌ c) (take-length-append s t)

abbrev pasv_lead : Bytes
pasv_lead = codes "227 Entering Passive Mode "

between-slice :
    (line : Bytes) (start end : ℕ)
    → index b'(' line ≡ some start
    → last_index b')' line ≡ some end
    → between line ≡ some (slice line start end)
unfolding between
between-slice line start end h k = rw (h, k, between)

slice-pasv :
    (args : Bytes)
    → slice (pasv_lead ++ (b'(' ∷ (args ++ codes ").\r\n"))) 26 (length args + 27) ≡ ret args
slice-pasv args =
    let inside : length args + 27 - 27 ≡ length args = omega arith in
    let enough : ltb (length args + 27) 27 ≡ false = ground arith in
    rw (enough, inside) (ap ret (take-length-append args (codes ").\r\n")))

-- The text in the brackets of a 227 reply.
between-pasv :
    (args : Bytes) → between (pasv_lead ++ (b'(' ∷ (args ++ codes ").\r\n"))) ≡ some (ret args)
between-pasv args =
    between-slice (pasv_lead ++ (b'(' ∷ (args ++ codes ").\r\n"))) 26 (length args + 27)
      (index-Lacks b'(' pasv_lead (args ++ codes ").\r\n") (omega arith))
      (last_index-Lacks b')' (pasv_lead ++ (b'(' ∷ args)) (codes ".\r\n") (omega arith)
        ∙ ap some (omega arith))
    ∙ ap some (slice-pasv args)

module _ (config : Config) (line : Bytes) (p : Proxy) (w : World) where
  greet_code :
      p.is_loggedin ≡ false
      → same (code_of line) (codes "220") ≡ true
      → greet p line ≡ p.welcome_msg
  unfolding greet
  greet_code out code = ground arith

  note_login_other :
      (buff : Bytes) → same (code_of buff) (codes "230") ≡ false → note_login buff p ≡ p
  unfolding note_login
  note_login_other buff other = rw other

  -- Before a login every line with the code 220 becomes the configured welcome message.
  greeting :
      p.is_loggedin ≡ false
      → same (code_of line) (codes "220") ≡ true
      → contains p.welcome_msg (codes "500 PROXY") ≡ false
      → same (code_of p.welcome_msg) (codes "230") ≡ false
      → rewrite config line p w ≡ ret (reply p.welcome_msg, p, w)
  unfolding rewrite
  greeting out code no_proxy no_login =
      rw (greet_code out code, note_login_other p.welcome_msg no_login, no_proxy) (ground arith)

pasv_step :
    (config : Config) (args : Bytes) (d : DataHandler)
    → parse_pasv_response config (pasv_lead ++ (b'(' ∷ (args ++ codes ").\r\n"))) d
      ≡ aim_origin config.ignore_passive_ip d (ret args)
pasv_step config args d =
    pasv_some config (pasv_lead ++ (b'(' ∷ (args ++ codes ").\r\n"))) d (between-pasv args)

-- The 227 reply that pftp writes to a client, for an IPv4 masquerade address and a port between 1 and
-- 65535, is read back by parsePASVresponse with no error: the origin connector is aimed at that
-- address and port, or at the peer's own address where the announced one is private or ignored.
pub parse_pasv_response-pasv_reply :
    (config : Config) (ip : Bytes) (port : ℕ) (d : DataHandler) {q : Bytes}
    → parse_ipv4 ip ≡ some q
    → 0 < port
    → port < 65536
    → parse_pasv_response config (pasv_reply ip port) d
      ≡ ret (
        record d {
          origin_conn = record (d.origin_conn) {
            remote_ip =
                if not (is_public_ip (parse_ip ip)) || config.ignore_passive_ip
                then d.origin_conn.original_remote_ip
                else ip;
            remote_port = itoa port;
          };
        },
        none,
      )
parse_pasv_response-pasv_reply config ip port d {q} h low high =
    let read = parse_line_to_addr-port_args ip port h low high in
    unfold pasv_reply in (pasv_step config (port_args ip port) d ∙ unfold aim_origin in rw read)
