-- ===== src/Data/Announce/Target.antt =====
-- pftp/data_handler.go: the addresses at which a data connection may be aimed.
use pftp.Address.{invalid_address, is_public_ip, parse_line_to_addr, parse_eprt_to_addr}
use pftp.Base.{
  Bool, true, false, none, some, ◌≡◌, ◌⊎◌, ◌≢◌, arith, refl, sym, ◌∙◌, Error, Outcome, ret, panic,
  >>=-eq-ret, ◌>>=◌, inl, inr, Option-cases, subst,
}
use pftp.Config.{Config}
use pftp.Data.Announce.{
  argument, aim, aim_client, between, aim_origin, set_origin_port, parse_port_command,
  parse_eprt_command, parse_pasv_response, parse_epsv_response,
}
use pftp.Data.{Connector, DataHandler}
use pftp.Net.{parse_ip}
use pftp.Text.Split.{index-count, last_index-count}
use pftp.Text.{Bytes, count}

-- `after` is `before` but for the remote address, whose IP is public or the peer's own.
pub record Aims (ignore : Bool) (before after : Connector) : Type 0 where
  pub ip : Bytes
  pub port : Bytes
  pub after_is : after ≡ record before { remote_ip = ip; remote_port = port }
  pub safe : (is_public_ip (parse_ip ip) ≡ true) ⊎ (ip ≡ before.original_remote_ip)
  pub own : ignore ≡ true → ip ≡ before.original_remote_ip

aim-Aims :
    (ignore : Bool) (c : Connector) (ip port : Bytes) (e : Error)
    → Aims ignore c (aim ignore c (ip, port, e))
aim-Aims ignore c ip port e = record {
  ip = (aim ignore c (ip, port, e)).remote_ip;
  port = port;
  after_is = unfold aim in refl;
  safe = unfold aim in ground arith;
  own = unfold aim in λ h. ground arith;
}

abbrev pub AimsClient : DataHandler → DataHandler → Type 0
AimsClient d d' =
    Aims false d.client_conn d'.client_conn × (d' ≡ record d { client_conn = d'.client_conn })

aim_client-AimsClient :
    (d : DataHandler) (a : Bytes × Bytes × Error) {d' : DataHandler} {e : Error}
    → ret (aim_client d a) ≡ ret (d', e)
    → AimsClient d d'
aim_client-AimsClient d (ip, port, f) {d'} h =
    let moved = record d { client_conn = aim false d.client_conn (ip, port, f) } in
    let e : moved ≡ d' = ground arith in
    subst (AimsClient d) e (aim-Aims false d.client_conn ip port f, refl)

port_step :
    (line : Bytes) (d : DataHandler)
    → parse_port_command line d ≡ (argument line >>= λ a. ret (aim_client d (parse_line_to_addr a)))
unfolding parse_port_command
port_step line d = refl

eprt_step :
    (line : Bytes) (d : DataHandler)
    → parse_eprt_command line d ≡ (argument line >>= λ a. ret (aim_client d (parse_eprt_to_addr a)))
unfolding parse_eprt_command
eprt_step line d = refl

-- A PORT or an EPRT command of the client, also one that does not parse, changes nothing of the data
-- handler but the client connector's remote address, and leaves there a public IP or the client's
-- own: the proxy cannot be aimed at a private address.
pub parse_port_command-AimsClient :
    (line : Bytes) (d : DataHandler) {d' : DataHandler} {e : Error}
    → (parse_port_command line d ≡ ret (d', e)) ⊎ (parse_eprt_command line d ≡ ret (d', e))
    → AimsClient d d'
parse_port_command-AimsClient line d (inl h) =
    let (a, read, aimed) =
      >>=-eq-ret (argument line) (λ a. ret (aim_client d (parse_line_to_addr a)))
        (sym (port_step line d) ∙ h) in
    aim_client-AimsClient d (parse_line_to_addr a) aimed
parse_port_command-AimsClient line d (inr h) =
    let (a, read, aimed) =
      >>=-eq-ret (argument line) (λ a. ret (aim_client d (parse_eprt_to_addr a)))
        (sym (eprt_step line d) ∙ h) in
    aim_client-AimsClient d (parse_eprt_to_addr a) aimed

abbrev pub AimsOrigin : Bool → DataHandler → DataHandler → Type 0
AimsOrigin ignore d d' =
    Aims ignore d.origin_conn d'.origin_conn × (d' ≡ record d { origin_conn = d'.origin_conn })

aim_origin-AimsOrigin :
    (ignore : Bool) (d : DataHandler) (inside : Outcome Bytes) {d' : DataHandler} {e : Error}
    → aim_origin ignore d inside ≡ ret (d', e)
    → AimsOrigin ignore d d'
aim_origin-AimsOrigin ignore d panic h = absurd (unfold aim_origin in cc)
aim_origin-AimsOrigin ignore d (ret text) {d'} h =
    let a = parse_line_to_addr text in
    let moved = record d { origin_conn = aim ignore d.origin_conn a } in
    let e : moved ≡ d' = unfold aim_origin in ground arith in
    subst (AimsOrigin ignore d) e (aim-Aims ignore d.origin_conn a.0 a.1 a.2, refl)

module _ (config : Config) (line : Bytes) (d : DataHandler) where
  pasv_none : between line ≡ none → parse_pasv_response config line d ≡ ret (d, invalid_address)
  unfolding parse_pasv_response
  pasv_none h = rw (h, parse_pasv_response)

  pub pasv_some :
      {inside : Outcome Bytes}
      → between line ≡ some inside
      → parse_pasv_response config line d ≡ aim_origin config.ignore_passive_ip d inside
  unfolding parse_pasv_response
  pasv_some h = rw (h, parse_pasv_response)

-- a line with an opening and a closing bracket
abbrev pub HasBrackets : Bytes → Type 0
HasBrackets line = (count b'(' line ≢ 0) × (count b')' line ≢ 0)

-- `between` finds something exactly where both brackets are
between-none : (line : Bytes) → between line ≡ none → ¬ HasBrackets line
unfolding between
between-none line h = λ k. ground (arith, index-count b'(' line, last_index-count b')' line, k)

between-some :
    (line : Bytes) {inside : Outcome Bytes} → between line ≡ some inside → HasBrackets line
unfolding between
between-some line h = ground (arith, index-count b'(' line, last_index-count b')' line)

-- A 227 reply of the origin with an opening and a closing bracket changes nothing of the data handler
-- but the origin connector's remote address, if parsePASVresponse does not panic. The IP there is
-- public or the origin's own, and always the origin's own where the configuration says to ignore the
-- announced one. A reply that lacks one of the brackets is an error and changes nothing.
pub parse_pasv_response-AimsOrigin :
    (config : Config) (line : Bytes) (d : DataHandler) {d' : DataHandler} {e : Error}
    → parse_pasv_response config line d ≡ ret (d', e)
    → (HasBrackets line × AimsOrigin config.ignore_passive_ip d d')
      ⊎ ((¬ HasBrackets line) × ((d' ≡ d) × (e ≢ none)))
parse_pasv_response-AimsOrigin config line d {d'} {e} h = elim (Option-cases (between line)) [
  | inl missing ↦ inr (between-none line missing, ground (arith, pasv_none config line d missing))
  | inr (inside, there) ↦ inl (
    between-some line there,
    aim_origin-AimsOrigin config.ignore_passive_ip d inside
        (sym (pasv_some config line d there) ∙ h),
  )
]

epsv_kept :
    (d : DataHandler) (inside : Outcome Bytes) {d' : DataHandler} {e : Error}
    → set_origin_port d inside ≡ ret (d', e)
    → d'.origin_conn.remote_ip ≡ d.origin_conn.remote_ip
unfolding set_origin_port
epsv_kept d panic h = cc
epsv_kept d (ret text) h = ground arith

epsv_none :
    (line : Bytes) (d : DataHandler)
    → between line ≡ none
    → parse_epsv_response line d ≡ ret (d, invalid_address)
unfolding parse_epsv_response
epsv_none line d h = rw (h, parse_epsv_response)

epsv_some :
    (line : Bytes) (d : DataHandler) {inside : Outcome Bytes}
    → between line ≡ some inside
    → parse_epsv_response line d ≡ set_origin_port d inside
unfolding parse_epsv_response
epsv_some line d h = rw (h, parse_epsv_response)

-- parseEPSVresponse never sets the origin's IP.
pub parse_epsv_response-remote_ip :
    (line : Bytes) (d : DataHandler) {d' : DataHandler} {e : Error}
    → parse_epsv_response line d ≡ ret (d', e)
    → d'.origin_conn.remote_ip ≡ d.origin_conn.remote_ip
parse_epsv_response-remote_ip line d {d'} {e} h = elim (Option-cases (between line)) [
  | inl missing ↦ ground (arith, epsv_none line d missing)
  | inr (inside, there) ↦ epsv_kept d inside (sym (epsv_some line d there) ∙ h)
]
