-- ===== src/Data/Announce.antt =====
-- pftp/data_handler.go: the commands and replies that name a data address.
pub mod Target
pub mod Epsv
use pftp.Address.{invalid_address, bad_port, parse_line_to_addr, parse_eprt_to_addr, is_public_ip}
use pftp.Base.{
  ℕ, suc, ◌+◌, ◌-◌, Bool, true, false, not, ◌||◌, List, [], ◌∷◌, ◌++◌, Option, none, some, ◌≡◌,
  refl, ltb, ◌==◌, if◌then◌else◌, Error, Outcome, ret, panic, ◌>>=◌, get_elem?, take, drop,
}
use pftp.Config.{Config}
use pftp.Data.{Connector, DataHandler}
use pftp.Net.{parse_ip}
use pftp.Text.Decimal.{atoi}
use pftp.Text.{Bytes, codes, split, trim, is_crlf, index, last_index}

-- `strings.Split(strings.Trim(line, "\r\n"), " ")[1]`, which panics where there is no space
pub argument : Bytes → Outcome Bytes
unfolding split trim
argument line = elim (get_elem? (split b' ' (trim is_crlf line)) 1) [
  | none ↦ panic
  | some a ↦ ret a
]

-- the address as parsed, with the peer's own IP in place of one that is not public
unfoldable pub aim : Bool → Connector → Bytes × Bytes × Error → Connector
aim ignore c (ip, port, _) = record c {
  remote_ip = if not (is_public_ip (parse_ip ip)) || ignore then c.original_remote_ip else ip;
  remote_port = port;
}

abbrev pub aim_client : DataHandler → Bytes × Bytes × Error → DataHandler × Error
aim_client d a = (record d { client_conn = aim false d.client_conn a }, a.2)

-- `parsePORTcommand`
unfoldable pub parse_port_command : Bytes → DataHandler → Outcome (DataHandler × Error)
unfolding argument aim
parse_port_command line d = do a ← argument line; ret (aim_client d (parse_line_to_addr a))

-- `parseEPRTcommand`
unfoldable pub parse_eprt_command : Bytes → DataHandler → Outcome (DataHandler × Error)
unfolding argument aim
parse_eprt_command line d = do a ← argument line; ret (aim_client d (parse_eprt_to_addr a))

-- `line[start+1 : end]`, which panics where the ends cross
abbrev pub slice : Bytes → ℕ → ℕ → Outcome Bytes
slice line start end =
    if ltb end (start + 1) then panic else ret (take (end - (start + 1)) (drop (start + 1) line))

-- the text between the first "(" and the last ")"; `none` where one of them is missing
unfoldable pub between : Bytes → Option (Outcome Bytes)
unfolding index last_index
between line = elim (index b'(' line) [
  | none ↦ none
  | some start ↦ elim (last_index b')' line) [
    | none ↦ none
    | some end ↦ some (slice line start end)
  ]
]

unfoldable pub aim_origin : Bool → DataHandler → Outcome Bytes → Outcome (DataHandler × Error)
unfolding aim
aim_origin ignore d inside = do
  text ← inside
  let a = parse_line_to_addr text
  ret (record d { origin_conn = aim ignore d.origin_conn a }, a.2)

-- `parsePASVresponse`
unfoldable pub parse_pasv_response : Config → Bytes → DataHandler → Outcome (DataHandler × Error)
unfolding between aim_origin
parse_pasv_response config line d = elim (between line) [
  | none ↦ ret (d, invalid_address)
  | some inside ↦ aim_origin config.ignore_passive_ip d inside
]

pub set_origin_port : DataHandler → Outcome Bytes → Outcome (DataHandler × Error)
unfolding trim
set_origin_port d inside = do
  text ← inside
  let port = trim (λ c. c == b'|') text
  ret (
      if bad_port (atoi port).0
      then (d, invalid_address)
      else (record d { origin_conn = record (d.origin_conn) { remote_port = port } }, none))

-- `parseEPSVresponse`
unfoldable pub parse_epsv_response : Bytes → DataHandler → Outcome (DataHandler × Error)
unfolding between set_origin_port
parse_epsv_response line d = elim (between line) [
  | none ↦ ret (d, invalid_address)
  | some inside ↦ set_origin_port d inside
]
