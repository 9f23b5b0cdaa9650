-- ===== src/Address.antt =====
-- pftp/data_handler.go: the addresses that PORT, EPRT, PASV and EPSV announce, the private ranges,
-- and the choice of a listen port.
pub mod Examples
pub mod Ranges
pub mod Fields
pub mod RoundTrip
use pftp.Base.{
  ℕ, suc, ◌+◌, ◌-◌, ◌*◌, ◌/◌, ◌%◌, ◌^◌, Bool, true, false, not, ◌&&◌, ◌||◌, List, [], ◌∷◌, ◌++◌,
  Option, none, some, ◌≡◌, refl, ltb, leb, int_lt, int_mod, int_quot, int_rem, ◌==◌, if◌then◌else◌,
  Error, Outcome, ret, panic, get_elem?,
}
use pftp.Net.{
  Ip, parse_ip, to4, byte_at, is_loopback, is_link_local_multicast, is_link_local_unicast,
}
use pftp.Text.Decimal.{itoa, atoi}
use pftp.Text.{Bytes, codes, split, join, same, replace, trim_space}

abbrev pub invalid_address : Error
invalid_address = some (codes "invalid data address")

abbrev pub unknown_protocol : Error
unknown_protocol = some (codes "unknown network protocol")

-- `port <= 0 || port > 65535` on an `int`
abbrev pub bad_port : ℕ → Bool
bad_port p = not (int_lt 0 p) || int_lt 65535 p

-- `(port1 << 8) + port2` in 64 bits; the errors of Atoi are dropped
unfoldable pub wire_port : Bytes → Bytes → ℕ
unfolding atoi
wire_port e f = ((atoi e).0 * 256 + (atoi f).0) % int_mod

pub address_of : Bytes → ℕ → Bytes × Bytes × Error
unfolding parse_ip
address_of ip port = elim (parse_ip ip) [
  | none ↦ ([], [], invalid_address)
  | some _ ↦ if bad_port port then ([], [], invalid_address) else (ip, itoa port, none)
]

pub from_fields : List Bytes → Bytes × Bytes × Error
unfolding address_of wire_port join
from_fields (a ∷ (b ∷ (c ∷ (d ∷ (e ∷ (f ∷ [])))))) =
    address_of (join b'.' (a ∷ b ∷ c ∷ d ∷ [])) (wire_port e f)
from_fields _ = ([], [], invalid_address)

-- `parseLineToAddr`: the IP, the port and the error
unfoldable pub parse_line_to_addr : Bytes → Bytes × Bytes × Error
unfolding from_fields split
parse_line_to_addr line = from_fields (split b',' line)

pub from_eprt : List Bytes → Bytes × Bytes × Error
unfolding atoi same parse_ip
from_eprt (_ ∷ (protocol ∷ (ip ∷ (port ∷ (_ ∷ []))))) =
    let (n, ok) = atoi port in
    let checked : Bytes × Bytes × Error = elim (parse_ip ip) [
      | none ↦ ([], [], invalid_address)
      | some _ ↦ (ip, port, none)
    ] in
    if not ok || bad_port n
    then ([], [], invalid_address)
    else if same protocol (codes "1") || same protocol (codes "2")
    then checked
    else ([], [], unknown_protocol)
from_eprt _ = ([], [], invalid_address)

-- `parseEPRTtoAddr`
unfoldable pub parse_eprt_to_addr : Bytes → Bytes × Bytes × Error
unfolding from_eprt split
parse_eprt_to_addr line = from_eprt (split b'|' line)

-- `isPublicIP`; nil is no public address
unfoldable pub is_public_ip : Option Ip → Bool
unfolding is_loopback is_link_local_multicast is_link_local_unicast to4
is_public_ip none = false
is_public_ip (some ip) =
    if is_loopback ip || (is_link_local_multicast ip || is_link_local_unicast ip)
    then false
    else elim (to4 ip) [
      | none ↦ false
      | some q ↦
          if byte_at q 0 == 10
          then false
          else if byte_at q 0 == 172 && (leb 16 (byte_at q 1) && leb (byte_at q 1) 31)
          then false
          else if byte_at q 0 == 192 && byte_at q 1 == 168
          then false
          else true
    ]

-- "h1,h2,h3,h4,p1,p2", as the PORT command to the origin and the 227 reply to the client spell it
unfoldable pub port_args : Bytes → ℕ → Bytes
unfolding replace itoa
port_args ip port =
    replace b'.' (codes ",") ip
    ++ (b',' ∷ (itoa (int_quot port 256) ++ (b',' ∷ itoa (int_rem port 256))))

-- `min` and `max` of a port range; a missing part is an index out of range
unfoldable pub range_bounds : List Bytes → Outcome (ℕ × ℕ)
range_bounds (a ∷ (b ∷ _)) = ret ((atoi (trim_space a)).0, (atoi (trim_space b)).0)
range_bounds _ = panic

-- `min + rand.Intn(max-min)`, where Intn panics unless its argument is positive
unfoldable pub random_port : (ℕ → ℕ) → ℕ × ℕ → Outcome Bytes
random_port intn (lo, hi) =
    let width = (hi + int_mod - lo) % int_mod in
    if lo == hi
    then ret (itoa lo)
    else if int_lt 0 width
    then ret (itoa ((lo + intn width) % int_mod))
    else panic

pub chosen : (ℕ → ℕ) → Outcome (ℕ × ℕ) → Outcome Bytes
unfolding random_port
chosen intn panic = panic
chosen intn (ret b) = random_port intn b

-- `getListenPort`
unfoldable pub get_listen_port : (ℕ → ℕ) → Bytes → Outcome Bytes
unfolding range_bounds chosen split
get_listen_port intn [] = ret []
get_listen_port intn (c ∷ r) = chosen intn (range_bounds (split b'-' (c ∷ r)))

parse_line_tests :
    (parse_line_to_addr (codes "8,8,4,4,7,228") ≡ (codes "8.8.4.4", codes "2020", none))
    × (parse_line_to_addr (codes "8,8,4,4,300,0") ≡ ([], [], invalid_address))
    × (parse_line_to_addr (codes "8,8,4,4,x,21") ≡ (codes "8.8.4.4", codes "21", none))
    × (parse_line_to_addr (codes "8,8,4,07,1") ≡ ([], [], invalid_address))
unfolding parse_line_to_addr itoa
parse_line_tests = (refl, refl, refl, refl)

parse_eprt_tests :
    (parse_eprt_to_addr (codes "|1|8.8.4.4|2020|") ≡ (codes "8.8.4.4", codes "2020", none))
    × (parse_eprt_to_addr (codes "|3|8.8.4.4|2020|") ≡ ([], [], unknown_protocol))
    × (parse_eprt_to_addr (codes "|2|::1|65536|") ≡ ([], [], invalid_address))
unfolding parse_eprt_to_addr
parse_eprt_tests = (refl, refl, refl)

port_args_test : port_args (codes "10.2.3.4") 2020 ≡ codes "10,2,3,4,7,228"
unfolding port_args
port_args_test = refl

get_listen_port_tests :
    (get_listen_port (λ n. n - 1) (codes "100-110") ≡ ret (codes "109"))
    × (get_listen_port (λ n. 0) (codes " 7 - 7 ") ≡ ret (codes "7"))
    × (get_listen_port (λ n. 0) (codes "21") ≡ panic)
unfolding get_listen_port itoa atoi trim_space
get_listen_port_tests = (refl, refl, refl)
