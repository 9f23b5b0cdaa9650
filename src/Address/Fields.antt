-- ===== src/Address/Fields.antt =====
-- pftp/data_handler.go: the fields of the arguments of PORT, PASV and EPRT.
use pftp.Base.{ℕ, ◌≤◌, ◌<◌, ◌^◌, true, List, [], ◌∷◌, none, ◌≡◌, ◌≢◌, ◌⊎◌, refl, arith}
use pftp.Address.{
  wire_port, address_of, from_fields, parse_line_to_addr, from_eprt, parse_eprt_to_addr,
}
use pftp.Net.{parse_ip}
use pftp.Text.Decimal.{itoa, atoi, atoi-lt}
use pftp.Text.Equal.{same_iff}
use pftp.Text.Split.{join-split}
use pftp.Text.{Bytes, codes, join, split}

-- `line` is six fields between commas: an IP address in the first four, a port in the others.
pub record Announces (line ip port : Bytes) : Type 0 where
  pub a : Bytes
  pub b : Bytes
  pub c : Bytes
  pub d : Bytes
  pub e : Bytes
  pub f : Bytes
  pub spelled : line ≡ join b',' (a ∷ b ∷ c ∷ d ∷ e ∷ f ∷ [])
  pub ip_is : ip ≡ join b'.' (a ∷ b ∷ c ∷ d ∷ [])
  pub ip_valid : parse_ip ip ≢ none
  pub port_is : port ≡ itoa (wire_port e f)
  pub port_positive : 0 < wire_port e f
  pub port_bound : wire_port e f ≤ 65535

module _ (ip : Bytes) (n : ℕ) {ip' port' : Bytes} where
  address_of-ok :
      n < 2 ^ 64
      → address_of ip n ≡ (ip', port', none)
      → (ip' ≡ ip) × (parse_ip ip ≢ none) × (port' ≡ itoa n) × (0 < n) × (n ≤ 65535)
  unfolding address_of
  address_of-ok b h = ground arith

wire_port-lt : (e f : Bytes) → wire_port e f < 2 ^ 64
unfolding wire_port
wire_port-lt e f = omega arith

from_fields-Announces :
    (ps : List Bytes) {ip port : Bytes}
    → from_fields ps ≡ (ip, port, none)
    → Announces (join b',' ps) ip port
unfolding from_fields
from_fields-Announces [] h = cc
from_fields-Announces (a ∷ []) h = cc
from_fields-Announces (a ∷ (b ∷ [])) h = cc
from_fields-Announces (a ∷ (b ∷ (c ∷ []))) h = cc
from_fields-Announces (a ∷ (b ∷ (c ∷ (d ∷ [])))) h = cc
from_fields-Announces (a ∷ (b ∷ (c ∷ (d ∷ (e ∷ []))))) h = cc
from_fields-Announces (a ∷ (b ∷ (c ∷ (d ∷ (e ∷ (f ∷ (g ∷ r))))))) h = cc
from_fields-Announces (a ∷ (b ∷ (c ∷ (d ∷ (e ∷ (f ∷ [])))))) h =
    let (same_ip, valid, port_is, low, high) =
      address_of-ok (join b'.' (a ∷ b ∷ c ∷ d ∷ [])) (wire_port e f) (wire_port-lt e f) h in
    record {
      a = a;
      b = b;
      c = c;
      d = d;
      e = e;
      f = f;
      spelled = refl;
      ip_is = same_ip;
      ip_valid = rw same_ip valid;
      port_is = port_is;
      port_positive = low;
      port_bound = high;
    }

-- When parseLineToAddr returns no error, the line is six fields between commas; the IP is the first
-- four joined by dots and one that ParseIP accepts; the port is the decimal print of
-- (fifth << 8) + sixth, which lies between 1 and 65535.
pub parse_line_to_addr-Announces :
    (line : Bytes) {ip port : Bytes}
    → parse_line_to_addr line ≡ (ip, port, none)
    → Announces line ip port
unfolding parse_line_to_addr
parse_line_to_addr-Announces line h =
    rw (join-split b',' line) at (from_fields-Announces (split b',' line) h)

-- `line` is five fields between bars: the protocol 1 or 2, an IP address and a port.
pub record AnnouncesEprt (line ip port : Bytes) : Type 0 where
  pub before : Bytes
  pub protocol : Bytes
  pub behind : Bytes
  pub number : ℕ
  pub spelled : line ≡ join b'|' (before ∷ protocol ∷ ip ∷ port ∷ behind ∷ [])
  pub protocol_is : (protocol ≡ codes "1") ⊎ (protocol ≡ codes "2")
  pub ip_valid : parse_ip ip ≢ none
  pub port_is : atoi port ≡ (number, true)
  pub port_positive : 0 < number
  pub port_bound : number ≤ 65535

from_eprt-AnnouncesEprt :
    (ps : List Bytes) {ip port : Bytes}
    → from_eprt ps ≡ (ip, port, none)
    → AnnouncesEprt (join b'|' ps) ip port
unfolding from_eprt
from_eprt-AnnouncesEprt [] h = cc
from_eprt-AnnouncesEprt (a ∷ []) h = cc
from_eprt-AnnouncesEprt (a ∷ (b ∷ [])) h = cc
from_eprt-AnnouncesEprt (a ∷ (b ∷ (c ∷ []))) h = cc
from_eprt-AnnouncesEprt (a ∷ (b ∷ (c ∷ (d ∷ [])))) h = cc
from_eprt-AnnouncesEprt (a ∷ (b ∷ (c ∷ (d ∷ (e ∷ (f ∷ r)))))) h = cc
from_eprt-AnnouncesEprt (a ∷ (b ∷ (c ∷ (d ∷ (e ∷ []))))) {ip} {port} h =
    let parts : (c ≡ ip)
        × (d ≡ port)
        × ((b ≡ codes "1") ⊎ (b ≡ codes "2"))
        × (parse_ip c ≢ none)
        × (atoi d ≡ ((atoi d).0, true))
        × (0 < (atoi d).0)
        × ((atoi d).0 ≤ 65535) =
      ground (arith, same_iff b (codes "1"), same_iff b (codes "2"), atoi-lt d) in
    let (c_is, d_is, protocol_is, valid, number_is, low, high) = parts in
    record {
      before = a;
      protocol = b;
      behind = e;
      number = (atoi d).0;
      spelled = λ i. join b'|' (a ∷ b ∷ c_is i ∷ d_is i ∷ e ∷ []);
      protocol_is = protocol_is;
      ip_valid = rw (← c_is) valid;
      port_is = rw (← d_is) number_is;
      port_positive = low;
      port_bound = high;
    }

-- When parseEPRTtoAddr returns no error, the line is five fields between bars: the protocol 1 or 2,
-- then the returned IP, one that ParseIP accepts, then the returned port, a decimal number between
-- 1 and 65535.
pub parse_eprt_to_addr-AnnouncesEprt :
    (line : Bytes) {ip port : Bytes}
    → parse_eprt_to_addr line ≡ (ip, port, none)
    → AnnouncesEprt line ip port
unfolding parse_eprt_to_addr
parse_eprt_to_addr-AnnouncesEprt line h =
    rw (join-split b'|' line) at (from_eprt-AnnouncesEprt (split b'|' line) h)
