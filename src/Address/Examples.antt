-- ===== src/Address/Examples.antt =====
-- Examples of the data addresses of pftp/data_handler.go.
use pftp.Address.{parse_line_to_addr, parse_eprt_to_addr, is_public_ip, port_args}
use pftp.Address.Ranges.{v4, number, Blocked, is_public_ip-Blocked}
use pftp.Address.RoundTrip.{parse_line_to_addr-port_args}
use pftp.Base.{[], ◌∷◌, none, some, ◌≡◌, refl, arith, false, ◌↔◌}
use pftp.Net.{parse_ipv4}
use pftp.Text.{codes}
use pftp.Text.Decimal.{itoa}

line_parses : parse_line_to_addr (codes "8,8,4,4,7,228") ≡ (codes "8.8.4.4", codes "2020", none)
unfolding parse_line_to_addr itoa
line_parses = refl

eprt_parses : parse_eprt_to_addr (codes "|2|::1|2020|") ≡ (codes "::1", codes "2020", none)
unfolding parse_eprt_to_addr
eprt_parses = refl

is_public_ip-Blocked_example :
    (is_public_ip (some (v4 172 20 0 1)) ≡ false) ↔ Blocked (number 172 20 0 1)
is_public_ip-Blocked_example =
    is_public_ip-Blocked 172 20 0 1 (omega arith) (omega arith) (omega arith) (omega arith)

ip_parses : parse_ipv4 (codes "10.2.3.40") ≡ some (10 ∷ 2 ∷ 3 ∷ 40 ∷ [])
unfolding parse_ipv4
ip_parses = refl

parse_line_to_addr-port_args_example :
    parse_line_to_addr (port_args (codes "10.2.3.40") 2020) ≡ (codes "10.2.3.40", itoa 2020, none)
parse_line_to_addr-port_args_example =
    parse_line_to_addr-port_args (codes "10.2.3.40") 2020 ip_parses (omega arith) (omega arith)
