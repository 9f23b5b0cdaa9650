-- ===== src/Address/RoundTrip.antt =====
-- pftp/data_handler.go: parseLineToAddr on the addresses that pftp itself writes.
use pftp.Base.{
  ℕ, ◌/◌, ◌%◌, ◌<◌, [], ◌∷◌, ◌++◌, append_assoc, none, some, ◌≡◌, refl, sym, ◌∙◌, arith, ◌⊎◌, All,
  inl, ap, int_quot, int_rem,
}
use pftp.Address.{wire_port, address_of, from_fields, parse_line_to_addr, port_args}
use pftp.Net.Quad.{Dotted, parse_ipv4-Dotted, parse_ip-parse_ipv4}
use pftp.Net.{parse_ip, parse_ipv4}
use pftp.Text.Decimal.{itoa, atoi-itoa, itoa-IsNumeral, IsDigit, IsNumeral}
use pftp.Text.Split.{Lacks, split-append, split-Lacks, replace-append, replace-Lacks}
use pftp.Text.{Bytes, split, join, replace}

pub numeral-Lacks : (b : ℕ) (s : Bytes) → (b < b'0') ⊎ (b'9' < b) → All IsDigit s → Lacks b s
numeral-Lacks b [] h d = tt
numeral-Lacks b (c ∷ s) h d = ((λ e. ground arith), numeral-Lacks b s h d.1)

split_six :
    {a b c d e f : Bytes}
    → IsNumeral a
    → IsNumeral b
    → IsNumeral c
    → IsNumeral d
    → IsNumeral e
    → IsNumeral f
    → split b',' (a ++ (b',' ∷ (b ++ (b',' ∷ (c ++ (b',' ∷ (d ++ (b',' ∷ (e ++ (b',' ∷ f))))))))))
      ≡ a ∷ b ∷ c ∷ d ∷ e ∷ f ∷ []
split_six {a} {b} {c} {d} {e} {f} ha hb hc hd he hf =
    let no_comma = λ (s : Bytes) (h : IsNumeral s). numeral-Lacks b',' s (inl (omega arith)) h.1 in
    rw (
      split-append b',' a _ (no_comma a ha),
      split-append b',' b _ (no_comma b hb),
      split-append b',' c _ (no_comma c hc),
      split-append b',' d _ (no_comma d hd),
      split-append b',' e _ (no_comma e he),
      split-Lacks b',' f (no_comma f hf),
    )

replace_dots :
    {a b c d : Bytes}
    → IsNumeral a
    → IsNumeral b
    → IsNumeral c
    → IsNumeral d
    → replace b'.' (b',' ∷ []) (a ++ (b'.' ∷ (b ++ (b'.' ∷ (c ++ (b'.' ∷ d))))))
      ≡ a ++ (b',' ∷ (b ++ (b',' ∷ (c ++ (b',' ∷ d)))))
replace_dots {a} {b} {c} {d} ha hb hc hd =
    let no_dot = λ (s : Bytes) (h : IsNumeral s). numeral-Lacks b'.' s (inl (omega arith)) h.1 in
    rw (
      replace-append b'.' b',' a _ (no_dot a ha),
      replace-append b'.' b',' b _ (no_dot b hb),
      replace-append b'.' b',' c _ (no_dot c hc),
      replace-Lacks b'.' b',' d (no_dot d hd),
    )

wire_port-itoa : (p : ℕ) → p < 65536 → wire_port (itoa (p / 256)) (itoa (p % 256)) ≡ p
unfolding wire_port
wire_port-itoa p h =
    rw (atoi-itoa (p / 256) (omega arith), atoi-itoa (p % 256) (omega arith)) (omega arith)

port_args-Dotted :
    (ip : Bytes) (p : ℕ) (w : Dotted ip)
    → p < 65536
    → port_args ip p
      ≡ w.a
        ++ (b','
            ∷ (w.b
                ++ (b','
                    ∷ (w.c
                        ++ (b','
                            ∷ (w.d ++ (b',' ∷ (itoa (p / 256) ++ (b',' ∷ itoa (p % 256))))))))))
unfolding port_args
port_args-Dotted ip p w h =
    let quot : int_quot p 256 ≡ p / 256 = ground arith in
    let rem : int_rem p 256 ≡ p % 256 = ground arith in
    let spell = λ (t : Bytes).
      replace b'.' (b',' ∷ []) t ++ (b',' ∷ (itoa (p / 256) ++ (b',' ∷ itoa (p % 256)))) in
    let plain : port_args ip p ≡ spell ip =
      λ i. replace b'.' (b',' ∷ []) ip ++ (b',' ∷ (itoa (quot i) ++ (b',' ∷ itoa (rem i)))) in
    plain
    ∙ ap spell w.spelled
    ∙ rw (replace_dots w.a_numeral w.b_numeral w.c_numeral w.d_numeral) (simp append_assoc)

join_dots :
    (a b c d : Bytes)
    → join b'.' (a ∷ b ∷ c ∷ d ∷ []) ≡ a ++ (b'.' ∷ (b ++ (b'.' ∷ (c ++ (b'.' ∷ d)))))
unfolding join
join_dots a b c d = refl

from_fields_six :
    (a b c d e f : Bytes)
    → from_fields (a ∷ b ∷ c ∷ d ∷ e ∷ f ∷ [])
      ≡ address_of (join b'.' (a ∷ b ∷ c ∷ d ∷ [])) (wire_port e f)
unfolding from_fields
from_fields_six a b c d e f = refl

address_of-valid :
    (ip : Bytes) (p : ℕ) {q : Bytes}
    → parse_ip ip ≡ some q
    → 0 < p
    → p < 65536
    → address_of ip p ≡ (ip, itoa p, none)
unfolding address_of
address_of-valid ip p h low high = ground arith

-- For every text that the IPv4 parser accepts and every port between 1 and 65535, the six fields
-- that pftp writes (in PORT to the origin, in the 227 reply to the client) are read back by
-- parseLineToAddr as that IP and the decimal print of that port, with no error.
pub parse_line_to_addr-port_args :
    (ip : Bytes) (p : ℕ) {q : Bytes}
    → parse_ipv4 ip ≡ some q
    → 0 < p
    → p < 65536
    → parse_line_to_addr (port_args ip p) ≡ (ip, itoa p, none)
parse_line_to_addr-port_args ip p {q = q} h low high =
    let w = parse_ipv4-Dotted ip h in
    let hi = itoa-IsNumeral (p / 256) (omega arith) in
    let lo = itoa-IsNumeral (p % 256) (omega arith) in
    let cut_up = split_six w.a_numeral w.b_numeral w.c_numeral w.d_numeral hi lo in
    let ip_is = join_dots w.a w.b w.c w.d ∙ sym w.spelled in
    unfold parse_line_to_addr in
    rw (port_args-Dotted ip p w high, cut_up, from_fields_six, ip_is, wire_port-itoa p high)
      (address_of-valid ip p (parse_ip-parse_ipv4 ip q h) low high)
