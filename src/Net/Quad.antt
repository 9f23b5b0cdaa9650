-- ===== src/Net/Quad.antt =====
-- What a text that ParseIP takes for an IPv4 address looks like.
use pftp.Base.{
  ℕ, ◌+◌, ◌-◌, ◌*◌, List, [], ◌∷◌, ◌++◌, none, some, ◌≡◌, ◌≢◌, refl, sym, subst, arith, All,
}
use pftp.Net.{octet_from, octet, quad, parse_ipv4, parse_netip, parse_ip}
use pftp.Text.Decimal.{IsDigit, IsNumeral}
use pftp.Text.Split.{join-split}
use pftp.Text.{Bytes, split, join}

octet_from-IsDigit : (s : Bytes) (val : ℕ) → octet_from val s ≢ none → All IsDigit s
unfolding octet_from
octet_from-IsDigit [] val h = tt
octet_from-IsDigit (c ∷ s) val h = ground (arith, octet_from-IsDigit s (val * 10 + (c - b'0')))

octet-IsNumeral : (s : Bytes) → octet s ≢ none → IsNumeral s
unfolding octet
octet-IsNumeral [] h = absurd (h refl)
octet-IsNumeral (c ∷ []) h = (λ e. cc, octet_from-IsDigit (c ∷ []) 0 h)
octet-IsNumeral (c ∷ (d ∷ s)) h = (λ e. cc, ground (arith, octet_from-IsDigit (c ∷ d ∷ s) 0))

-- four numerals between dots
pub record Dotted (s : Bytes) : Type 0 where
  pub a : Bytes
  pub b : Bytes
  pub c : Bytes
  pub d : Bytes
  pub spelled : s ≡ a ++ (b'.' ∷ (b ++ (b'.' ∷ (c ++ (b'.' ∷ d)))))
  pub a_numeral : IsNumeral a
  pub b_numeral : IsNumeral b
  pub c_numeral : IsNumeral c
  pub d_numeral : IsNumeral d

quad-Dotted : (ps : List Bytes) (q : Bytes) → quad ps ≡ some q → Dotted (join b'.' ps)
unfolding quad
quad-Dotted [] q h = cc
quad-Dotted (a ∷ []) q h = cc
quad-Dotted (a ∷ (b ∷ [])) q h = cc
quad-Dotted (a ∷ (b ∷ (c ∷ []))) q h = cc
quad-Dotted (a ∷ (b ∷ (c ∷ (d ∷ (e ∷ r))))) q h = cc
quad-Dotted (a ∷ (b ∷ (c ∷ (d ∷ [])))) q h = record {
  a = a;
  b = b;
  c = c;
  d = d;
  spelled = unfold join in refl;
  a_numeral = ground (arith, octet-IsNumeral a);
  b_numeral = ground (arith, octet-IsNumeral b);
  c_numeral = ground (arith, octet-IsNumeral c);
  d_numeral = ground (arith, octet-IsNumeral d);
}

pub parse_ipv4-Dotted : (s : Bytes) {q : Bytes} → parse_ipv4 s ≡ some q → Dotted s
parse_ipv4-Dotted s {q = q} h =
    rw (join-split b'.' s) at (quad-Dotted (split b'.' s) q (unfold parse_ipv4 in h))

abbrev pub mapped : Bytes → Bytes
mapped q = 0 ∷ 0 ∷ 0 ∷ 0 ∷ 0 ∷ 0 ∷ 0 ∷ 0 ∷ 0 ∷ 0 ∷ 255 ∷ 255 ∷ q

parse_netip-append :
    (whole p rest : Bytes) (q : Bytes)
    → All IsDigit p
    → parse_ipv4 whole ≡ some q
    → parse_netip whole (p ++ (b'.' ∷ rest)) ≡ some (mapped q)
unfolding parse_netip
parse_netip-append whole [] rest q h e = ground arith
parse_netip-append whole (c ∷ p) rest q h e =
    ground (arith, parse_netip-append whole p rest q h.1 e)

-- A text that the IPv4 parser reads is read the same by ParseIP.
pub parse_ip-parse_ipv4 : (s q : Bytes) → parse_ipv4 s ≡ some q → parse_ip s ≡ some (mapped q)
unfolding parse_ip
parse_ip-parse_ipv4 s q h =
    let e = parse_ipv4-Dotted s h in
    subst (λ t. parse_netip s t ≡ some (mapped q)) (sym e.spelled)
      (parse_netip-append s e.a _ q e.a_numeral.1 h)
