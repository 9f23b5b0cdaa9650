-- ===== src/Net.antt =====
-- What the source uses of package `net`: ParseIP, the classes of an address, SplitHostPort and
-- JoinHostPort. An address is its 16 bytes, as Go holds it; an IPv4 one has the prefix of ::ffff.
pub mod Quad
use pftp.Base.{
  ℕ, zero, suc, ◌+◌, ◌-◌, ◌*◌, ◌/◌, ◌%◌, ◌^◌, Bool, true, false, not, ◌&&◌, ◌||◌, List, [], ◌∷◌,
  ◌++◌, Option, none, some, ◌≡◌, refl, ltb, leb, ◌==◌, if◌then◌else◌, take, drop, length, get_elem?,
  Error,
}
use pftp.Text.{Bytes, codes, split, same, index, last_index, contains, strip_prefix}

abbrev pub Ip : Type 0
Ip = Bytes

abbrev is_digit : ℕ → Bool
is_digit c = leb b'0' c && leb c b'9'

-- one decimal field of at most 255 with no leading zero
octet_from : ℕ → Bytes → Option ℕ
octet_from val [] = some val
octet_from val (c ∷ s) =
    let rest = octet_from (val * 10 + (c - b'0')) s in
    if is_digit c && leb (val * 10 + (c - b'0')) 255 then rest else none

pub octet : Bytes → Option ℕ
unfolding octet_from
octet [] = none
octet (c ∷ []) = octet_from 0 (c ∷ [])
octet (c ∷ (d ∷ s)) = if c == b'0' then none else octet_from 0 (c ∷ d ∷ s)

-- the fields of an IPv4 address in dotted form
quad : List Bytes → Option Bytes
quad (a ∷ (b ∷ (c ∷ (d ∷ [])))) = elim (octet a) [
  | none ↦ none
  | some w ↦ elim (octet b) [
    | none ↦ none
    | some x ↦ elim (octet c) [
      | none ↦ none
      | some y ↦ elim (octet d) [ none ↦ none | some z ↦ some (w ∷ x ∷ y ∷ z ∷ []) ]
    ]
  ]
]
quad _ = none

unfoldable pub parse_ipv4 : Bytes → Option Bytes
unfolding quad octet split
parse_ipv4 s = quad (split b'.' s)

hex_value : ℕ → Option ℕ
hex_value c =
    if leb b'0' c && leb c b'9'
    then some (c - b'0')
    else if leb b'a' c && leb c b'f'
    then some (c - b'a' + 10)
    else if leb b'A' c && leb c b'F'
    then some (c - b'A' + 10)
    else none

-- up to four hexadecimal digits: their value, how many, and the rest; a fifth is an error
group : ℕ → ℕ → Bytes → Option (ℕ × ℕ × Bytes)
group off acc [] = some (acc, off, [])
group off acc (c ∷ s) = elim (hex_value c) [
  | none ↦ some (acc, off, c ∷ s)
  | some d ↦ if ltb 3 off then none else group (off + 1) (acc * 16 + d) s
]

-- the bytes read so far and the place of the ellipsis, when the whole text is used
expand : Bytes → Option ℕ → Option Bytes
expand ip none = if length ip == 16 then some ip else none
expand ip (some e) =
    if length ip == 16
    then none
    else some (
        take e ip
        ++ (take (16 - length ip)
              (0 ∷ 0 ∷ 0 ∷ 0 ∷ 0 ∷ 0 ∷ 0 ∷ 0 ∷ 0 ∷ 0 ∷ 0 ∷ 0 ∷ 0 ∷ 0 ∷ 0 ∷ 0 ∷ [])
            ++ drop e ip))

-- behind a group: a trailing IPv4 address, the end, or a colon with perhaps the ellipsis
next_group :
    Bytes → Option ℕ → ℕ → Bytes → Bytes → (Bytes → Option ℕ → Bytes → Option Bytes) → Option Bytes
unfolding expand parse_ipv4
next_group ip e acc s [] loop = expand (ip ++ (acc / 256 ∷ acc % 256 ∷ [])) e
next_group ip e acc s (c ∷ []) loop = none
next_group ip e acc s (c ∷ (d ∷ t)) loop =
    let tail : Option Bytes = elim (parse_ipv4 s) [ none ↦ none | some v4 ↦ expand (ip ++ v4) e ] in
    let placed : Bool = elim e [ none ↦ length ip == 12 | some _ ↦ leb (length ip) 12 ] in
    let ip' = ip ++ (acc / 256 ∷ acc % 256 ∷ []) in
    let second : Option Bytes = elim e [
      | some _ ↦ none
      | none ↦
          if length t == 0 then expand ip' (some (length ip')) else loop ip' (some (length ip')) t
    ] in
    if c == b'.'
    then (if placed then tail else none)
    else if c == b':'
    then (if d == b':' then second else loop ip' e (d ∷ t))
    else none

-- the loop over groups; eight groups fill the address, so nine rounds of fuel are enough
groups : ℕ → Bytes → Option ℕ → Bytes → Option Bytes
unfolding group hex_value next_group
groups zero ip e s = none
groups (suc f) ip e s = elim (ltb (length ip) 16) [
  | false ↦ none
  | true ↦ elim (group 0 0 s) [
    | none ↦ none
    | some (acc, zero, rest) ↦ none
    | some (acc, suc off, rest) ↦ next_group ip e acc s rest (groups f)
  ]
]

pub parse_ipv6 : Bytes → Option Bytes
unfolding groups
parse_ipv6 (c ∷ (d ∷ s)) =
    let behind = if length s == 0 then expand [] (some 0) else groups 9 [] (some 0) s in
    if c == b':' && d == b':' then behind else groups 9 [] none (c ∷ d ∷ s)
parse_ipv6 s = groups 9 [] none s

-- which of `.`, `:` and `%` comes first decides the family
pub parse_netip : Bytes → Bytes → Option Ip
unfolding parse_ipv4 parse_ipv6 contains
parse_netip whole [] = none
parse_netip whole (c ∷ s) =
    let rest = parse_netip whole s in
    let v4 : Option Ip = elim (parse_ipv4 whole) [
      | none ↦ none
      | some q ↦ some (0 ∷ 0 ∷ 0 ∷ 0 ∷ 0 ∷ 0 ∷ 0 ∷ 0 ∷ 0 ∷ 0 ∷ 255 ∷ 255 ∷ q)
    ] in
    -- a zone, which a `%` starts, is refused by ParseIP
    let v6 = if contains whole (codes "%") then none else parse_ipv6 whole in
    if c == b'.' then v4 else if c == b':' then v6 else if c == b'%' then none else rest

-- `net.ParseIP`
unfoldable pub parse_ip : Bytes → Option Ip
unfolding parse_netip
parse_ip s = parse_netip s s

-- the four bytes of an IPv4 address, `IP.To4`
unfoldable pub to4 : Ip → Option Bytes
unfolding strip_prefix
to4 ip = strip_prefix (0 ∷ 0 ∷ 0 ∷ 0 ∷ 0 ∷ 0 ∷ 0 ∷ 0 ∷ 0 ∷ 0 ∷ 255 ∷ 255 ∷ []) ip

abbrev pub byte_at : Bytes → ℕ → ℕ
byte_at ip i = elim (get_elem? ip i) [ none ↦ 0 | some b ↦ b ]

unfoldable pub is_loopback : Ip → Bool
unfolding to4
is_loopback ip = elim (to4 ip) [
  | some q ↦ byte_at q 0 == 127
  | none ↦ same ip (0 ∷ 0 ∷ 0 ∷ 0 ∷ 0 ∷ 0 ∷ 0 ∷ 0 ∷ 0 ∷ 0 ∷ 0 ∷ 0 ∷ 0 ∷ 0 ∷ 0 ∷ 1 ∷ [])
]

unfoldable pub is_link_local_multicast : Ip → Bool
unfolding to4
is_link_local_multicast ip = elim (to4 ip) [
  | some q ↦ byte_at q 0 == 224 && (byte_at q 1 == 0 && byte_at q 2 == 0)
  | none ↦ byte_at ip 0 == 0xff && byte_at ip 1 % 16 == 2
]

unfoldable pub is_link_local_unicast : Ip → Bool
unfolding to4
is_link_local_unicast ip = elim (to4 ip) [
  | some q ↦ byte_at q 0 == 169 && byte_at q 1 == 254
  | none ↦ byte_at ip 0 == 0xfe && byte_at ip 1 / 64 == 2
]

-- the text up to the byte at `i`, and the text behind it
abbrev around : ℕ → Bytes → Bytes × Bytes
around i s = (take i s, drop (i + 1) s)

-- `net.SplitHostPort`: the host and the port, or an error
unfoldable pub split_host_port : Bytes → Option (Bytes × Bytes)
unfolding last_index index contains
split_host_port s = elim (last_index b':' s) [
  | none ↦ none
  | some i ↦
      let (host, port) = around i s in
      let bare : Option (Bytes × Bytes) =
        if contains host (codes ":") || (contains s (codes "[") || contains s (codes "]"))
        then none
        else some (host, port) in
      let inner = take (i - 2) (drop 1 s) in
      let bracketed : Option (Bytes × Bytes) = elim (index b']' s) [
        | none ↦ none
        | some close ↦
            if close + 1 == i
              && not (contains (drop 1 s) (codes "["))
              && not (contains (drop (close + 1) s) (codes "]"))
            then some (inner, port)
            else none
      ] in
      if byte_at s 0 == b'[' then bracketed else bare
]

-- `net.JoinHostPort`
unfoldable pub join_host_port : Bytes → Bytes → Bytes
join_host_port host port =
    if contains host (codes ":")
    then b'[' ∷ (host ++ (b']' ∷ b':' ∷ port))
    else host ++ (b':' ∷ port)

parse_ip_tests :
    (parse_ip (codes "10.1.2.3")
      ≡ some (0 ∷ 0 ∷ 0 ∷ 0 ∷ 0 ∷ 0 ∷ 0 ∷ 0 ∷ 0 ∷ 0 ∷ 255 ∷ 255 ∷ 10 ∷ 1 ∷ 2 ∷ 3 ∷ []))
    × (parse_ip (codes "1.2.3.04") ≡ none)
    × (parse_ip (codes "::ffff:10.0.0.1")
        ≡ some (0 ∷ 0 ∷ 0 ∷ 0 ∷ 0 ∷ 0 ∷ 0 ∷ 0 ∷ 0 ∷ 0 ∷ 255 ∷ 255 ∷ 10 ∷ 0 ∷ 0 ∷ 1 ∷ []))
    × (parse_ip (codes "2001:db8::1")
        ≡ some (0x20 ∷ 1 ∷ 0xd ∷ 0xb8 ∷ 0 ∷ 0 ∷ 0 ∷ 0 ∷ 0 ∷ 0 ∷ 0 ∷ 0 ∷ 0 ∷ 0 ∷ 0 ∷ 1 ∷ []))
    × (parse_ip (codes "1:2:3:4:5:6:7:8::") ≡ none)
    × (parse_ip (codes "12345::") ≡ none)
unfolding parse_ip
parse_ip_tests = (refl, refl, refl, refl, refl, refl)

split_host_port_tests :
    (split_host_port (codes "10.0.0.1:21") ≡ some (codes "10.0.0.1", codes "21"))
    × (split_host_port (codes "[::1]:2121") ≡ some (codes "::1", codes "2121"))
    × (split_host_port (codes "::1:21") ≡ none)
unfolding split_host_port
split_host_port_tests = (refl, refl, refl)
