-- ===== src/Text.antt =====
-- Go strings as lists of bytes, and what the source uses of `strings`: Split, SplitN, Trim,
-- TrimSpace, Index, Contains, HasPrefix, HasSuffix, Replace, ToUpper. The laws are in the modules
-- below this one.
pub mod Decimal
pub mod Split
pub mod Equal
use Prim.Native.Char.{code}
use Prim.Native.String.{String}
use mathlib.Core.List.{map, reverse}
use pftp.Base.{
  ℕ, zero, suc, ◌+◌, ◌-◌, Bool, true, false, ◌&&◌, ◌||◌, List, [], ◌∷◌, ◌++◌, Option, none, some,
  leb, ltb, ◌==◌, if◌then◌else◌, length, drop,
}

abbrev pub Bytes : Type 0
Bytes = List ℕ

-- The code points of a literal; these are its bytes, since every literal here is ASCII.
abbrev pub codes : String → Bytes
codes String.[] = []
codes (String.◌∷◌ c s) = code c ∷ codes s

-- `a == b` on strings
unfoldable pub same : Bytes → Bytes → Bool
same [] [] = true
same (x ∷ xs) (y ∷ ys) = x == y && same xs ys
same _ _ = false

-- what is left of a text behind a prefix
unfoldable pub strip_prefix : Bytes → Bytes → Option Bytes
strip_prefix [] s = some s
strip_prefix (p ∷ ps) [] = none
strip_prefix (p ∷ ps) (c ∷ s) = let rest = strip_prefix ps s in if p == c then rest else none

unfoldable pub has_prefix : Bytes → Bytes → Bool
unfolding strip_prefix
has_prefix s p = elim (strip_prefix p s) [ none ↦ false | some _ ↦ true ]

unfoldable pub has_suffix : Bytes → Bytes → Bool
unfolding same
has_suffix s p = leb (length p) (length s) && same (drop (length s - length p) s) p

-- the text before the first occurrence of `sep`, and the text behind it
unfoldable pub cut : Bytes → Bytes → Option (Bytes × Bytes)
unfolding strip_prefix
cut sep [] = elim (strip_prefix sep []) [ none ↦ none | some _ ↦ some ([], []) ]
cut sep (c ∷ s) =
    let later : Option (Bytes × Bytes) = elim (cut sep s) [
      | none ↦ none
      | some (a, b) ↦ some (c ∷ a, b)
    ] in
    elim (strip_prefix sep (c ∷ s)) [ none ↦ later | some rest ↦ some ([], rest) ]

unfoldable pub contains : Bytes → Bytes → Bool
unfolding cut
contains s sub = elim (cut sub s) [ none ↦ false | some _ ↦ true ]

-- how often a byte occurs
unfoldable pub count : ℕ → Bytes → ℕ
count b [] = 0
count b (c ∷ s) = (if c == b then 1 else 0) + count b s

unfoldable pub push_head : ℕ → List Bytes → List Bytes
push_head c [] = (c ∷ []) ∷ []
push_head c (p ∷ ps) = (c ∷ p) ∷ ps

-- `strings.Split` at a byte
unfoldable pub split : ℕ → Bytes → List Bytes
unfolding push_head
split sep [] = [] ∷ []
split sep (c ∷ s) = let rest = split sep s in if c == sep then [] ∷ rest else push_head c rest

-- `strings.SplitN` at a byte, with at most `k` cuts
unfoldable pub split_max : ℕ → ℕ → Bytes → List Bytes
unfolding push_head
split_max sep zero s = s ∷ []
split_max sep (suc k) [] = [] ∷ []
split_max sep (suc k) (c ∷ s) =
    let at = [] ∷ split_max sep k s in
    let on = push_head c (split_max sep (suc k) s) in if c == sep then at else on

-- `strings.SplitN(s, sep, 2)` at a text
unfoldable pub split_two : Bytes → Bytes → List Bytes
unfolding cut
split_two sep s = elim (cut sep s) [ none ↦ s ∷ [] | some (a, b) ↦ a ∷ b ∷ [] ]

unfoldable pub join : ℕ → List Bytes → Bytes
join sep [] = []
join sep (p ∷ []) = p
join sep (p ∷ (q ∷ ps)) = p ++ (sep ∷ join sep (q ∷ ps))

unfoldable pub trim_left : (ℕ → Bool) → Bytes → Bytes
trim_left p [] = []
trim_left p (c ∷ s) = let rest = trim_left p s in if p c then rest else c ∷ s

unfoldable pub keep_end : (ℕ → Bool) → ℕ → Bytes → Bytes
keep_end p c [] = if p c then [] else c ∷ []
keep_end p c (d ∷ s) = c ∷ d ∷ s

unfoldable pub trim_right : (ℕ → Bool) → Bytes → Bytes
unfolding keep_end
trim_right p [] = []
trim_right p (c ∷ s) = keep_end p c (trim_right p s)

unfoldable pub trim : (ℕ → Bool) → Bytes → Bytes
unfolding trim_left trim_right
trim p s = trim_right p (trim_left p s)

abbrev pub is_crlf : ℕ → Bool
is_crlf c = c == b'\r' || c == b'\n'

-- `strings.Index` of a byte
unfoldable pub index : ℕ → Bytes → Option ℕ
index b [] = none
index b (c ∷ s) =
    let later : Option ℕ = elim (index b s) [ none ↦ none | some i ↦ some (suc i) ] in
    if c == b then some 0 else later

-- `strings.LastIndex` of a byte
unfoldable pub last_index : ℕ → Bytes → Option ℕ
last_index b [] = none
last_index b (c ∷ s) = elim (last_index b s) [
  | none ↦ if c == b then some 0 else none
  | some i ↦ some (suc i)
]

-- `strings.ReplaceAll` of a byte by a text
unfoldable pub replace : ℕ → Bytes → Bytes → Bytes
replace b new [] = []
replace b new (c ∷ s) = (if c == b then new else c ∷ []) ++ replace b new s

unfoldable pub upper_byte : ℕ → ℕ
upper_byte c = if leb b'a' c && leb c b'z' then c - 32 else c

unfoldable pub is_ascii : Bytes → Bool
is_ascii [] = true
is_ascii (c ∷ s) = ltb c 128 && is_ascii s

-- `strings.ToUpper`. Beyond ASCII it follows the Unicode tables, which are the parameter.
unfoldable pub to_upper : (Bytes → Bytes) → Bytes → Bytes
unfolding upper_byte is_ascii
to_upper unicode_upper s = if is_ascii s then map upper_byte s else unicode_upper s

-- the UTF-8 spellings of the runes that `unicode.IsSpace` accepts
abbrev pub spaces : List Bytes
spaces =
    (9 ∷ [])
    ∷ (10 ∷ [])
    ∷ (11 ∷ [])
    ∷ (12 ∷ [])
    ∷ (13 ∷ [])
    ∷ (32 ∷ [])
    ∷ (0xc2 ∷ 0x85 ∷ [])
    ∷ (0xc2 ∷ 0xa0 ∷ [])
    ∷ (0xe1 ∷ 0x9a ∷ 0x80 ∷ [])
    ∷ (0xe2 ∷ 0x80 ∷ 0x80 ∷ [])
    ∷ (0xe2 ∷ 0x80 ∷ 0x81 ∷ [])
    ∷ (0xe2 ∷ 0x80 ∷ 0x82 ∷ [])
    ∷ (0xe2 ∷ 0x80 ∷ 0x83 ∷ [])
    ∷ (0xe2 ∷ 0x80 ∷ 0x84 ∷ [])
    ∷ (0xe2 ∷ 0x80 ∷ 0x85 ∷ [])
    ∷ (0xe2 ∷ 0x80 ∷ 0x86 ∷ [])
    ∷ (0xe2 ∷ 0x80 ∷ 0x87 ∷ [])
    ∷ (0xe2 ∷ 0x80 ∷ 0x88 ∷ [])
    ∷ (0xe2 ∷ 0x80 ∷ 0x89 ∷ [])
    ∷ (0xe2 ∷ 0x80 ∷ 0x8a ∷ [])
    ∷ (0xe2 ∷ 0x80 ∷ 0xa8 ∷ [])
    ∷ (0xe2 ∷ 0x80 ∷ 0xa9 ∷ [])
    ∷ (0xe2 ∷ 0x80 ∷ 0xaf ∷ [])
    ∷ (0xe2 ∷ 0x81 ∷ 0x9f ∷ [])
    ∷ (0xe3 ∷ 0x80 ∷ 0x80 ∷ [])
    ∷ []

unfoldable pub strip_any : List Bytes → Bytes → Option Bytes
unfolding strip_prefix
strip_any [] s = none
strip_any (p ∷ ps) s =
    let later = strip_any ps s in elim (strip_prefix p s) [ none ↦ later | some rest ↦ some rest ]

-- strips one rune a round, so the length of the text is enough fuel
unfoldable pub strip_all : List Bytes → ℕ → Bytes → Bytes
unfolding strip_any
strip_all ps zero s = s
strip_all ps (suc n) s = elim (strip_any ps s) [ none ↦ s | some rest ↦ strip_all ps n rest ]

-- `strings.TrimSpace`
unfoldable pub trim_space : Bytes → Bytes
unfolding strip_all
trim_space s =
    let t = strip_all spaces (length s) s in
    reverse (strip_all (map reverse spaces) (length t) (reverse t))
