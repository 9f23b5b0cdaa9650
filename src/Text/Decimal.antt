-- ===== src/Text/Decimal.antt =====
-- `strconv.Itoa` and `strconv.Atoi` on Go's 64-bit `int`.
use native.Mathlib.Nat.{pow-suc}
use mathlib.Core.List.{cons-ne-nil}
use pftp.Base.{
  ℕ, zero, suc, ◌+◌, ◌-◌, ◌*◌, ◌/◌, ◌%◌, ◌^◌, ◌≤◌, ◌<◌, Bool, true, false, ◌||◌, [], ◌∷◌, ◌≡◌, ◌≢◌,
  refl, arith, ltb, leb, ◌==◌, if◌then◌else◌, All, int_mod,
}
use pftp.Text.{Bytes, codes, count}

-- the digits of `n` in front of `out`; with `f` rounds of fuel, up to `f` digits
pub digits : ℕ → ℕ → Bytes → Bytes
digits zero n out = out
digits (suc f) n out =
    let more = digits f (n / 10) ((b'0' + n % 10) ∷ out) in
    if ltb n 10 then (b'0' + n % 10) ∷ out else more

-- a byte in front of the digits is none of them
pub count-digits : (b f n : ℕ) (out : Bytes) → b < b'0' → count b (digits f n out) ≡ count b out
unfolding count digits
count-digits b zero n out h = refl
count-digits b (suc f) n out h = ground (arith, count-digits b f (n / 10) ((b'0' + n % 10) ∷ out) h)

-- 20 digits are enough below 2 ^ 64.
unfoldable pub itoa : ℕ → Bytes
unfolding digits
itoa n = if leb (2 ^ 63) n then b'-' ∷ digits 20 (int_mod - n) [] else digits 20 n []

pub data Scanned : Type 0 where
  fits : ℕ → Scanned
  syntax_error : Scanned
  range_error : Scanned

-- the loop of `strconv.ParseUint` in base 10
pub scan : Bytes → ℕ → Scanned
scan [] n = fits n
scan (c ∷ s) n =
    let rest = scan s (n * 10 + (c - b'0')) in
    if ltb c b'0' || ltb b'9' c
    then syntax_error
    else if leb ((2 ^ 64 - 1) / 10 + 1) n || leb (2 ^ 64) (n * 10 + (c - b'0'))
    then range_error
    else rest

pub parse_uint : Bytes → Scanned
unfolding scan
parse_uint [] = syntax_error
parse_uint (c ∷ s) = scan (c ∷ s) 0

-- the sign, `true` for a minus, and what stands behind it
pub sign : Bytes → Bool × Bytes
sign [] = (false, [])
sign (c ∷ s) = if c == b'-' then (true, s) else if c == b'+' then (false, s) else (false, c ∷ s)

pub signed : Bool → Scanned → ℕ × Bool
signed neg syntax_error = (0, false)
signed true range_error = (2 ^ 63, false)
signed false range_error = (2 ^ 63 - 1, false)
signed true (fits n) = if ltb (2 ^ 63) n then (2 ^ 63, false) else ((int_mod - n) % int_mod, true)
signed false (fits n) = if leb (2 ^ 63) n then (2 ^ 63 - 1, false) else (n, true)

-- The value, also beside an error (the nearest bound, or 0), and whether there is no error.
unfoldable pub atoi : Bytes → ℕ × Bool
unfolding parse_uint sign signed
atoi s = let (neg, t) = sign s in signed neg (parse_uint t)

abbrev pub IsDigit : ℕ → Type 0
IsDigit c = (b'0' ≤ c) × (c ≤ b'9')

abbrev pub IsNumeral : Bytes → Type 0
IsNumeral s = (s ≢ []) × All IsDigit s

scan_digit : (n : ℕ) (out : Bytes) → n < 2 ^ 64 → scan ((b'0' + n % 10) ∷ out) (n / 10) ≡ scan out n
unfolding scan
scan_digit n out h = ground arith

tenth-lt-pow : (f n : ℕ) → n < 10 ^ suc f → n / 10 < 10 ^ f
tenth-lt-pow f n h = let e : n < 10 ^ f * 10 = rw pow-suc at h in omega arith

digits_step :
    (f n : ℕ) (out : Bytes)
    → digits (suc f) n out
      ≡ (if ltb n 10 then (b'0' + n % 10) ∷ out else digits f (n / 10) ((b'0' + n % 10) ∷ out))
unfolding digits
digits_step f n out = refl

scan_nil : (n : ℕ) → scan [] n ≡ fits n
unfolding scan
scan_nil n = refl

-- Reading the digits of `n` comes to what reading `out` from `n` does.
scan-digits :
    (f n : ℕ) (out : Bytes) → n < 10 ^ f → n < 2 ^ 64 → scan (digits f n out) 0 ≡ scan out n
scan-digits zero n out h b = let e : n ≡ 0 = omega arith in unfold digits in rw e
scan-digits (suc f) n out h b =
    let next = scan-digits f (n / 10) ((b'0' + n % 10) ∷ out) (tenth-lt-pow f n h) (omega arith) in
    ground (arith, digits_step f n out, scan_digit n out b, next)

digits-IsNumeral : (f n : ℕ) (out : Bytes) → All IsDigit out → IsNumeral (digits (suc f) n out)
digits-IsNumeral zero n out h = unfold digits in ground (arith, cons-ne-nil (b'0' + n % 10) out)
digits-IsNumeral (suc f) n out h =
    let next =
      digits-IsNumeral f (n / 10) ((b'0' + n % 10) ∷ out) ((omega arith, omega arith), h) in
    ground (arith, digits_step (suc f) n out, cons-ne-nil (b'0' + n % 10) out, next)

pub itoa-IsNumeral : (n : ℕ) → n < 2 ^ 63 → IsNumeral (itoa n)
unfolding itoa
itoa-IsNumeral n h = ground (arith, digits-IsNumeral 19 n [] tt)

scan-itoa : (n : ℕ) → n < 2 ^ 63 → scan (itoa n) 0 ≡ fits n
unfolding itoa
scan-itoa n h = ground (arith, scan-digits 20 n [] (omega arith) (omega arith), scan_nil n)

-- The digits of a number hold no sign, so `sign` leaves them whole.
parse-sign : (s : Bytes) → IsNumeral s → (sign s ≡ (false, s)) × (parse_uint s ≡ scan s 0)
unfolding sign parse_uint
parse-sign [] h = absurd (h.0 refl)
parse-sign (c ∷ s) h = ground arith

pub atoi-itoa : (n : ℕ) → n < 2 ^ 63 → atoi (itoa n) ≡ (n, true)
atoi-itoa n h =
    let (p, q) = parse-sign (itoa n) (itoa-IsNumeral n h) in
    unfold atoi in rw (p, q, scan-itoa n h) (ground arith)

signed-lt : (neg : Bool) (x : Scanned) → (signed neg x).0 < 2 ^ 64
unfolding signed
signed-lt true syntax_error = omega arith
signed-lt false syntax_error = omega arith
signed-lt true range_error = omega arith
signed-lt false range_error = omega arith
signed-lt true (fits n) = ground arith
signed-lt false (fits n) = ground arith

-- The value is a 64-bit pattern.
pub atoi-lt : (s : Bytes) → (atoi s).0 < 2 ^ 64
unfolding atoi
atoi-lt s = signed-lt (sign s).0 (parse_uint (sign s).1)

itoa_tests :
    (itoa 0 ≡ codes "0") × (itoa 65535 ≡ codes "65535") × (itoa (2 ^ 64 - 12) ≡ codes "-12")
unfolding itoa
itoa_tests = (refl, refl, refl)

atoi_tests :
    (atoi (codes "-12") ≡ (2 ^ 64 - 12, true))
    × (atoi (codes "1_0") ≡ (0, false))
    × (atoi (codes "99999999999999999999x") ≡ (2 ^ 63 - 1, false))
    × (atoi [] ≡ (0, false))
unfolding atoi
atoi_tests = (refl, refl, refl, refl)
