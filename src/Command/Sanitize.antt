-- ===== src/Command/Sanitize.antt =====
-- pftp/proxy.go: the lines that commandLineCheck lets through to the origin.
use pftp.Base.{
  ℕ, zero, suc, ◌+◌, ◌-◌, true, [], ◌∷◌, ◌++◌, none, some, ◌≡◌, refl, sym, ◌∙◌, ap, arith, ◌==◌,
  if◌then◌else◌, length, take, drop, Bool-cases, inl, inr, Error, append_assoc, append-nil, ◌⊎◌,
}
use pftp.Command.{crlf, is_letter, from_letter, ends_once, bare, mend, command_line_check}
use pftp.Text.Equal.{same_iff}
use pftp.Text.{Bytes, codes, trim_left, has_suffix, count, replace}

take-append-drop : (n : ℕ) (s : Bytes) → s ≡ take n s ++ drop n s
take-append-drop zero s = refl
take-append-drop (suc n) [] = refl
take-append-drop (suc n) (c ∷ s) = ap (◌∷◌ c) (take-append-drop n s)

-- A text ends with `p` only as some text before it.
has_suffix-append : (s p : Bytes) → has_suffix s p ≡ true → (r : Bytes) × (s ≡ r ++ p)
unfolding has_suffix
has_suffix-append s p h =
    let e : drop (length s - length p) s ≡ p =
      ground (arith, same_iff (drop (length s - length p) s) p) in
    (take (length s - length p) s, take-append-drop (length s - length p) s ∙ rw e)

pub count-append : (b : ℕ) (s t : Bytes) → count b (s ++ t) ≡ count b s + count b t
unfolding count
count-append b [] t = omega arith
count-append b (c ∷ s) t = omega (arith, count-append b s t)

replace-append_all :
    (b : ℕ) (new s t : Bytes) → replace b new (s ++ t) ≡ replace b new s ++ replace b new t
unfolding replace
replace-append_all b new [] t = refl
replace-append_all b new (c ∷ s) t = rw (replace-append_all b new s t, append_assoc)

remove_absent : (b : ℕ) (s : Bytes) → count b s ≡ 0 → replace b [] s ≡ s
unfolding replace count
remove_absent b [] h = refl
remove_absent b (c ∷ s) h = ground (arith, remove_absent b s)

count-remove : (b d : ℕ) (s : Bytes) → count d (replace b [] s) ≡ (if b == d then 0 else count d s)
unfolding replace count
count-remove b d [] = ground arith
count-remove b d (c ∷ s) = ground (arith, count-remove b d s)

replace_lf : replace b'\n' [] crlf ≡ b'\r' ∷ []
unfolding replace
replace_lf = refl

replace_cr : replace b'\r' [] (b'\r' ∷ []) ≡ []
unfolding replace
replace_cr = refl

bare-append : (r : Bytes) → count b'\r' r ≡ 0 → count b'\n' r ≡ 0 → bare (r ++ crlf) ≡ r
bare-append r no_cr no_lf =
    rw
      (
        replace-append_all b'\n' [] r crlf,
        replace_lf,
        remove_absent b'\n' r no_lf,
        replace-append_all b'\r' [] r (b'\r' ∷ []),
        replace_cr,
        remove_absent b'\r' r no_cr,
      )
      (append-nil r)

count-crlf : (b : ℕ) → (b ≡ b'\r') ⊎ (b ≡ b'\n') → count b crlf ≡ 1
unfolding count
count-crlf b h = ground arith

-- A line that ends once by CRLF is its bare text and CRLF.
bare-ends_once : (s : Bytes) → ends_once s ≡ true → bare s ++ crlf ≡ s
bare-ends_once s h =
    let facts : (has_suffix s crlf ≡ true) × (count b'\r' s ≡ 1) × (count b'\n' s ≡ 1) =
      unfold ends_once in ground arith in
    let (r, spelled) = has_suffix-append s crlf facts.0 in
    let cr : count b'\r' r ≡ 0 =
      omega
        (arith, ap (count b'\r') spelled, count-append b'\r' r crlf, count-crlf b'\r' (inl refl)) in
    let lf : count b'\n' r ≡ 0 =
      omega
        (arith, ap (count b'\n') spelled, count-append b'\n' r crlf, count-crlf b'\n' (inr refl)) in
    rw (spelled, bare-append r cr lf)

mend-bare : (c : ℕ) (s : Bytes) → mend (c ∷ s) ≡ (bare (c ∷ s) ++ crlf, none)
unfolding mend
mend-bare c s = elim (Bool-cases (ends_once (c ∷ s))) [
  | inl short ↦ ground (arith, bare-ends_once (c ∷ s) short)
  | inr long ↦ rw long
]

-- The line that is sent for the text from the first letter on, or the error.
abbrev pub Sent : Bytes → Bytes × Error
Sent [] = ([], some (codes "aborted : wrong command line"))
Sent (c ∷ s) = (bare (c ∷ s) ++ crlf, none)

mend-Sent : (s : Bytes) → mend s ≡ Sent s
mend-Sent [] = unfold mend in refl
mend-Sent (c ∷ s) = mend-bare c s

-- The test for a line that already ends once by CRLF is only a short cut. Every line that holds a
-- letter is sent as its text from the first letter on, with every CR and LF removed and one CRLF at
-- the end; a line with no letter is refused.
pub command_line_check-Sent : (line : Bytes) → command_line_check line ≡ Sent (from_letter line)
unfolding command_line_check
command_line_check-Sent line = mend-Sent (from_letter line)

-- A letter, any bytes but CR and LF, and then CRLF.
pub record IsCommandLine (s : Bytes) : Type 0 where
  pub letter : ℕ
  pub body : Bytes
  pub spelled : s ≡ (letter ∷ body) ++ crlf
  pub letter_is : is_letter letter ≡ true
  pub no_cr : count b'\r' body ≡ 0
  pub no_lf : count b'\n' body ≡ 0

-- A text from its first letter on starts with a letter.
from_letter-is_letter : (s : Bytes) {c : ℕ} {t : Bytes} → from_letter s ≡ c ∷ t → is_letter c ≡ true
unfolding trim_left
from_letter-is_letter [] h = cc
from_letter-is_letter (d ∷ s) {c} {t} h = ground (arith, from_letter-is_letter s {c = c} {t = t})

replace_letter : (c : ℕ) (s : Bytes) → is_letter c ≡ true → bare (c ∷ s) ≡ c ∷ bare s
unfolding replace
replace_letter c s h = ground arith

Sent-IsCommandLine :
    (line t : Bytes) {out : Bytes} → from_letter line ≡ t → Sent t ≡ (out, none) → IsCommandLine out
Sent-IsCommandLine line [] e h = cc
Sent-IsCommandLine line (c ∷ s) {out} e h =
    let is = from_letter-is_letter line e in
    record {
      letter = c;
      body = bare s;
      spelled = sym (ap (λ (p : Bytes × Error). p.0) h) ∙ rw (replace_letter c s is);
      letter_is = is;
      no_cr = ground (arith, count-remove b'\r' b'\r' (replace b'\n' [] s));
      no_lf =
          ground (arith, count-remove b'\r' b'\n' (replace b'\n' [] s), count-remove b'\n' b'\n' s);
    }

-- Whatever the client sends, a line that commandLineCheck lets through is one command: it starts
-- with a letter and holds one CR and one LF, the CRLF at its end.
pub command_line_check-IsCommandLine :
    (line : Bytes) {out : Bytes} → command_line_check line ≡ (out, none) → IsCommandLine out
command_line_check-IsCommandLine line h =
    Sent-IsCommandLine line (from_letter line) refl (sym (command_line_check-Sent line) ∙ h)

from_letter_fixed : (c : ℕ) (s : Bytes) → is_letter c ≡ true → from_letter (c ∷ s) ≡ c ∷ s
unfolding trim_left
from_letter_fixed c s h = ground arith

-- A line that is one command already is let through unchanged.
pub command_line_check-fixed : (s : Bytes) → IsCommandLine s → command_line_check s ≡ (s, none)
command_line_check-fixed s w =
    let line = w.letter ∷ w.body in
    let whole =
      bare-append line (unfold count in ground (arith, w.no_cr))
        (unfold count in ground (arith, w.no_lf)) in
    command_line_check-Sent s
    ∙ rw (w.spelled, from_letter_fixed w.letter (w.body ++ crlf) w.letter_is, whole)
