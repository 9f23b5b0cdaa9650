-- ===== src/Command.antt =====
-- pftp/proxy.go and pftp/client_handler.go: the lines of the control connection. What is done to a
-- command line before it is sent (commandLineCheck), and how commands and replies are cut up.
pub mod Examples
pub mod Sanitize
use pftp.Base.{
  ℕ, suc, ◌+◌, ◌/◌, ◌%◌, Bool, true, false, not, ◌&&◌, ◌||◌, List, [], ◌∷◌, ◌++◌, none, some, ◌≡◌,
  refl, ltb, leb, ◌==◌, if◌then◌else◌, length, Error,
}
use pftp.Net.{byte_at}
use pftp.Text.{
  Bytes, codes, trim_left, trim, is_crlf, has_suffix, count, replace, split_max, split_two, same,
  to_upper,
}

abbrev pub crlf : Bytes
crlf = b'\r' ∷ b'\n' ∷ []

abbrev pub is_letter : ℕ → Bool
is_letter b = leb b'a' b && leb b b'z' || leb b'A' b && leb b b'Z'

-- the first loop: drops bytes up to a letter
abbrev pub from_letter : Bytes → Bytes
from_letter = trim_left (λ b. not (is_letter b))

unfoldable pub ends_once : Bytes → Bool
unfolding has_suffix count
ends_once line = has_suffix line crlf && (count b'\r' line == 1 && count b'\n' line == 1)

-- CR and LF removed
abbrev pub bare : Bytes → Bytes
bare line = replace b'\r' [] (replace b'\n' [] line)

pub mend : Bytes → Bytes × Error
unfolding ends_once
mend [] = ([], some (codes "aborted : wrong command line"))
mend (c ∷ s) = if ends_once (c ∷ s) then (c ∷ s, none) else (bare (c ∷ s) ++ crlf, none)

-- `commandLineCheck`
unfoldable pub command_line_check : Bytes → Bytes × Error
unfolding mend trim_left replace
command_line_check line = mend (from_letter line)

-- `getCommand`
unfoldable pub get_command : Bytes → List Bytes
unfolding trim split_max
get_command line = split_max b' ' 1 (trim is_crlf line)

-- `string(b)` of a byte: the UTF-8 spelling of that code point
abbrev pub rune : ℕ → Bytes
rune b = if ltb b 128 then b ∷ [] else (0xc0 + b / 64) ∷ (0x80 + b % 64) ∷ []

-- `getCode`
unfoldable pub get_code : Bytes → List Bytes
unfolding trim split_two
get_code line =
    if leb 4 (length line) then split_two (rune (byte_at line 3)) (trim is_crlf line) else line ∷ []

-- `ss[0]` of a list that is never empty
abbrev pub first : List Bytes → Bytes
first [] = []
first (p ∷ _) = p

-- `getCode(line)[0]`
unfoldable pub code_of : Bytes → Bytes
unfolding get_code
code_of line = first (get_code line)

command_line_check_tests :
    (command_line_check (255 ∷ 244 ∷ codes "ABOR\r\n") ≡ (codes "ABOR\r\n", none))
    × (command_line_check (codes "CWD a\r\nDELE b\n") ≡ (codes "CWD aDELE b\r\n", none))
    × (command_line_check (codes "42\r\n") ≡ ([], some (codes "aborted : wrong command line")))
unfolding command_line_check
command_line_check_tests = (refl, refl, refl)

get_command_test : get_command (codes "stor a b\r\n") ≡ codes "stor" ∷ codes "a b" ∷ []
unfolding get_command
get_command_test = refl

get_code_tests :
    (get_code (codes "230-hi there\r\n") ≡ codes "230" ∷ codes "hi there" ∷ [])
    × (get_code (codes "ok\n") ≡ codes "ok\n" ∷ [])
unfolding get_code
get_code_tests = (refl, refl)
