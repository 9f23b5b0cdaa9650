-- ===== src/Log/Secret.antt =====
-- pftp/client_handler.go and pftp/proxy.go: what the log shows of a password (commandLog).
use pftp.Base.{
  if◌then◌else◌, List, Bool, ℕ, [], ◌∷◌, ◌++◌, ◌≡◌, true, refl, ◌∙◌, ap, arith, All, append_assoc,
}
use pftp.Command.Sanitize.{command_line_check-Sent}
use pftp.Command.{
  bare, crlf, command_line_check, ends_once, first, from_letter, get_command, is_letter,
}
use pftp.Log.{
  LogEntry, Logger, entry, debug, info, client_command_log, command_log, check_log, sent_log,
  line_log, secure_command,
}
use pftp.Text.Split.{Lacks, split_max-append}
use pftp.Text.Equal.{same_self}
use pftp.Text.{
  Bytes, codes, same, trim, trim_left, trim_right, keep_end, replace, is_crlf, to_upper,
}

abbrev pub IsLetters : Bytes → Type 0
IsLetters = All (λ c. is_letter c ≡ true)

keep_end-append :
    (c : ℕ) (w a : Bytes) → keep_end is_crlf c (w ++ (b' ' ∷ a)) ≡ c ∷ (w ++ (b' ' ∷ a))
unfolding keep_end
keep_end-append c [] a = refl
keep_end-append c (d ∷ w) a = refl

keep_end-space : (a : Bytes) → keep_end is_crlf b' ' a ≡ b' ' ∷ a
unfolding keep_end
keep_end-space [] = refl
keep_end-space (d ∷ a) = refl

-- nothing is trimmed in front of a space
trim_right-space :
    (w a : Bytes) → trim_right is_crlf (w ++ (b' ' ∷ a)) ≡ w ++ (b' ' ∷ trim_right is_crlf a)
unfolding trim_right
trim_right-space [] a = keep_end-space (trim_right is_crlf a)
trim_right-space (c ∷ w) a =
    ap (keep_end is_crlf c) (trim_right-space w a) ∙ keep_end-append c w (trim_right is_crlf a)

trim_left-letters :
    (c : ℕ) (w a : Bytes) → is_letter c ≡ true → trim_left is_crlf ((c ∷ w) ++ a) ≡ (c ∷ w) ++ a
unfolding trim_left
trim_left-letters c w a h = ground arith

IsLetters-Lacks : (w : Bytes) → IsLetters w → Lacks b' ' w
IsLetters-Lacks [] h = tt
IsLetters-Lacks (c ∷ w) h = (ground (arith, h.0), IsLetters-Lacks w h.1)

-- the command of a line, whatever its parameter
get_command-letters :
    (c : ℕ) (w a : Bytes) → IsLetters (c ∷ w) → first (get_command ((c ∷ w) ++ (b' ' ∷ a))) ≡ c ∷ w
unfolding get_command trim
get_command-letters c w a h =
    rw
      (
        trim_left-letters c w (b' ' ∷ a) h.0,
        trim_right-space (c ∷ w) a,
        split_max-append b' ' 0 (c ∷ w) (trim_right is_crlf a) (IsLetters-Lacks (c ∷ w) h),
      )
      refl

bare-letters : (w a : Bytes) → IsLetters w → bare (w ++ (b' ' ∷ a)) ≡ w ++ (b' ' ∷ bare a)
unfolding replace
bare-letters [] a h = refl
bare-letters (c ∷ w) a h = ground (arith, h.0, bare-letters w a h.1)

from_letter-letters :
    (c : ℕ) (w a : Bytes) → is_letter c ≡ true → from_letter ((c ∷ w) ++ a) ≡ (c ∷ w) ++ a
unfolding trim_left
from_letter-letters c w a h = ground arith

-- the warning of a line that does not end once by CRLF
abbrev pub warned : Logger → Bool → List LogEntry
warned l ends =
    if ends then [] else entry debug l (codes "wrong command line. make line end by CRLF") [] ∷ []

-- what may be seen of a password
abbrev pub masked_log : Logger → Bool → List LogEntry
masked_log l b =
    entry info l (codes "read from client: %s ********\r\n") (secure_command ∷ [])
    ∷ (warned l b ++ entry debug l (codes "send to origin: %s ********") (secure_command ∷ []) ∷ [])

module _ (unicode_upper : Bytes → Bytes) (l : Logger) (c : ℕ) (w : Bytes) (h : IsLetters (c ∷ w))
    (secret : to_upper unicode_upper (c ∷ w) ≡ secure_command) where
  is_secret :
      (a : Bytes)
      → same (to_upper unicode_upper (first (get_command ((c ∷ w) ++ (b' ' ∷ a))))) secure_command
        ≡ true
  is_secret a = rw (get_command-letters c w a h, secret) (same_self secure_command)

  client_command_log-masked :
      (a : Bytes)
      → client_command_log unicode_upper l ((c ∷ w) ++ (b' ' ∷ a))
        ≡ entry info l (codes "read from client: %s ********\r\n") (secure_command ∷ [])
  unfolding client_command_log
  client_command_log-masked a = rw (is_secret a) refl

  command_log-masked :
      (a : Bytes)
      → command_log unicode_upper l ((c ∷ w) ++ (b' ' ∷ a))
        ≡ entry debug l (codes "send to origin: %s ********") (secure_command ∷ [])
  unfolding command_log
  command_log-masked a = rw (is_secret a) refl

  sent_log-masked :
      (a : Bytes)
      → sent_log unicode_upper l (command_line_check ((c ∷ w) ++ (b' ' ∷ a)))
        ≡ entry debug l (codes "send to origin: %s ********") (secure_command ∷ []) ∷ []
  sent_log-masked a =
      rw
        (
          command_line_check-Sent ((c ∷ w) ++ (b' ' ∷ a)),
          from_letter-letters c w (b' ' ∷ a) h.0,
          bare-letters (c ∷ w) a h,
          append_assoc (c ∷ w) (b' ' ∷ bare a) crlf,
          command_log-masked (bare a ++ crlf),
        )
        refl

  -- Two lines of the same end are warned of alike.
  check_log-warned :
      (a : Bytes)
      → check_log unicode_upper l (from_letter ((c ∷ w) ++ (b' ' ∷ a)))
        ≡ warned l (ends_once ((c ∷ w) ++ (b' ' ∷ a)))
  unfolding check_log
  check_log-warned a = rw (from_letter-letters c w (b' ' ∷ a) h.0) refl

  -- For a command word of letters that reads PASS in capitals, a space and any bytes: the log of the
  -- line, at the client handler and at the proxy, is one masked entry each, with a warning between the
  -- two where the line does not end once by CRLF. Nothing else of the line comes into the log.
  pub line_log-secret :
      (a : Bytes)
      → line_log unicode_upper l ((c ∷ w) ++ (b' ' ∷ a))
        ≡ masked_log l (ends_once ((c ∷ w) ++ (b' ' ∷ a)))
  unfolding line_log
  line_log-secret a = rw (client_command_log-masked a, check_log-warned a, sent_log-masked a) refl
