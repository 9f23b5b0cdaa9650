-- ===== src/Log/Examples.antt =====
-- pftp/logger.go: entries of the log.
use pftp.Base.{[], ◌∷◌, none, true, ◌≡◌, refl}
use pftp.Command.{ends_once, command_line_check, get_command}
use pftp.Log.{Logger, client_command_log, entry, info, line_log, trim_crlf}
use pftp.Log.Secret.{masked_log, line_log-secret}
use pftp.Text.{Bytes, codes, to_upper}

abbrev logger : Logger
logger = record { fromip = codes "192.0.2.7:4000"; user = codes "%s"; id = 7 }

abbrev pass : Bytes
pass = codes "Pass one\r\n"

line_log-secret_example : line_log (λ s. s) logger (codes "Pass one\r\n") ≡ masked_log logger true
unfolding ends_once to_upper
line_log-secret_example =
    line_log-secret (λ s. s) logger b'P' (codes "ass") (refl, (refl, (refl, (refl, tt)))) refl
      (codes "one\r\n")

-- A space in front hides the command from the log, but not from the origin.
leading_space_test :
    (client_command_log (λ s. s) logger (codes " PASS one\r\n")
      ≡ entry info logger (codes "read from client: %s") (codes " PASS one" ∷ []))
    × (command_line_check (codes " PASS one\r\n") ≡ (codes "PASS one\r\n", none))
unfolding client_command_log command_line_check to_upper get_command trim_crlf
leading_space_test = (refl, refl)
