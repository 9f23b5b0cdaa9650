-- ===== src/Log.antt =====
-- pftp/logger.go, and commandLog of pftp/client_handler.go and pftp/proxy.go: what is written to the
-- log of a command line. An entry is a format with its arguments, as logrus gets it.
pub mod Secret
pub mod Verbs
pub mod Examples
use pftp.Base.{ℕ, ◌-◌, List, [], ◌∷◌, ◌++◌, none, some, if◌then◌else◌, length, take, Error}
use pftp.Command.{crlf, command_line_check, ends_once, from_letter, first, get_command}
use pftp.Text.Decimal.{digits}
use pftp.Text.{Bytes, codes, same, has_suffix, to_upper}

pub data Level : Type 0 where
  debug : Level
  info : Level
  err : Level

-- `logger`
pub record Logger : Type 0 where
  pub fromip : Bytes
  pub user : Bytes
  pub id : ℕ

pub record LogEntry : Type 0 where
  pub level : Level
  pub format : Bytes
  pub args : List Bytes

-- the format behind `fmt.Sprintf("[%d] user:%s addr:%s %s", l.id, l.user, l.fromip, format)`
unfoldable pub prefixed : Logger → Bytes → Bytes
prefixed l format =
    b'['
    ∷ (digits 20 l.id []
        ++ (codes "] user:" ++ (l.user ++ (codes " addr:" ++ (l.fromip ++ (b' ' ∷ format))))))

-- `debug`, `info` and `err` of a logger
unfoldable pub entry : Level → Logger → Bytes → List Bytes → LogEntry
entry level l format args = record { level = level; format = prefixed l format; args = args }

-- `strings.TrimSuffix(line, "\r\n")`
unfoldable pub trim_crlf : Bytes → Bytes
trim_crlf s = if has_suffix s crlf then take (length s - length crlf) s else s

-- `secureCommand`
abbrev pub secure_command : Bytes
secure_command = codes "PASS"

module _ (unicode_upper : Bytes → Bytes) (l : Logger) where
  -- `commandLog` of the client handler
  unfoldable pub client_command_log : Bytes → LogEntry
  client_command_log line =
      if same (to_upper unicode_upper (first (get_command line))) secure_command
      then entry info l (codes "read from client: %s ********\r\n") (secure_command ∷ [])
      else entry info l (codes "read from client: %s") (trim_crlf line ∷ [])

  -- `commandLog` of the proxy
  unfoldable pub command_log : Bytes → LogEntry
  command_log line =
      if same (to_upper unicode_upper (first (get_command line))) secure_command
      then entry debug l (codes "send to origin: %s ********") (secure_command ∷ [])
      else entry debug l (codes "send to origin: %s") (trim_crlf line ∷ [])

  -- the line that `commandLineCheck` mends
  unfoldable pub check_log : Bytes → List LogEntry
  check_log [] = []
  check_log (c ∷ s) =
      if ends_once (c ∷ s)
      then []
      else entry debug l (codes "wrong command line. make line end by CRLF") [] ∷ []

  abbrev pub sent_log : Bytes × Error → List LogEntry
  sent_log (out, none) = command_log out ∷ []
  sent_log (_, some _) = []

  -- what `handleCommand` and `sendToOrigin` log of a line for the origin, up to the writing
  unfoldable pub line_log : Bytes → List LogEntry
  line_log line =
      client_command_log line ∷ (check_log (from_letter line) ++ sent_log (command_line_check line))
