-- ===== src/Command/Examples.antt =====
-- Examples of the command lines of pftp/proxy.go.
use pftp.Base.{none, ◌≡◌, refl, ◌∷◌}
use pftp.Command.{command_line_check, from_letter}
use pftp.Command.Sanitize.{
  Sent, IsCommandLine, command_line_check-Sent, command_line_check-IsCommandLine,
}
use pftp.Text.{Bytes, codes}

-- two commands in one line, behind two bytes of telnet
abbrev smuggled : Bytes
smuggled = 255 ∷ 244 ∷ codes "CWD a\r\nDELE b\n"

command_line_check-Sent_example : command_line_check smuggled ≡ Sent (from_letter smuggled)
command_line_check-Sent_example = command_line_check-Sent smuggled

smuggled_sent : command_line_check smuggled ≡ (codes "CWD aDELE b\r\n", none)
unfolding command_line_check
smuggled_sent = refl

command_line_check-IsCommandLine_example : IsCommandLine (codes "CWD aDELE b\r\n")
command_line_check-IsCommandLine_example = command_line_check-IsCommandLine smuggled smuggled_sent
