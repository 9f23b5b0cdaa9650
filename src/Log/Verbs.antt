-- ===== src/Log/Verbs.antt =====
-- pftp/logger.go: the formats of log entries and their arguments.
use pftp.Base.{
  ◌+◌, List, [], ◌∷◌, ◌++◌, none, some, ◌≡◌, refl, arith, All, length, Bool-cases, inl, inr,
  All-append, Error,
}
use pftp.Command.Sanitize.{count-append}
use pftp.Command.{command_line_check, ends_once, from_letter, first, get_command}
use pftp.Log.{
  Level, debug, info, Logger, LogEntry, prefixed, entry, client_command_log, command_log, check_log,
  sent_log, line_log, secure_command,
}
use pftp.Text.Decimal.{digits, count-digits}
use pftp.Text.{Bytes, codes, count, same, to_upper}

-- One verb for each argument, and one more for each percent sign that the user's name or the address
-- brings into the format.
abbrev pub HasVerbs : Logger → LogEntry → Type 0
HasVerbs l e = count b'%' e.format ≡ length e.args + (count b'%' l.user + count b'%' l.fromip)

module _ (l : Logger) where
  count-prefixed :
      (format : Bytes)
      → count b'%' (prefixed l format)
        ≡ count b'%' format + (count b'%' l.user + count b'%' l.fromip)
  unfolding count prefixed
  count-prefixed format =
      rw
        (
          count-append b'%' (digits 20 l.id [])
              (codes "] user:" ++ (l.user ++ (codes " addr:" ++ (l.fromip ++ (b' ' ∷ format))))),
          count-append b'%' l.user (codes " addr:" ++ (l.fromip ++ (b' ' ∷ format))),
          count-append b'%' l.fromip (b' ' ∷ format),
          count-digits b'%' 20 l.id [] (ground arith),
        )
        (omega arith)

  entry-HasVerbs :
      (level : Level) (format : Bytes) (args : List Bytes)
      → count b'%' format ≡ length args
      → HasVerbs l (entry level l format args)
  unfolding entry
  entry-HasVerbs level format args h = ground (arith, count-prefixed format)

module _ (unicode_upper : Bytes → Bytes) (l : Logger) where
  client_command_log-HasVerbs :
      (line : Bytes) → HasVerbs l (client_command_log unicode_upper l line)
  unfolding client_command_log count
  client_command_log-HasVerbs line =
      elim (Bool-cases (same (to_upper unicode_upper (first (get_command line))) secure_command)) [
        | inl h ↦ rw h (entry-HasVerbs l info _ _ refl)
        | inr h ↦ rw h (entry-HasVerbs l info _ _ refl)
      ]

  command_log-HasVerbs : (line : Bytes) → HasVerbs l (command_log unicode_upper l line)
  unfolding command_log count
  command_log-HasVerbs line =
      elim (Bool-cases (same (to_upper unicode_upper (first (get_command line))) secure_command)) [
        | inl h ↦ rw h (entry-HasVerbs l debug _ _ refl)
        | inr h ↦ rw h (entry-HasVerbs l debug _ _ refl)
      ]

  check_log-HasVerbs : (s : Bytes) → All (HasVerbs l) (check_log unicode_upper l s)
  unfolding check_log count
  check_log-HasVerbs [] = tt
  check_log-HasVerbs (c ∷ s) = elim (Bool-cases (ends_once (c ∷ s))) [
    | inl h ↦ rw h tt
    | inr h ↦ rw h (entry-HasVerbs l debug _ _ refl, tt)
  ]

  sent_log-HasVerbs : (r : Bytes × Error) → All (HasVerbs l) (sent_log unicode_upper l r)
  sent_log-HasVerbs (out, none) = (command_log-HasVerbs out, tt)
  sent_log-HasVerbs (out, some e) = tt

  -- Every entry that a command line leaves in the log has one verb for each of its arguments, and one
  -- more for each percent sign in the name of the user or in the address of the client.
  pub line_log-HasVerbs : (line : Bytes) → All (HasVerbs l) (line_log unicode_upper l line)
  unfolding line_log
  line_log-HasVerbs line = (
    client_command_log-HasVerbs line,
    All-append (HasVerbs l) _ _ (check_log-HasVerbs (from_letter line))
        (sent_log-HasVerbs (command_line_check line)),
  )
