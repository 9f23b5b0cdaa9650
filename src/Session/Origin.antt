-- ===== src/Session/Origin.antt =====
-- pftp/proxy.go: what sendToOrigin lets reach the origin.
use pftp.Base.{◌∷◌, none, some, ◌≡◌, ◌⊎◌, inl, inr, ◌∙◌, ap, arith, Error, Option-cases}
use pftp.Command.Sanitize.{IsCommandLine, command_line_check-IsCommandLine}
use pftp.Command.{command_line_check}
use pftp.Session.{Session, send_to_origin, write}
use pftp.Text.{Bytes}
use pftp.World.{Env, Event, to_origin}

module _ (env : Env) (line : Bytes) (s : Session) where
  write-events :
      (e : Event)
      → ((write env e s).1.world.events ≡ s.world.events)
        ⊎ ((write env e s).1.world.events ≡ e ∷ s.world.events)
  unfolding write
  write-events e = elim (Option-cases (env.write s.world.clock)) [
    | inl sent ↦ inr (ground arith)
    | inr (why, failed) ↦ inl (ground arith)
  ]

  send_sound :
      (command_line_check line).1 ≡ none
      → send_to_origin env line s ≡ write env (to_origin (command_line_check line).0) s
  unfolding send_to_origin
  send_sound h = ground arith

  send_refused :
      {e : Bytes} → (command_line_check line).1 ≡ some e → send_to_origin env line s ≡ (some e, s)
  unfolding send_to_origin
  send_refused h = ground arith

  -- Whatever line sendToOrigin is given, what it adds to what the origin has received is nothing, or
  -- one command: a letter first, and one CRLF, at its end.
  pub send_to_origin-IsCommandLine :
      ((send_to_origin env line s).1.world.events ≡ s.world.events)
      ⊎ ((out : Bytes) × IsCommandLine out
          × ((send_to_origin env line s).1.world.events ≡ to_origin out ∷ s.world.events))
  send_to_origin-IsCommandLine = elim (Option-cases (command_line_check line).1) [
    | inr (e, wrong) ↦ inl (ap (λ (x : Error × Session). x.1.world.events) (send_refused wrong))
    | inl fine ↦
        let out = (command_line_check line).0 in
        let here = ap (λ (x : Error × Session). x.1.world.events) (send_sound fine) in
        elim (write-events (to_origin out)) [
          | inl lost ↦ inl (here ∙ lost)
          | inr sent ↦ inr (
            out,
            command_line_check-IsCommandLine line (ap (λ (e : Error). (out, e)) fine),
            here ∙ sent,
          )
        ]
  ]
