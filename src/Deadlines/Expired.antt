-- ===== src/Deadlines/Expired.antt =====
-- The end of a transfer without an idle timeout (pftp/data_handler.go, pftp/client_handler.go).
use pftp.Base.{ℕ, Bool, true, false, List, [], ◌∷◌, some, ◌≡◌, refl, ◌∙◌, ap, arith, All}
use pftp.Config.{Config}
use pftp.Deadlines.{
  Timing, Moment, asks, gives, ends, closes, await_command, set_origin_dead_line, mark, restore,
  apply, follow,
}
use pftp.Text.{Bytes}

-- a moment with no end of a transfer and no timeout
abbrev pub is_ordinary : Moment → Bool
is_ordinary asks = true
is_ordinary (gives _ _) = true
is_ordinary closes = true
is_ordinary _ = false

abbrev pub AllOrdinary : List (ℕ × Moment) → Type 0
AllOrdinary = All (λ m. is_ordinary m.1 ≡ true)

module _ (config : Config) where
  set_origin_dead_line-client :
      (now : ℕ) (y : Timing) → (set_origin_dead_line config now y).client ≡ y.client
  unfolding set_origin_dead_line
  set_origin_dead_line-client now y = ground arith

  mark-client :
      (is_loggedin : Bool) (line : Bytes) (y : Timing)
      → (mark config is_loggedin line y).client ≡ y.client
  unfolding mark
  mark-client is_loggedin line y = ground arith

  module _ (unlimited : config.idle_timeout ≡ 0) where
    await_command-unlimited : (now : ℕ) (y : Timing) → await_command config now y ≡ y
    unfolding await_command
    await_command-unlimited now y = rw unlimited refl

    apply-client :
        (now : ℕ) (m : Moment) (y : Timing)
        → is_ordinary m ≡ true
        → (apply config now m y).client ≡ y.client
    unfolding apply
    apply-client now asks y h = ap (λ z. z.client) (await_command-unlimited now y)
    apply-client now (gives is_loggedin line) y h =
        mark-client is_loggedin line (set_origin_dead_line config now y)
        ∙ set_origin_dead_line-client now y
    apply-client now closes y h = refl
    apply-client now _ y h = absurd (ground arith)

    follow-client :
        (ms : List (ℕ × Moment)) (y : Timing)
        → AllOrdinary ms
        → (follow config ms y).client ≡ y.client
    unfolding follow
    follow-client [] y h = refl
    follow-client ((now, m) ∷ ms) y h =
        follow-client ms (apply config now m y) h.1 ∙ apply-client now m y h.0

    restore-due : (t : ℕ) (y : Timing) → (apply config t ends y).client ≡ some t
    unfolding apply restore
    restore-due t y = rw unlimited (ground arith)

    -- With an idle timeout of 0, which sets no deadline between commands: behind the end of a transfer
    -- the deadline of the client is the very time of that end, and neither commands nor lines of the
    -- origin nor the closing of the data handler move it.
    pub follow-expired :
        (t : ℕ) (ms : List (ℕ × Moment)) (y : Timing)
        → AllOrdinary ms
        → (follow config ms (apply config t ends y)).client ≡ some t
    follow-expired t ms y h = follow-client ms (apply config t ends y) h ∙ restore-due t y
