-- ===== src/Deadlines/LateStart.antt =====
-- A transfer that begins before its line 150 is read (pftp/data_handler.go, pftp/proxy.go).
use pftp.Base.{ℕ, Bool, true, false, ◌&&◌, List, [], ◌∷◌, some, ◌≡◌, refl, ◌∙◌, arith, All}
use pftp.Config.{Config}
use pftp.Deadlines.{
  Timing, due, is_positive, set_client_dead_line, marked, Moment, asks, gives, copies,
  await_command, set_origin_dead_line, mark, apply, follow,
}
use pftp.Text.{Bytes, codes, contains, has_prefix}

-- a command
abbrev pub is_asking : Moment → Bool
is_asking asks = true
is_asking _ = false

abbrev pub AllAsks : List (ℕ × Moment) → Type 0
AllAsks = All (λ m. is_asking m.1 ≡ true)

module _ (config : Config) where
  -- the origin has its deadline while the flag of a transfer is set
  abbrev pub IsArmed : ℕ → Timing → Type 0
  IsArmed u y = (y.origin ≡ some (due u config.proxy_timeout)) × (y.in_data_transfer ≡ true)

  await_command-origin : (now : ℕ) (y : Timing) → (await_command config now y).origin ≡ y.origin
  unfolding await_command set_client_dead_line
  await_command-origin now y = ground arith

  await_command-flag :
      (now : ℕ) (y : Timing) → (await_command config now y).in_data_transfer ≡ y.in_data_transfer
  unfolding await_command set_client_dead_line
  await_command-flag now y = ground arith

  follow-IsArmed :
      (u : ℕ) (ms : List (ℕ × Moment)) (y : Timing)
      → AllAsks ms
      → IsArmed u y
      → IsArmed u (follow config ms y)
  unfolding follow apply
  follow-IsArmed u [] y a h = h
  follow-IsArmed u ((now, asks) ∷ ms) y a h =
      follow-IsArmed u ms (await_command config now y) a.1
        (await_command-origin now y ∙ h.0, await_command-flag now y ∙ h.1)
  follow-IsArmed u ((now, _) ∷ ms) y a h = absurd (ground (arith, a.0))

  module _ (line : Bytes) (start : has_prefix line (codes "150 ") ≡ true)
      (proxied : config.data_chan_proxy ≡ true) (limited : is_positive config.proxy_timeout ≡ true)
      (kept : config.proxy_protocol && contains line (codes "500 PROXY") ≡ false) where
    gives-IsArmed :
        (u : ℕ) (y : Timing)
        → y.in_data_transfer ≡ false
        → IsArmed u (apply config u (gives true line) y)
    unfolding apply mark set_origin_dead_line marked
    gives-IsArmed u y f = rw (limited, f, kept, proxied, start) (refl, refl)

    -- With the data channel proxy and a proxy timeout, behind a login: where the line 150 of the
    -- origin comes behind the moment at which a transfer has both its connections, the connection to
    -- the origin has a deadline while the transfer runs, and no command of the client moves it.
    pub follow-late_start :
        (t u : ℕ) (ms : List (ℕ × Moment)) (y : Timing)
        → AllAsks ms
        → y.in_data_transfer ≡ false
        → IsArmed u (follow config ms (apply config u (gives true line) (apply config t copies y)))
    follow-late_start t u ms y a f =
        follow-IsArmed u ms _ a (gives-IsArmed u (apply config t copies y) (unfold apply in f))
