-- ===== src/Deadlines/Copying.antt =====
-- The deadlines of the control connections while a transfer runs (pftp/client_handler.go,
-- pftp/proxy.go).
use pftp.Base.{
  ℕ, not, Bool-cases, inl, inr, Bool, true, false, List, [], ◌∷◌, none, ◌≡◌, refl, ◌∙◌, ap, arith,
  All,
}
use pftp.Config.{Config}
use pftp.Deadlines.{
  Timing, is_positive, set_client_dead_line, marked, Moment, asks, gives, await_command,
  set_origin_dead_line, mark, apply, follow,
}
use pftp.Proxy.{mark_transfer}
use pftp.Text.{Bytes, codes, has_prefix}
use pftp.World.{World}

-- The flag follows the lines as in the read loop.
mark_transfer-marked :
    (buff : Bytes) (w : World)
    → (mark_transfer buff w).in_data_transfer ≡ marked buff w.in_data_transfer
unfolding mark_transfer marked
mark_transfer-marked buff w = ground arith

-- a moment of a session while a transfer runs: commands, and lines other than the 226 that ends it
abbrev pub is_amid : Moment → Bool
is_amid asks = true
is_amid (gives _ line) = not (has_prefix line (codes "226 "))
is_amid _ = false

abbrev pub AllAmid : List (ℕ × Moment) → Type 0
AllAmid = All (λ m. is_amid m.1 ≡ true)

-- a transfer runs, and neither control connection has a deadline
abbrev pub copying : Timing
copying = record { client = none; origin = none; in_data_transfer = true }

module _ (config : Config) where
  set_origin_dead_line-copying : (now : ℕ) → set_origin_dead_line config now copying ≡ copying
  unfolding set_origin_dead_line
  set_origin_dead_line-copying now = elim (Bool-cases (is_positive config.proxy_timeout)) [
    | inl h ↦ rw h refl
    | inr h ↦ rw h refl
  ]

  marked-amid :
      (line : Bytes) → not (has_prefix line (codes "226 ")) ≡ true → marked line true ≡ true
  unfolding marked
  marked-amid line h = ground arith

  mark-copying :
      (is_loggedin : Bool) (line : Bytes)
      → not (has_prefix line (codes "226 ")) ≡ true
      → mark config is_loggedin line copying ≡ copying
  unfolding mark
  mark-copying is_loggedin line h = rw (marked-amid line h) (ground arith)

  await_command-copying : (now : ℕ) → await_command config now copying ≡ copying
  unfolding await_command set_client_dead_line
  await_command-copying now = elim (Bool-cases (is_positive config.idle_timeout)) [
    | inl h ↦ rw h refl
    | inr h ↦ rw h refl
  ]

  apply-copying : (now : ℕ) (m : Moment) → is_amid m ≡ true → apply config now m copying ≡ copying
  unfolding apply
  apply-copying now asks h = await_command-copying now
  apply-copying now (gives is_loggedin line) h =
      ap (mark config is_loggedin line) (set_origin_dead_line-copying now)
      ∙ mark-copying is_loggedin line h
  apply-copying now _ h = absurd (ground arith)

  -- While the flag of a transfer is set and neither control connection has a deadline, any commands
  -- and any lines but the 226 that ends the transfer leave the two without one and the flag set.
  pub follow-copying : (ms : List (ℕ × Moment)) → AllAmid ms → follow config ms copying ≡ copying
  unfolding follow
  follow-copying [] h = refl
  follow-copying ((now, m) ∷ ms) h = rw (apply-copying now m h.0) (follow-copying ms h.1)
