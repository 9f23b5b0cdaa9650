-- ===== src/Data/Open.antt =====
-- pftp/data_handler.go: the listeners that setNewListener opens.
use pftp.Address.{get_listen_port}
use pftp.Base.{
  ℕ, zero, suc, ◌+◌, ◌≤◌, ◌<◌, List, [], ◌∷◌, Option, none, some, ◌≡◌, ◌≢◌, arith, Outcome, ret,
  panic,
}
use pftp.Config.{Config}
use pftp.Data.{
  DataHandler, Search, found, gave_up, crashed, out_of_rounds, listen_round, listen_loop,
  set_new_listener, connection_timeout,
}
use pftp.Text.{Bytes}
use pftp.World.{Listener, Event, opened, released, slept, Env, World, tick}

-- how many listeners the world has seen opened, and released
abbrev pub opens : List Event → ℕ
opens [] = 0
opens (opened _ ∷ es) = suc (opens es)
opens (_ ∷ es) = opens es

abbrev pub releases : List Event → ℕ
releases [] = 0
releases (released _ ∷ es) = suc (releases es)
releases (_ ∷ es) = releases es

abbrev pub listening_on : Option Listener → ℕ
listening_on none = 0
listening_on (some _) = 1

-- the listeners that a handler has open
abbrev pub listeners : DataHandler → ℕ
listeners d = listening_on d.client_conn.listener + listening_on d.origin_conn.listener

-- A search opens the listener that it finds, and no other.
abbrev pub Searched : World → Search × World → Type 0
Searched w (found _, w') =
    (opens w'.events ≡ opens w.events + 1) × (releases w'.events ≡ releases w.events)
Searched w (gave_up _, w') =
    (opens w'.events ≡ opens w.events) × (releases w'.events ≡ releases w.events)
Searched w (crashed, w') = Unit
Searched w (out_of_rounds, w') = Unit

module _ (env : Env) where
  listen_round-rounds :
      (counter : ℕ) (port : Outcome Bytes) (w : World) (again : World → Search × World)
      → (counter ≤ connection_timeout → (again (tick slept w)).0 ≢ out_of_rounds)
      → (listen_round env counter port w again).0 ≢ out_of_rounds
  unfolding listen_round
  listen_round-rounds counter panic w again h = cc
  listen_round-rounds counter (ret port) w again h = ground arith

  -- With as many rounds as the counter has still to go, the loop never runs out of them.
  listen_loop-rounds :
      (rounds counter : ℕ) (range : Bytes) (w : World)
      → connection_timeout + 1 ≤ rounds + counter
      → 0 < rounds
      → (listen_loop env rounds range counter w).0 ≢ out_of_rounds
  unfolding listen_loop
  listen_loop-rounds zero counter range w h p = absurd (omega arith)
  listen_loop-rounds (suc rounds) counter range w h p =
      listen_round-rounds (counter + 1) (get_listen_port (env.intn w.clock) range) w
        (listen_loop env rounds range (counter + 1))
        (λ early.
          listen_loop-rounds rounds (counter + 1) range (tick slept w) (omega arith) (omega arith))

  -- setNewListener always comes to an end, with a listener, an error or a panic, after 31 attempts at
  -- most: the loop's rounds suffice.
  pub set_new_listener-ends :
      (config : Config) (w : World) → (set_new_listener env config w).0 ≢ out_of_rounds
  unfolding set_new_listener
  set_new_listener-ends config w =
      listen_loop-rounds 31 0 config.data_port_range w (omega arith) (omega arith)

  listen_round-Searched :
      (counter : ℕ) (port : Outcome Bytes) (w : World) (again : World → Search × World)
      → Searched (tick slept w) (again (tick slept w))
      → Searched w (listen_round env counter port w again)
  unfolding listen_round
  listen_round-Searched counter panic w again h = tt
  listen_round-Searched counter (ret port) w again h = ground arith

  pub listen_loop-Searched :
      (rounds counter : ℕ) (range : Bytes) (w : World)
      → Searched w (listen_loop env rounds range counter w)
  unfolding listen_loop
  listen_loop-Searched zero counter range w = tt
  listen_loop-Searched (suc rounds) counter range w =
      listen_round-Searched (counter + 1) (get_listen_port (env.intn w.clock) range) w
        (listen_loop env rounds range (counter + 1))
        (listen_loop-Searched rounds (counter + 1) range (tick slept w))

  pub set_new_listener-Searched :
      (config : Config) (w : World) → Searched w (set_new_listener env config w)
  unfolding set_new_listener
  set_new_listener-Searched config w = listen_loop-Searched 31 0 config.data_port_range w
