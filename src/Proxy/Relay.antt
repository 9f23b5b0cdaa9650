-- ===== src/Proxy/Relay.antt =====
-- pftp/proxy.go: the loop that reads the replies of the origin and passes them on (startProxy,
-- sendToClient), without its timeouts. A switch of the origin stops it between two replies.
pub mod Fuel
pub mod Forward
pub mod Login
use pftp.Base.{
  ℕ, zero, suc, Bool, not, ◌||◌, List, [], ◌∷◌, Option, none, some, if◌then◌else◌, Error, Outcome,
  ret, panic, ◌>>=◌, length,
}
use pftp.Config.{Config}
use pftp.Proxy.Life.{close_proxy}
use pftp.Proxy.{Proxy, Reply, dropped, reply, rewrite, complete, client_text}
use pftp.Text.{Bytes}
use pftp.World.{to_client, Env, World, tick, lose}

-- what a round leaves: the lines behind its reply, or none where a read failed
abbrev pub Round : Type 0
Round = Option (List Bytes) × Proxy × World

module _ (env : Env) where
  -- `sendToClient`, whose error is only logged
  unfoldable pub send_to_client : Bytes → World → World
  send_to_client buff w = elim (env.write w.clock) [
    | none ↦ tick (to_client (client_text buff)) w
    | some _ ↦ lose w
  ]

  -- a suspended proxy keeps the reply from the client
  unfoldable pub write_reply : Bytes → Proxy → World → World
  write_reply buff p w = if p.pass_through then send_to_client buff w else w

  abbrev pub after_complete : Proxy → World → Option (Bytes × List Bytes) → Round
  after_complete p w none = (none, p, w)
  after_complete p w (some (buff, rest)) = (some rest, p, write_reply buff p w)

  abbrev pub after_rewrite : List Bytes → Reply × Proxy × World → Outcome Round
  after_rewrite more (dropped, p, w) = ret (some more, p, w)
  after_rewrite more (reply buff, p, w) = complete buff more >>= λ o. ret (after_complete p w o)

  -- one round of the loop, on its first line and the lines that can be read behind it
  unfoldable pub relay_round : Config → Bytes → List Bytes → Proxy → World → Outcome Round
  relay_round config line more p w = rewrite config line p w >>= after_rewrite more

  -- a read error ends the loop, and the proxy is closed
  abbrev pub cut_off : Proxy → World → Outcome (Option (Proxy × World))
  cut_off p w = let (_, p', w') = close_proxy env p w in ret (some (p', w'))

  abbrev pub after_round :
      (List Bytes → Proxy → World → Outcome (Option (Proxy × World)))
      → Round
      → Outcome (Option (Proxy × World))
  after_round next (none, p, w) = cut_off p w
  after_round next (some rest, p, w) = next rest p w

  -- the loop, up to the read error behind these lines, in so many rounds at most, with `none` where
  -- they do not do
  unfoldable pub relay : Config → ℕ → List Bytes → Proxy → World → Outcome (Option (Proxy × World))
  relay config zero lines p w = ret none
  relay config (suc n) [] p w = cut_off p w
  relay config (suc n) (line ∷ more) p w =
      relay_round config line more p w >>= after_round (relay config n)

  -- `startProxy`: a proxy that is stopped or suspended reads nothing; else every round reads a line
  unfoldable pub start_proxy :
      Config → List Bytes → Proxy → World → Outcome (Option (Proxy × World))
  start_proxy config lines p w =
      let rest = relay config (suc (length lines)) lines p w in
      if p.stop || not p.pass_through then ret (some (p, w)) else rest
