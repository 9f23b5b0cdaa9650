-- ===== src/Proxy/Relay/Fuel.antt =====
-- pftp/proxy.go: how many rounds the loop of startProxy takes.
use pftp.Base.{
  ℕ, zero, suc, ◌<◌, ◌≤◌, not, ◌||◌, List, [], ◌∷◌, ◌++◌, Option, none, some, ◌≡◌, ◌≢◌, refl, arith,
  length, Outcome, ret, panic, ◌>>=◌, if_cases,
}
use pftp.Config.{Config}
use pftp.Proxy.Relay.{
  Round, after_complete, after_rewrite, relay_round, after_round, relay, start_proxy,
}
use pftp.Proxy.{Proxy, Reply, dropped, reply, rewrite, complete, gather}
use pftp.Command.{code_of}
use pftp.Text.{Bytes}
use pftp.World.{Env, World}

-- the lines behind a reply are no more than those behind its first line
gather-length :
    (code multi_line : Bytes) (more : List Bytes) {whole : Bytes} {rest : List Bytes}
    → gather code multi_line more ≡ ret (some (whole, rest))
    → length rest ≤ length more
unfolding gather
gather-length code multi_line [] h = cc
gather-length code multi_line (res ∷ more) {whole} {rest} h =
    ground (arith, gather-length code (multi_line ++ res) more {whole = whole} {rest = rest})

complete-length :
    (buff : Bytes) (more : List Bytes) {whole : Bytes} {rest : List Bytes}
    → complete buff more ≡ ret (some (whole, rest))
    → length rest ≤ length more
unfolding complete
complete-length buff more {whole} {rest} h =
    ground (arith, gather-length (code_of buff) buff more {whole = whole} {rest = rest})

-- no more lines than these
abbrev ShortReply : ℕ → Outcome (Option (Bytes × List Bytes)) → Type 0
ShortReply n (ret (some (whole, rest))) = length rest ≤ n
ShortReply n (ret none) = Unit
ShortReply n panic = Unit

abbrev Short : ℕ → Outcome Round → Type 0
Short n (ret (some rest, p, w)) = length rest ≤ n
Short n (ret (none, p, w)) = Unit
Short n panic = Unit

reply_short :
    (n : ℕ) (o : Outcome (Option (Bytes × List Bytes)))
    → ((whole : Bytes) (rest : List Bytes) → o ≡ ret (some (whole, rest)) → length rest ≤ n)
    → ShortReply n o
reply_short n (ret (some (whole, rest))) h = h whole rest refl
reply_short n (ret none) h = tt
reply_short n panic h = tt

module _ (env : Env) (config : Config) where
  after_complete-Short :
      (n : ℕ) (p : Proxy) (w : World) (o : Outcome (Option (Bytes × List Bytes)))
      → ShortReply n o
      → Short n (o >>= λ x. ret (after_complete env p w x))
  after_complete-Short n p w (ret (some (whole, rest))) h = h
  after_complete-Short n p w (ret none) h = tt
  after_complete-Short n p w panic h = tt

  after_rewrite-Short :
      (more : List Bytes) (m : Outcome (Reply × Proxy × World))
      → Short (length more) (m >>= after_rewrite env more)
  after_rewrite-Short more (ret (dropped, p, w)) = omega arith
  after_rewrite-Short more (ret (reply buff, p, w)) =
      after_complete-Short (length more) p w (complete buff more)
        (reply_short (length more) (complete buff more) (λ whole rest. complete-length buff more))
  after_rewrite-Short more panic = tt

  -- not out of rounds
  abbrev Ended : Outcome (Option (Proxy × World)) → Type 0
  Ended o = o ≢ ret none

  after_round-Ended :
      (n : ℕ) (next : List Bytes → Proxy → World → Outcome (Option (Proxy × World)))
      (m : Outcome Round)
      → Short n m
      → ((rest : List Bytes) (p : Proxy) (w : World) → length rest ≤ n → Ended (next rest p w))
      → Ended (m >>= after_round env next)
  after_round-Ended n next (ret (some rest, p, w)) h k = k rest p w h
  after_round-Ended n next (ret (none, p, w)) h k = λ e. cc
  after_round-Ended n next panic h k = λ e. cc

  relay-Ended :
      (n : ℕ) (lines : List Bytes) (p : Proxy) (w : World)
      → length lines < n
      → Ended (relay env config n lines p w)
  unfolding relay relay_round
  relay-Ended zero lines p w h = absurd (omega arith)
  relay-Ended (suc n) [] p w h = λ e. cc
  relay-Ended (suc n) (line ∷ more) p w h =
      after_round-Ended (length more) (relay env config n) _
        (after_rewrite-Short more (rewrite config line p w))
        (λ rest p w k. relay-Ended n rest p w (ground arith))

  -- Whatever lines come from the origin, the loop comes to its end, a read error or a panic, in a round
  -- for each line and one more.
  pub start_proxy-ends :
      (lines : List Bytes) (p : Proxy) (w : World) → start_proxy env config lines p w ≢ ret none
  unfolding start_proxy
  start_proxy-ends lines p w =
      if_cases Ended (p.stop || not p.pass_through) (λ e. cc)
        (relay-Ended (suc (length lines)) lines p w (omega arith))
