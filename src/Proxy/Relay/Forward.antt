-- ===== src/Proxy/Relay/Forward.antt =====
-- pftp/proxy.go: what the loop of startProxy passes on to a client that is logged in.
use pftp.Base.{Bool, false, ◌&&◌, List, [], ◌∷◌, ◌≡◌, All, if◌then◌else◌}
use pftp.Config.{Config}
use pftp.Proxy.Relay.{send_to_client}
use pftp.Proxy.{Proxy, is_multi_line}
use pftp.Text.{Bytes, codes, contains}
use pftp.World.{Env, World}

-- replies of one line
abbrev pub AllSingle : List Bytes → Type 0
AllSingle = All (λ line. is_multi_line line ≡ false)

module _ (env : Env) (config : Config) where
  -- the refusal of a PROXY header, which the client does not get
  abbrev pub is_refusal : Bytes → Bool
  is_refusal line = config.proxy_protocol && contains line (codes "500 PROXY")

  -- every line written to the client in its order, but for those refusals
  abbrev pub passed_on : List Bytes → World → World
  passed_on [] w = w
  passed_on (line ∷ more) w =
      passed_on more (if is_refusal line then w else send_to_client env line w)
