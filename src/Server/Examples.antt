-- ===== src/Server/Examples.antt =====
-- Examples of the server of pftp/server.go.
use pftp.Base.{◌+◌, ◌<◌, ◌^◌, ◌≤◌, ◌≡◌, refl, false, [], ◌∷◌, none, arith, length, leb}
use pftp.Config.{zero_config}
use pftp.Server.Connections.{
  System, Client, arrived, accept, decide, accepts, checks, Reach, begin, later,
}
use pftp.Server.Limit.{fresh, admitted_count, Reach-admitted_count, Reach-over_limit}
use pftp.Server.{Server}
use pftp.Session.Start.{new_client_handler, over_limit}
use pftp.World.Samples.{start, client}

-- two clients at most
abbrev server : Server
server = record {
  config = record zero_config { max_connections = 2 };
  tls_data = none;
  middleware = λ _. none;
  client_counter = 0;
  current_connection = 0;
  listener = none;
  shutdown = false;
}

abbrev one : System
one = accept client start (fresh server)

-- the first client
abbrev arrival : Client
arrival = record {
  id = 1;
  conn_counts = 1;
  phase = arrived;
  session = new_client_handler client server.config none start;
}

abbrev one_checked : System
one_checked = record one { clients = decide one.server.config arrival ∷ [] }

abbrev two : System
two = accept client start one_checked

abbrev three : System
three = accept client start two

one_is_reached : Reach (fresh server) one
one_is_reached = later begin (accepts client start (ground arith))

three_is_reached : Reach (fresh server) three
unfolding accept new_client_handler
three_is_reached =
    later
      (later (later one_is_reached (checks [] [] arrival refl refl))
        (accepts client start (ground arith)))
      (accepts client start (ground arith))

Reach-admitted_count_example : admitted_count three.clients ≤ 2
Reach-admitted_count_example = Reach-admitted_count server three (ground arith) three_is_reached

few : length three.clients + 1 < 2 ^ 31
unfolding accept
few = ground arith

Reach-over_limit_example :
    over_limit server.config (accept client start three).server.current_connection
    ≡ leb 2 (length three.clients)
Reach-over_limit_example =
    Reach-over_limit server three client start (ground arith) few three_is_reached
