-- ===== src/Main/Examples.antt =====
-- Examples of main.go.
use pftp.Base.{true, false, none, some, [], ret, ◌≡◌, refl}
use pftp.Config.{zero_config}
use pftp.Command.{get_command, first}
use pftp.Main.Unknown.{user_not_found, left_alone, handle_command-unknown}
use pftp.Main.{Web, no_domain, no_answer, request_to_server, get_domain_from_web_api, with_user}
use pftp.Proxy.{Proxy}
use pftp.Server.{Server}
use pftp.Session.Dispatch.{handle_command}
use pftp.Session.{Session, parse_line}
use pftp.Text.{codes, to_upper}
use pftp.World.Samples.{quiet, start, client, origin}

-- the web API does not answer
abbrev offline : Web
offline = record {
  load_uri = λ _. (codes "http://api/getDomain?username=%s", none);
  sprintf = λ format param. param;
  get = λ _. no_answer (codes "timeout");
  decode = λ _. none;
}

abbrev server : Server
server = record {
  config = zero_config;
  tls_data = none;
  middleware = λ _. none;
  client_counter = 0;
  current_connection = 0;
  listener = none;
  shutdown = false;
}

abbrev plain : Proxy
plain = record {
  origin = some origin;
  pass_through = true;
  stop = false;
  is_loggedin = false;
  welcome_msg = codes "220 hello\r\n";
  data_connector = none;
}

abbrev visitor : Session
visitor = record {
  config = zero_config;
  conn = client;
  tls = record {
    for_client = none;
    for_origin = none;
    server_name = [];
    version = 0;
    cipher_suite = 0;
  };
  control_in_tls = false;
  transfer_in_tls = false;
  line = [];
  command = [];
  param = [];
  proxy = some plain;
  context = record { remote_addr = codes "8.8.4.4:21"; client_addr = codes "9.9.9.9:4000" };
  src_ip = codes "9.9.9.9:4000";
  previous_tls_commands = [];
  world = start;
}

named : to_upper quiet.unicode_upper (first (get_command (codes "USER bob\r\n"))) ≡ codes "USER"
unfolding to_upper get_command
named = refl

unanswered :
    get_domain_from_web_api offline
      (codes "config.toml")
      (parse_line quiet.unicode_upper (codes "USER bob\r\n") visitor).param
    ≡ ret (no_domain (codes "timeout"))
unfolding get_domain_from_web_api request_to_server
unanswered = refl

handle_command-unknown_example :
    handle_command quiet
      (with_user offline quiet.unicode_upper (codes "config.toml") server).middleware
      (codes "USER bob\r\n")
      visitor
    ≡ (
      some user_not_found,
      left_alone plain (parse_line quiet.unicode_upper (codes "USER bob\r\n") visitor),
    )
handle_command-unknown_example =
    handle_command-unknown quiet offline (codes "config.toml") server (codes "USER bob\r\n") visitor
      plain (codes "timeout") named refl refl unanswered
