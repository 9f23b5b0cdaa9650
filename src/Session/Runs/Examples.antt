-- ===== src/Session/Runs/Examples.antt =====
-- Examples of whole sessions of pftp/client_handler.go.
use pftp.Base.{true, false, List, [], ◌∷◌, none, some, ◌≡◌, refl, Outcome, ret, panic}
use pftp.Config.{Config, zero_config}
use pftp.Command.{code_of, get_command, command_line_check}
use pftp.Proxy.Life.{
  new_proxy_server, switch_origin, reconnect, introduce, set_up, stop_relay, close_proxy,
}
use pftp.Proxy.Relay.{relay_round, write_reply, send_to_client}
use pftp.Proxy.Switch.{is_auth, send_tls_command, send_one, after_auth, auth_reply, wrap}
use pftp.Proxy.Relay.Login.{is_login}
use pftp.Proxy.{
  Proxy, destroy_data_handler, rewrite, complete, greet, unsuspend, suspend, note_login,
}
use pftp.Session.Dispatch.{
  Middleware, handle_command, run_command, dispatch, handlers, suspended, pass_line,
}
use pftp.Session.DataCommands.{handle_data}
use pftp.Session.Guards.{login_first}
use pftp.Session.Runs.Laws.{run-login_behind, run-login_first}
use pftp.Session.Runs.Tls.{entered, run-in_tls}
use pftp.Session.Runs.{Turn, commanded, replied, turn, course, run, login_behind}
use pftp.Session.Secure.{handle_auth, shake_hands, adopt_tls}
use pftp.Session.Start.{new_client_handler, enter}
use pftp.Session.User.{connect_proxy, log_in, log_in_by, after_connect, handle_user}
use pftp.Session.{Session, handle_transfer, parse_line, response, send_to_origin}
use pftp.Text.{codes, same, to_upper}
use pftp.Tls.{TlsData}
use pftp.World.Samples.{quiet, start, client}
use pftp.World.{unreachable, Conn, Env}

-- no middleware
abbrev unasked : Middleware
unasked _ = none

abbrev config : Config
config = record zero_config { remote_addr = codes "8.8.4.4:21"; max_connections = 9 }

-- a certificate for the clients
abbrev shared : TlsData
shared = record {
  root_ca = none;
  cert = none;
  config = some (record {
    min_version = 0x0301;
    max_version = 0x0304;
    cipher_suites = [];
    server_name = [];
    insecure_skip_verify = false;
    certificate = none;
  });
}

abbrev fresh : Session
fresh = entered quiet 1 client config (some shared) start

abbrev turns : List Turn
turns = replied (codes "220 origin\r\n") [] ∷ commanded (codes "AUTH TLS\r\n") ∷ []

abbrev state_of : Outcome Session → Session
state_of (ret s) = s
state_of panic = fresh

abbrev secured : Session
secured = state_of (run quiet unasked turns fresh)

ran : run quiet unasked turns fresh ≡ ret secured
unfolding run course turn enter new_client_handler connect_proxy new_proxy_server relay_round
    rewrite complete greet code_of
ran = refl

in_tls : secured.control_in_tls ≡ true
unfolding run course turn enter new_client_handler connect_proxy new_proxy_server relay_round
    rewrite complete greet code_of handle_command run_command dispatch handlers parse_line suspended
    handle_auth response get_command to_upper shake_hands adopt_tls same
in_tls = refl

abbrev waiting_proxy : Proxy
waiting_proxy = record {
  origin = some (record {
    id = 0;
    remote_addr = codes "8.8.4.4:21";
    local_addr = codes "10.0.0.5:3001";
    in_tls = false;
  });
  pass_through = true;
  stop = false;
  is_loggedin = false;
  welcome_msg = codes "220 \r\n";
  data_connector = none;
}

there : secured.proxy ≡ some waiting_proxy
unfolding run course turn enter new_client_handler connect_proxy new_proxy_server relay_round
    rewrite complete greet code_of handle_command run_command dispatch handlers parse_line suspended
    handle_auth response get_command to_upper shake_hands adopt_tls same unsuspend suspend
    note_login
there = refl

abbrev switched : Session
switched = (handle_user quiet secured).1

-- the new origin is connected, told AUTH, and sent the line
ended : handle_user quiet secured ≡ (ret none, switched)
unfolding run course turn enter new_client_handler connect_proxy new_proxy_server relay_round
    rewrite complete greet code_of handle_command run_command dispatch handlers parse_line suspended
    handle_auth response get_command to_upper shake_hands adopt_tls same unsuspend suspend
    note_login handle_user after_connect log_in log_in_by switch_origin reconnect introduce set_up
    send_tls_command send_one is_auth after_auth auth_reply wrap send_to_origin command_line_check
ended = refl

run-in_tls_example :
    (q : Proxy) × (c : Conn) × (switched.proxy ≡ some q) × (q.origin ≡ some c) × (c.in_tls ≡ true)
run-in_tls_example =
    run-in_tls quiet unasked 1 client config (some shared) start turns secured switched
      waiting_proxy ran in_tls there ended

-- a session with a proxy, and a reply that tells of a login
abbrev visitor : Session
visitor = record secured { proxy = some waiting_proxy }

abbrev exchange : List Turn
exchange = commanded (codes "NOOP\r\n") ∷ replied (codes "230 welcome\r\n") [] ∷ []

abbrev member : Session
member = state_of (run quiet unasked exchange visitor)

logs_in : run quiet unasked exchange visitor ≡ ret member
unfolding run course turn enter new_client_handler connect_proxy new_proxy_server relay_round
    rewrite complete greet code_of handle_command run_command dispatch handlers parse_line suspended
    handle_auth response get_command to_upper shake_hands adopt_tls same pass_line send_to_origin
    command_line_check write_reply send_to_client note_login
logs_in = refl

no_login : is_login waiting_proxy.welcome_msg ≡ false
unfolding code_of same
no_login = refl

run-login_behind_example :
    (q : Proxy) × (member.proxy ≡ some q)
    × (q.is_loggedin ≡ login_behind exchange false)
    × (q.pass_through ≡ true)
run-login_behind_example =
    run-login_behind quiet unasked exchange visitor member waiting_proxy refl refl no_login logs_in

-- a command alone is no login
abbrev refused_session : Session
refused_session = state_of (run quiet unasked (commanded (codes "NOOP\r\n") ∷ []) visitor)

no_login_yet : run quiet unasked (commanded (codes "NOOP\r\n") ∷ []) visitor ≡ ret refused_session
unfolding run course turn enter new_client_handler connect_proxy new_proxy_server relay_round
    rewrite complete greet code_of handle_command run_command dispatch handlers parse_line suspended
    handle_auth response get_command to_upper shake_hands adopt_tls same
no_login_yet = refl

run-login_first_example :
    (handle_transfer quiet refused_session ≡ (login_first, refused_session))
    × (handle_data quiet refused_session ≡ (login_first, refused_session))
run-login_first_example =
    run-login_first quiet unasked (commanded (codes "NOOP\r\n") ∷ []) visitor refused_session
      waiting_proxy refl refl no_login no_login_yet refl

-- behind a switch that fails there is no reply of the origin any more
abbrev lost_env : Env
lost_env = record quiet { dial = λ _ _. unreachable (codes "no route") }

abbrev behind_failure : List Turn
behind_failure = commanded (codes "USER a\r\n") ∷ replied (codes "230 welcome\r\n") [] ∷ []

no_reply : run lost_env unasked behind_failure visitor ≡ panic
unfolding run course turn enter new_client_handler connect_proxy new_proxy_server relay_round
    rewrite complete greet code_of handle_command run_command dispatch handlers parse_line suspended
    handle_auth response get_command to_upper shake_hands adopt_tls same unsuspend suspend
    note_login handle_user after_connect switch_origin reconnect stop_relay close_proxy
    destroy_data_handler write_reply send_to_client
no_reply = refl
