-- ===== src/Session/Examples.antt =====
-- Examples of sessions of pftp/handle_commands.go.
use pftp.Base.{◌++◌, Bool, true, false, none, some, [], ◌≡◌, ◌≢◌, refl, arith}
use pftp.Command.{crlf}
use pftp.Config.{zero_config}
use pftp.Data.{Connector, DataHandler}
use pftp.Proxy.{Proxy, is_data_handler_available}
use pftp.Session.Guards.{starts, handle_transfer-twice}
use pftp.Session.Header.{header, IsBare}
use pftp.Session.{direction, Session, handle_transfer}
use pftp.Net.{parse_ip}
use pftp.Text.Split.{Lacks}
use pftp.Text.{Bytes, codes}
use pftp.World.Samples.{quiet, start, client, origin}

abbrev proxied : Proxy
proxied = record {
  origin = some origin;
  pass_through = true;
  stop = false;
  is_loggedin = false;
  welcome_msg = codes "220 hello\r\n";
  data_connector = none;
}

abbrev side : Bool → Bytes → Connector
side is_client mode = record {
  listener = none;
  communication_conn = none;
  data_conn = none;
  original_remote_ip = codes "9.9.9.9";
  remote_ip = [];
  remote_port = [];
  local_ip = [];
  local_port = [];
  needs_listen = false;
  is_client = is_client;
  mode = mode;
}

abbrev bare : DataHandler
bare = record {
  client_conn = side true (codes "PORT");
  origin_conn = side false (codes "PASV");
  closed = false;
}

abbrev session : Session
session = record {
  config = record zero_config { data_chan_proxy = true; transfer_mode = codes "CLIENT" };
  conn = client;
  tls = record {
    for_client = none;
    for_origin = none;
    server_name = [];
    version = 0;
    cipher_suite = 0;
  };
  control_in_tls = true;
  transfer_in_tls = false;
  line = codes "PROT P\r\n";
  command = codes "PROT";
  param = codes "P";
  proxy = some proxied;
  context = record { remote_addr = codes "8.8.4.4:21"; client_addr = codes "9.9.9.9:4000" };
  src_ip = [];
  previous_tls_commands = [];
  world = start;
}

-- behind a login, with an open data handler
abbrev ready : Session
ready = record session {
  line = codes "RETR a\r\n";
  command = codes "RETR";
  param = codes "a";
  proxy = some (record proxied { is_loggedin = true; data_connector = some bare });
}

abbrev ready_proxy : Proxy
ready_proxy = record proxied { is_loggedin = true; data_connector = some bare }

handle_transfer-twice_example :
    (starts (handle_transfer quiet (handle_transfer quiet ready).1).1.world.events ≡ 2)
    × ((handle_transfer quiet (handle_transfer quiet ready).1).1.proxy ≡ some ready_proxy)
unfolding is_data_handler_available direction
handle_transfer-twice_example =
    handle_transfer-twice quiet ready ready_proxy (codes "download") refl refl refl refl refl

abbrev asking : Session
asking = record ready { line = codes "PASV\r\n"; command = codes "PASV" }

-- behind a load balancer
abbrev balanced : Session
balanced = record session {
  line =
      header (codes "PROXY") (codes "TCP4") (codes "9.8.7.6") (codes "10.0.0.1") (codes "4000")
        (codes "21")
      ++ crlf;
  command = codes "PROXY";
}

source_parses : parse_ip (codes "9.8.7.6") ≢ none
unfolding parse_ip
source_parses = ground arith

destination_parses : parse_ip (codes "10.0.0.1") ≢ none
unfolding parse_ip
destination_parses = ground arith

proxy-Lacks : Lacks b' ' (codes "PROXY")
proxy-Lacks = ground arith

tcp-Lacks : Lacks b' ' (codes "TCP4")
tcp-Lacks = ground arith

source-Lacks : Lacks b' ' (codes "9.8.7.6")
source-Lacks = ground arith

destination-Lacks : Lacks b' ' (codes "10.0.0.1")
destination-Lacks = ground arith

port-Lacks : Lacks b' ' (codes "4000")
port-Lacks = ground arith

header-IsBare : IsBare (
    header
      (codes "PROXY")
      (codes "TCP4")
      (codes "9.8.7.6")
      (codes "10.0.0.1")
      (codes "4000")
      (codes "21"))
header-IsBare = ground arith
