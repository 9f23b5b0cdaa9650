-- ===== src/Data/Transfer/Examples.antt =====
-- Examples of transfers of pftp/data_handler.go.
use pftp.Base.{true, false, List, [], ◌∷◌, Option, none, some, ◌≡◌, refl}
use pftp.Data.Copy.{Round, more, eof, copy_packets}
use pftp.Data.Transfer.Copies.{linked, linked_world, start_data_transfer-copies}
use pftp.Data.Close.{IsClosed}
use pftp.Data.Transfer.{origin_first, Transfer, completed, start_data_transfer}
use pftp.Data.{Connector, DataHandler, origin_dial_addr}
use pftp.Text.{Bytes, codes}
use pftp.Tls.{TlsData, TlsDataSet}
use pftp.World.Samples.{quiet, start, client, origin}
use pftp.World.{Conn, World, Listener}

abbrev config_of_tls : TlsData
config_of_tls = record {
  root_ca = none;
  cert = none;
  config = some (record {
    min_version = 0x0301;
    max_version = 0x0304;
    cipher_suites = [];
    server_name = [];
    insecure_skip_verify = true;
    certificate = none;
  });
}

abbrev tls : TlsDataSet
tls = record {
  for_client = some config_of_tls;
  for_origin = some config_of_tls;
  version = 0;
  cipher_suite = 0;
  server_name = [];
}

abbrev listener : Listener
listener = record { opened_at = 4; addr = codes "0.0.0.0:2020" }

abbrev side : Option Listener → Conn → Connector
side l c = record {
  listener = l;
  communication_conn = some c;
  data_conn = none;
  original_remote_ip = codes "8.8.4.4";
  remote_ip = codes "8.8.4.4";
  remote_port = codes "3030";
  local_ip = [];
  local_port = [];
  needs_listen = elim l [ none ↦ false | some _ ↦ true ];
  is_client = true;
  mode = codes "PASV";
}

-- the client connects to the proxy, and the proxy to the origin
abbrev passive : DataHandler
passive = record {
  client_conn = side (some listener) client;
  origin_conn = side none origin;
  closed = false;
}

-- the origin sends a file, the client nothing
abbrev file : List Round
file =
    record {
      closed = false;
      chunk = codes "abc";
      write_error = none;
      ending = more;
      close_error = none;
    }
    ∷ record { closed = false; chunk = []; write_error = none; ending = eof; close_error = none }
    ∷ []

abbrev nothing : List Round
nothing =
    record { closed = false; chunk = []; write_error = none; ending = eof; close_error = none } ∷ []

abbrev behind : Transfer × DataHandler × World
behind = start_data_transfer quiet false tls origin_first file nothing passive start

abbrev banner : List Bytes
banner = codes "220 new origin\r\n" ∷ codes "234 go on\r\n" ∷ []

abbrev dialled_to : Bytes
dialled_to = origin_dial_addr passive

start_data_transfer-copies_example :
    (behind.0 ≡ completed (copy_packets file) (copy_packets nothing))
    × IsClosed
        (linked quiet tls passive start listener
          (codes "7.7.7.7:2020")
          (codes "9.9.9.9:5000")
          (codes "10.0.0.5:3001")
          dialled_to
          banner)
        behind.1
        (linked_world quiet tls passive start listener
          (codes "7.7.7.7:2020")
          (codes "9.9.9.9:5000")
          (codes "10.0.0.5:3001")
          dialled_to
          banner)
        behind.2
unfolding origin_dial_addr
start_data_transfer-copies_example =
    start_data_transfer-copies quiet tls passive start listener (codes "7.7.7.7:2020")
      (codes "9.9.9.9:5000") (codes "10.0.0.5:3001") dialled_to banner refl refl refl refl refl refl
      origin_first file nothing
