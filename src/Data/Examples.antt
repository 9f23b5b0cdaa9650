-- ===== src/Data/Examples.antt =====
-- Examples of data handlers of pftp/data_handler.go.
use pftp.Address.{is_public_ip, parse_line_to_addr}
use pftp.Base.{none, some, ret, false, true, [], ◌∷◌, ◌≡◌, ◌≢◌, ◌⊎◌, inl, refl, Error}
use pftp.Config.{Config, zero_config}
use pftp.Data.{DataHandler, made, new_data_handler, close, origin_dial_addr}
use pftp.Data.Announce.{parse_port_command, parse_pasv_response, parse_epsv_response}
use pftp.Data.Announce.Epsv.{parse_epsv_response-dial}
use pftp.Data.Announce.Target.{
  AimsClient, HasBrackets, AimsOrigin, parse_port_command-AimsClient,
  parse_pasv_response-AimsOrigin,
}
use pftp.Data.Balance.{Balanced, new_data_handler-Balanced}
use pftp.Data.Close.{IsClosed, close-IsClosed}
use pftp.Net.{split_host_port}
use pftp.Text.Decimal.{itoa, atoi}
use pftp.Text.{Bytes, codes}
use pftp.World.Samples.{quiet, start, client, origin}

-- passive toward the client, EPSV toward the origin
abbrev mixed : Config
mixed = record zero_config { transfer_mode = codes "EPSV"; data_chan_proxy = true }

-- as new_data_handler makes it for PORT: nothing listens
abbrev fresh : DataHandler
fresh = record {
  client_conn = record {
    listener = none;
    communication_conn = some client;
    data_conn = none;
    original_remote_ip = codes "9.9.9.9";
    remote_ip = [];
    remote_port = [];
    local_ip = codes "7.7.7.7";
    local_port = codes "21";
    needs_listen = false;
    is_client = true;
    mode = codes "PORT";
  };
  origin_conn = record {
    listener = none;
    communication_conn = some origin;
    data_conn = none;
    original_remote_ip = codes "8.8.4.4";
    remote_ip = [];
    remote_port = [];
    local_ip = codes "10.0.0.5";
    local_port = codes "3000";
    needs_listen = false;
    is_client = false;
    mode = codes "EPSV";
  };
  closed = false;
}

abbrev listening_handler : DataHandler
listening_handler = record fresh {
  client_conn = record (fresh.client_conn) {
    listener = some (record { opened_at = 4; addr = codes "0.0.0.0:2020" });
    data_conn = some client;
  };
}

new_data_handler-Balanced_example :
    Balanced mixed
      (codes "PASV")
      start
      (new_data_handler quiet mixed (some client) (some origin) (codes "PASV") start)
new_data_handler-Balanced_example =
    new_data_handler-Balanced quiet mixed client origin (codes "PASV") start

close-IsClosed_example :
    IsClosed listening_handler
      (close quiet listening_handler start).0
      start
      (close quiet listening_handler start).2
close-IsClosed_example = close-IsClosed quiet listening_handler start refl

-- a private address in PORT is replaced by the client's own
abbrev aimed : DataHandler
aimed = record fresh {
  client_conn = record (fresh.client_conn) {
    remote_ip = codes "9.9.9.9";
    remote_port = codes "2020";
  };
}

port_parses : parse_port_command (codes "PORT 192,168,0,1,7,228\r\n") fresh ≡ ret (aimed, none)
unfolding parse_port_command itoa is_public_ip parse_line_to_addr
port_parses = refl

parse_port_command-AimsClient_example : AimsClient fresh aimed
parse_port_command-AimsClient_example =
    parse_port_command-AimsClient (codes "PORT 192,168,0,1,7,228\r\n") fresh (inl port_parses)

abbrev answered : DataHandler
answered = record fresh {
  origin_conn = record (fresh.origin_conn) {
    remote_ip = codes "8.8.8.8";
    remote_port = codes "2020";
  };
}

pasv_parses :
    parse_pasv_response mixed (codes "227 Entering Passive Mode (8,8,8,8,7,228).\r\n") fresh
    ≡ ret (answered, none)
unfolding parse_pasv_response itoa is_public_ip parse_line_to_addr
pasv_parses = refl

abbrev pasv_line : Bytes
pasv_line = codes "227 Entering Passive Mode (8,8,8,8,7,228).\r\n"

parse_pasv_response-AimsOrigin_example :
    (HasBrackets pasv_line × AimsOrigin false fresh answered)
    ⊎ ((¬ HasBrackets pasv_line) × ((answered ≡ fresh) × ◌≢◌ {A = Error} none none))
parse_pasv_response-AimsOrigin_example =
    parse_pasv_response-AimsOrigin mixed pasv_line fresh pasv_parses

fresh_made :
    new_data_handler quiet mixed (some client) (some origin) (codes "PORT") start
    ≡ (made fresh, start)
unfolding new_data_handler split_host_port
fresh_made = refl

abbrev extended : DataHandler
extended = record fresh { origin_conn = record (fresh.origin_conn) { remote_port = codes "2020" } }

epsv_parses :
    parse_epsv_response (codes "229 Entering Extended Passive Mode (|||2020|)\r\n") fresh
    ≡ ret (extended, none)
unfolding parse_epsv_response atoi
epsv_parses = refl

parse_epsv_response-dial_example : origin_dial_addr extended ≡ b':' ∷ codes "2020"
parse_epsv_response-dial_example =
    parse_epsv_response-dial quiet mixed client origin (codes "PORT") start start
      (codes "229 Entering Extended Passive Mode (|||2020|)\r\n") fresh_made epsv_parses
