-- ===== src/Proxy/Examples.antt =====
-- Examples of the replies that pftp/proxy.go passes on.
use pftp.Address.{is_public_ip, parse_line_to_addr}
use pftp.Base.{
  true, false, none, some, [], ◌∷◌, ◌++◌, ◌≡◌, ◌≢◌, ◌⊎◌, refl, arith, if◌then◌else◌, not, ◌||◌, ret,
  panic,
}
use pftp.Command.{code_of}
use pftp.Config.{Config, zero_config}
use pftp.Data.Announce.{parse_pasv_response}
use pftp.Data.{DataHandler}
use pftp.Net.{parse_ip, parse_ipv4}
use pftp.Proxy.Masquerade.{rewrite-pasv_reply}
use pftp.Proxy.MultiLine.{IsLine, complete-returns, complete-concat, concat}
use pftp.Proxy.Replies.{parse_pasv_response-pasv_reply}
use pftp.Proxy.Rewrite.{Follows, rewrite-Follows}
use pftp.Proxy.{
  Proxy, complete, pasv_reply, rewrite, dropped, reply, listen_port, note_login, greet,
  data_channel, read_announcement, on_connector, announce, mode_reply, mark_transfer,
}
use pftp.Text.Decimal.{itoa}
use pftp.Text.{Bytes, codes, same, has_prefix}
use pftp.World.Samples.{start, client, origin}
use pftp.World.{Listener}

-- passive, behind a NAT
abbrev behind_nat : Config
behind_nat = record zero_config {
  transfer_mode = codes "PASV";
  data_chan_proxy = true;
  masquerade_ip = codes "5.6.7.8";
}

abbrev own_listener : Listener
own_listener = record { opened_at = 4; addr = codes "0.0.0.0:2020" }

abbrev passive_handler : DataHandler
passive_handler = record {
  client_conn = record {
    listener = some own_listener;
    communication_conn = some client;
    data_conn = none;
    original_remote_ip = codes "9.9.9.9";
    remote_ip = [];
    remote_port = [];
    local_ip = codes "7.7.7.7";
    local_port = codes "21";
    needs_listen = true;
    is_client = true;
    mode = codes "PASV";
  };
  origin_conn = record {
    listener = none;
    communication_conn = some origin;
    data_conn = none;
    original_remote_ip = codes "8.8.4.4";
    remote_ip = [];
    remote_port = [];
    local_ip = codes "10.0.0.5";
    local_port = codes "3000";
    needs_listen = false;
    is_client = false;
    mode = codes "PASV";
  };
  closed = false;
}

abbrev logged_in : Proxy
logged_in = record {
  origin = some origin;
  pass_through = true;
  stop = false;
  is_loggedin = true;
  welcome_msg = codes "220 hello\r\n";
  data_connector = some passive_handler;
}

abbrev origin_line : Bytes
origin_line = codes "227 Entering Passive Mode (8,8,8,8,7,229).\r\n"

abbrev after_line : Proxy
after_line = record logged_in {
  data_connector = some (record passive_handler {
    origin_conn = record (passive_handler.origin_conn) {
      remote_ip = codes "8.8.8.8";
      remote_port = codes "2021";
    };
  });
}

own_address :
    rewrite behind_nat origin_line logged_in start
    ≡ ret (reply (pasv_reply (codes "5.6.7.8") (listen_port own_listener)), after_line, start)
unfolding rewrite parse_pasv_response is_public_ip parse_line_to_addr itoa note_login same code_of
    greet data_channel read_announcement has_prefix on_connector announce mode_reply mark_transfer
own_address = refl

is_227 : has_prefix origin_line (codes "227 ") ≡ true
unfolding has_prefix
is_227 = refl

rewrite-pasv_reply_example :
    (reply (pasv_reply (codes "5.6.7.8") (listen_port own_listener)) ≡ dropped)
    ⊎ (reply (pasv_reply (codes "5.6.7.8") (listen_port own_listener))
        ≡ reply (pasv_reply (codes "5.6.7.8") (listen_port own_listener)))
rewrite-pasv_reply_example =
    rewrite-pasv_reply behind_nat origin_line logged_in passive_handler own_listener start refl refl
      is_227 refl refl refl refl own_address

rewrite-Follows_example : Follows behind_nat origin_line logged_in start after_line start
rewrite-Follows_example = rewrite-Follows behind_nat origin_line logged_in start own_address

masquerade_parses : parse_ipv4 (codes "5.6.7.8") ≡ some (5 ∷ 6 ∷ 7 ∷ 8 ∷ [])
unfolding parse_ipv4
masquerade_parses = refl

parse_pasv_response-pasv_reply_example :
    parse_pasv_response behind_nat (pasv_reply (codes "5.6.7.8") 2020) passive_handler
    ≡ ret (
      record passive_handler {
        origin_conn = record (passive_handler.origin_conn) {
          remote_ip =
              if not (is_public_ip (parse_ip (codes "5.6.7.8"))) || false
              then codes "8.8.4.4"
              else codes "5.6.7.8";
          remote_port = itoa 2020;
        };
      },
      none,
    )
parse_pasv_response-pasv_reply_example =
    parse_pasv_response-pasv_reply behind_nat (codes "5.6.7.8") 2020 passive_handler
      masquerade_parses (omega arith) (omega arith)

abbrev first_line : Bytes
first_line = codes "230-hi\r\n"

abbrev last_line : Bytes
last_line = codes "230 you are in\r\n"

first_line-IsLine : IsLine first_line
first_line-IsLine = record {
  body = codes "230-hi\r";
  spelled = refl;
  no_lf = unfold pftp.Text.count in refl;
}

last_line-IsLine : IsLine last_line
last_line-IsLine = record {
  body = codes "230 you are in\r";
  spelled = refl;
  no_lf = unfold pftp.Text.count in refl;
}

complete-returns_example : complete first_line (last_line ∷ []) ≢ panic
complete-returns_example =
    complete-returns first_line (last_line ∷ []) first_line-IsLine (last_line-IsLine, tt)

whole_reply : complete first_line (last_line ∷ []) ≡ ret (some (first_line ++ last_line, []))
unfolding complete code_of
whole_reply = refl

complete-concat_example :
    (first_line ++ last_line) ++ concat [] ≡ first_line ++ concat (last_line ∷ [])
complete-concat_example = complete-concat first_line (last_line ∷ []) whole_reply

abbrev plain : Config
plain = record behind_nat { data_chan_proxy = false; proxy_protocol = true }
