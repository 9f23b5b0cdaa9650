-- ===== src/World/Samples.antt =====
-- A quiet network and two connections, for the examples.
use pftp.Base.{none, false, [], ◌∷◌}
use pftp.Text.{codes}
use pftp.World.{Conn, Env, World, listening, agreed, dialled, incoming, found_ip}

-- every call succeeds
abbrev pub quiet : Env
quiet = record {
  unicode_upper = λ s. s;
  intn = λ _ _. 0;
  resolve = λ _ _. none;
  listen = λ _ _. listening (codes "0.0.0.0:2020");
  close = λ _. none;
  write = λ _. none;
  shake = λ _. agreed (codes "ftp.example") 0x0303 0xc02f;
  accept = λ _. incoming (codes "7.7.7.7:2020") (codes "9.9.9.9:5000");
  dial = λ _ a.
      dialled (codes "10.0.0.5:3001") a (codes "220 new origin\r\n" ∷ codes "234 go on\r\n" ∷ []);
  lookup = λ _ _. found_ip (codes "8.8.4.4");
  close_write = λ _. none;
  bad_text = λ s. s;
}

abbrev pub start : World
start = record { clock = 0; events = []; in_data_transfer = false }

abbrev pub client : Conn
client = record {
  id = 1;
  remote_addr = codes "9.9.9.9:4000";
  local_addr = codes "7.7.7.7:21";
  in_tls = false;
}

abbrev pub origin : Conn
origin = record {
  id = 2;
  remote_addr = codes "8.8.4.4:21";
  local_addr = codes "10.0.0.5:3000";
  in_tls = false;
}
