-- ===== src/Data/Copy/Examples.antt =====
-- Examples of copies of pftp/data_handler.go.
use pftp.Base.{false, List, [], ◌∷◌, none, some, ◌≡◌, refl, Error}
use pftp.Data.Copy.{Round, more, eof, at_eof, unwritten, copy_packets, last_error}
use pftp.Data.Copy.Whole.{read_to_eof-copy_packets}
use pftp.Text.{codes, contains}

abbrev first_packet : Round
first_packet = record {
  closed = false;
  chunk = codes "ab";
  ending = more;
  write_error = none;
  close_error = none;
}

abbrev last_packet : Round
last_packet = record {
  closed = false;
  chunk = codes "c";
  ending = eof;
  write_error = none;
  close_error = some (codes "use of closed network connection");
}

abbrev packets : List Round
packets = first_packet ∷ last_packet ∷ []

abbrev lost_packet : Round
lost_packet = record last_packet { write_error = some (codes "broken pipe") }

lost_test : copy_packets (first_packet ∷ lost_packet ∷ []) ≡ (codes "ab", unwritten)
unfolding copy_packets contains
lost_test = refl

packets_copied : copy_packets packets ≡ (codes "abc", at_eof none)
unfolding copy_packets contains
packets_copied = refl

last_error_test : last_error (copy_packets packets).1 ≡ none
unfolding last_error copy_packets contains
last_error_test = refl

read_to_eof-copy_packets_example : (e : Error) × (copy_packets packets ≡ (codes "abc", at_eof e))
read_to_eof-copy_packets_example =
    read_to_eof-copy_packets packets ((refl, refl), ((refl, refl), tt)) refl
