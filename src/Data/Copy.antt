-- ===== src/Data/Copy.antt =====
-- pftp/data_handler.go and pftp/socket_control.go: one direction of a transfer (copyPackets, sendEOF).
-- The loop is given what the network and the handler answer in its rounds, in order; where the rounds
-- are used up, the loop waits in its next read.
pub mod Whole
pub mod Examples
use pftp.Base.{
  Bool, true, false, ◌&&◌, List, [], ◌∷◌, ◌++◌, none, some, ltb, length, if◌then◌else◌, Error,
}
use pftp.Text.{Bytes}
use pftp.World.{already_closed}

-- `err` of a read
pub data End : Type 0 where
  more : End
  eof : End
  broken : Bytes → End

-- One round: whether the handler is closed, `buff[:n]` and `err` of the read, the error of the write of
-- these bytes, and the error of CloseWrite, where each is asked for.
pub record Round : Type 0 where
  pub closed : Bool
  pub chunk : Bytes
  pub ending : End
  pub write_error : Error
  pub close_error : Error

-- How the loop left off. `aborted` is a closed handler, `unwritten` a failed write, after which
-- the destination is closed; behind `at_eof` the
-- end was passed on to the destination, with this error of sendEOF. Deadlines are left out.
pub data Stop : Type 0 where
  waiting : Stop
  aborted : Stop
  unwritten : Stop
  at_eof : Error → Stop
  unread : Bytes → Stop

-- a copy on a handler that is closed from the beginning
abbrev pub not_begun : Bytes × Stop
not_begun = ([], aborted)

-- `sendEOF`
unfoldable pub send_eof : Error → Error
send_eof none = none
send_eof (some e) = if already_closed e then none else some e

abbrev pub fails_to_write : Round → Bool
fails_to_write r = ltb 0 (length r.chunk) && elim (r.write_error) [ none ↦ false | some _ ↦ true ]

-- `lastErr`
unfoldable pub last_error : Stop → Error
last_error waiting = none
last_error aborted = none
last_error unwritten = none
last_error (at_eof e) = e
last_error (unread e) = some e

pub end_round : Round → Bytes × Stop → Bytes × Stop
unfolding send_eof
end_round r rest = elim (r.ending) [
  | more ↦ (r.chunk ++ rest.0, rest.1)
  | eof ↦ (r.chunk, at_eof (send_eof r.close_error))
  | broken e ↦ (r.chunk, unread e)
]

-- `copyPackets`: the bytes of the writes that succeeded, and how it left off
unfoldable pub copy_packets : List Round → Bytes × Stop
unfolding end_round
copy_packets [] = ([], waiting)
copy_packets (r ∷ rs) =
    let rest = copy_packets rs in
    if r.closed
    then ([], aborted)
    else if fails_to_write r
    then ([], unwritten)
    else end_round r rest
