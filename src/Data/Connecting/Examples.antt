-- ===== src/Data/Connecting/Examples.antt =====
-- pftp/data_handler.go: runs of a transfer.
use pftp.Base.{true, false, not, ◌||◌, ◌≡◌, ◌↔◌, refl}
use pftp.Data.Connecting.OriginEnds.{CanReturn}
use pftp.Data.Connecting.Returns.{is_doomed}
use pftp.Data.Connecting.Sockets.{uses, is_using, Reach-sockets, Reach-present}
use pftp.Data.Connecting.Stuck.{Reach-CanReturn}
use pftp.Data.Connecting.{
  starting, held_back, ended, Side, Transferring, copying, over, client_opens, client_reaches,
  tells, client_moves, origin_opens, origin_reaches, origin_moves, copies, client_breaks, ends,
  leaves, closes, puts, times, listens, dials, Reach, here, next, started,
}

-- Both connections are there, the client's on a listener and the origin's by a dial.
abbrev linked : Side
linked = record { part = ended; socket = true; conn = true; late = false }

abbrev amid : Transferring
amid = record (started true false false) { client = linked; origin = linked; main = copying }

amid-Reach : Reach (started true false false) amid
amid-Reach =
    next
      (next
        (next
          (next
            (next
              (next
                (next
                  (next
                    (next (next here (client_opens (listens refl refl refl))) (client_reaches refl))
                    (tells false refl refl))
                  (client_moves (puts refl)))
                (client_moves (times refl)))
              (origin_opens (dials refl refl)))
            (origin_reaches refl))
          (origin_moves (puts refl)))
        (origin_moves (times refl)))
      (copies refl refl refl)

-- A write toward the client has failed, and the copy from the client still reads.
abbrev amid_broken : Transferring
amid_broken = record amid { client = record linked { socket = false } }

Reach-present_example :
    ((not (uses copying ended) || true) ≡ true)
    × ((not (is_using ended) || false) ≡ true)
    × ((not (uses copying ended) || true) ≡ true)
    × ((not (is_using ended) || true) ≡ true)
Reach-present_example =
    Reach-present true false false {y = amid_broken} (next amid-Reach (client_breaks refl refl))
      refl

-- The session closes the handler behind the dial to the origin.
abbrev cut : Side
cut = record { part = ended; socket = false; conn = false; late = false }

abbrev leaked : Side
leaked = record { part = ended; socket = true; conn = true; late = true }

abbrev after_abort : Transferring
after_abort = record (started true false false) {
  client = cut;
  origin = leaked;
  main = over;
  closed = true;
}

after_abort-Reach : Reach (started true false false) after_abort
after_abort-Reach =
    next
      (next
        (next
          (next
            (next
              (next
                (next
                  (next
                    (next
                      (next
                        (next
                          (next (next here (client_opens (listens refl refl refl)))
                            (client_reaches refl))
                          (tells false refl refl))
                        (client_moves (puts refl)))
                      (client_moves (times refl)))
                    (origin_opens (dials refl refl)))
                  (origin_reaches refl))
                closes)
              (origin_moves (puts refl)))
            (origin_moves (times refl)))
          (copies refl refl refl))
        (ends refl))
      (leaves refl)

Reach-sockets_example : (cut.socket ≡ cut.late) × (leaked.socket ≡ leaked.late)
Reach-sockets_example = Reach-sockets true false false {y = after_abort} after_abort-Reach refl

-- The session closes the handler before the client's goroutine looks at it.
Reach-CanReturn_example :
    CanReturn (record (started true false false) { closed = true })
    ↔ (is_doomed true true starting held_back ≡ false)
Reach-CanReturn_example =
    Reach-CanReturn true false false (record (started true false false) { closed = true })
      (next here closes)
