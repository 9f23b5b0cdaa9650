-- ===== src/Server/Shutdown/Examples.antt =====
-- pftp/server.go: runs of a server up to its end.
use pftp.Base.{true, false, not, ◌||◌, ◌==◌, ◌≡◌, none, [], refl}
use pftp.Server.Shutdown.Ends.{EndsWith, Reach-EndsWith, Reach-finished}
use pftp.Server.Shutdown.{
  over, finished, Running, accepts, fails, ends, waits, notes, hears, shuts, closes, finishes,
  Reach, here, next, begun,
}

-- two clients at a server without a starter
two_clients : Reach (begun false) (record (begun false) { clients = 2 })
two_clients = next (next here (accepts refl refl)) (accepts refl refl)

Reach-EndsWith_example : EndsWith 2 (record (begun false) { clients = 2 })
Reach-EndsWith_example = Reach-EndsWith false two_clients

abbrev ended : Running
ended = record (begun true) { serving = over; main = finished none; shutdown = true; closed = true }

-- under a starter: one client that has ended behind the signal
ended-Reach : Reach (begun true) ended
ended-Reach =
    next
      (next
        (next
          (next
            (next
              (next (next (next (next here (accepts refl refl)) (hears refl)) (shuts refl))
                (closes none refl))
              (fails [] refl))
            (ends 0 none refl))
          (waits refl refl))
        (notes none refl))
      (finishes refl refl)

Reach-finished_example :
    (ended.shutdown ≡ true) × (ended.closed ≡ true) × ((not true || ended.clients == 0) ≡ true)
Reach-finished_example = Reach-finished true {y = ended} none ended-Reach refl
