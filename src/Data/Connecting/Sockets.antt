-- ===== src/Data/Connecting/Sockets.antt =====
-- pftp/data_handler.go: the data connections of a transfer.
use pftp.Base.{Bool, true, false, not, ◌||◌, ◌≡◌, refl, arith}
use pftp.Data.Connecting.{
  shaking, wrapping, Part, checking, timing, ended, failed, skipped, Main, connecting, copying,
  leaving, over, Transferring, is_done, Reach, started,
}
use pftp.Data.Connecting.Sides.{sound}
use pftp.Data.Connecting.Order.{started-Inv, ok-ended}

done-socket : (p : Part) (k n l : Bool) → is_done p ≡ true → sound true p k n l ≡ true → k ≡ l
done-socket ended k n l d h = ground arith
done-socket failed k n l d h = ground arith
done-socket skipped k n l d h = ground arith
done-socket _ k n l d h = absurd (ground arith)

-- Where a transfer has ended, in every order of its steps and of the closing of the handler by the
-- session: each of the two data connections is still open exactly where it was put into a handler
-- that had been closed before.
pub Reach-sockets :
    (l m t : Bool) {y : Transferring}
    → Reach (started l m t) y
    → y.main ≡ over
    → (y.client.socket ≡ y.client.late) × (y.origin.socket ≡ y.origin.late)
Reach-sockets l m t {y} r e =
    let i = started-Inv l m t r in
    let w : (y.closed ≡ true) × (is_done y.client.part ≡ true) × (is_done y.origin.part ≡ true) =
      ground (arith, i.main) in
    (
      done-socket y.client.part y.client.socket y.client.conn y.client.late w.1
          (ground (arith, i.client, w)),
      done-socket y.origin.part y.origin.socket y.origin.conn y.origin.late w.2
          (ground (arith, i.origin, w)),
    )

-- the set-up of a connection that is in the handler: the handshake and the deadline
abbrev pub is_using : Part → Bool
is_using checking = true
is_using shaking = true
is_using wrapping = true
is_using timing = true
is_using _ = false

-- the set-up, or the copying
abbrev pub uses : Main → Part → Bool
uses copying p = true
uses _ p = is_using p

using-present :
    (p : Part) (k n l : Bool)
    → sound false p k n l ≡ true
    → ((not (is_using p) || n) ≡ true) × ((not (is_using p) || k) ≡ true)
using-present checking k n l h = ground arith
using-present shaking k n l h = ground arith
using-present wrapping k n l h = ground arith
using-present timing k n l h = ground arith
using-present _ k n l h = (refl, refl)

-- `f`: behind the wait both goroutines have ended well
present :
    (m : Main) (p : Part) (k n l : Bool)
    → sound false p k n l ≡ true
    → (m ≡ copying → p ≡ ended)
    → ((not (uses m p) || n) ≡ true) × ((not (is_using p) || k) ≡ true)
present copying p k n l s f = let e = f refl in ground arith
present connecting p k n l s f = using-present p k n l s
present leaving p k n l s f = using-present p k n l s
present over p k n l s f = using-present p k n l s

-- On a handler that is open: `dataConn` of a side is not nil wherever the copying, the handshake or its
-- deadline uses it, and the connection is open throughout its handshake and up to its deadline. (In
-- the copying a failed write may have closed it.)
pub Reach-present :
    (l m t : Bool) {y : Transferring}
    → Reach (started l m t) y
    → y.closed ≡ false
    → ((not (uses y.main y.client.part) || y.client.conn) ≡ true)
      × ((not (is_using y.client.part) || y.client.socket) ≡ true)
      × ((not (uses y.main y.origin.part) || y.origin.conn) ≡ true)
      × ((not (is_using y.origin.part) || y.origin.socket) ≡ true)
Reach-present l m t {y} r e =
    let i = started-Inv l m t r in
    let c =
      present y.main y.client.part y.client.socket y.client.conn y.client.late
        (ground (arith, i.client)) (λ k. (ok-ended y i k).0) in
    let o =
      present y.main y.origin.part y.origin.socket y.origin.conn y.origin.late
        (ground (arith, i.origin)) (λ k. (ok-ended y i k).1) in
    (c.0, c.1, o.0, o.1)
