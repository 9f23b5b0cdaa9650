-- ===== src/Data/Connecting/OriginEnds.antt =====
-- pftp/data_handler.go: how `StartDataTransfer` returns behind the end of the client's goroutine.
use pftp.Base.{Bool-cases, Bool, true, false, ◌&&◌, inl, inr, ◌≡◌, refl, arith}
use pftp.Data.Connecting.{
  Part, held_back, starting, reaching, telling, failing, ended, failed, skipped, connecting,
  copying, leaving, over, Side, Transferring, refuses, listens, dials, is_done, is_ok, Step,
  client_moves, origin_opens, origin_misses, origin_moves, origin_closes, copies, gives_up, ends,
  leaves, Reach, here, next,
}
use pftp.Data.Connecting.Sides.{is_held, is_origin, close_side-part}
use pftp.Data.Connecting.Settling.{Moves, stays, first, is_moving, is_settled, Side-Settles}

-- `StartDataTransfer` can return
abbrev pub CanReturn : Transferring → Type 0
CanReturn y = (z : Transferring) × Reach y z × (z.main ≡ over)

Reach-after : {x y z : Transferring} → Step x y → Reach y z → Reach x z
Reach-after s here = next here s
Reach-after s (next r t) = next (Reach-after s r) t

pub Reach-trans : {x y z : Transferring} → Reach x y → Reach y z → Reach x z
Reach-trans r here = r
Reach-trans r (next q s) = next (Reach-trans r q) s

pub by : {x y : Transferring} → Step x y → CanReturn y → CanReturn x
by s (z, r, h) = (z, Reach-after s r, h)

pub via : {x y : Transferring} → Reach x y → CanReturn y → CanReturn x
via q (z, r, h) = (z, Reach-trans q r, h)

pub client_runs :
    {t c : Bool} {s z : Side} (y : Transferring)
    → Moves t c s z
    → Reach
        (record y { client = s; in_tls = t; closed = c })
        (record y { client = z; in_tls = t; closed = c })
client_runs y stays = here
client_runs y (first m r) = Reach-after (client_moves m) (client_runs y r)

origin_runs :
    {t c : Bool} {s z : Side} (y : Transferring)
    → Moves t c s z
    → Reach
        (record y { origin = s; in_tls = t; closed = c })
        (record y { origin = z; in_tls = t; closed = c })
origin_runs y stays = here
origin_runs y (first m r) = Reach-after (origin_moves m) (origin_runs y r)

pub at_leaving : (y : Transferring) → y.main ≡ leaving → CanReturn y
at_leaving y e = by (leaves e) (_, here, refl)

pub at_copying : (y : Transferring) → y.main ≡ copying → CanReturn y
at_copying y e = by (ends e) (at_leaving _ refl)

both_done :
    (y : Transferring)
    → y.main ≡ connecting
    → is_done y.client.part ≡ true
    → is_done y.origin.part ≡ true
    → CanReturn y
both_done y e c o = elim (Bool-cases (is_ok y.client.part && is_ok y.origin.part)) [
  | inl h ↦ by (copies e (ground arith) (ground arith)) (at_copying _ refl)
  | inr h ↦ by (gives_up e c o h) (at_leaving _ refl)
]

origin_failing :
    (y : Transferring)
    → y.main ≡ connecting
    → is_done y.client.part ≡ true
    → y.origin.part ≡ failing
    → CanReturn y
origin_failing y e c o = by (origin_closes o) (
    both_done _ e (rw (close_side-part y.closed y.client) c)
      (rw (close_side-part y.closed (record (y.origin) { part = failed })) refl))

origin_settled :
    (y : Transferring) (p : Part)
    → y.main ≡ connecting
    → is_done y.client.part ≡ true
    → y.origin.part ≡ p
    → is_settled p ≡ true
    → CanReturn y
origin_settled y failing e c o h = origin_failing y e c o
origin_settled y ended e c o h = both_done y e c (ground arith)
origin_settled y _ e c o h = absurd (ground arith)

origin_moving :
    (y : Transferring)
    → y.main ≡ connecting
    → is_done y.client.part ≡ true
    → is_moving y.origin.part ≡ true
    → CanReturn y
origin_moving y e c o =
    let (z, r, h) = Side-Settles y.in_tls y.closed y.origin o in
    via (origin_runs y r) (origin_settled _ z.part e c refl h)

origin_reaching :
    (y : Transferring)
    → y.main ≡ connecting
    → is_done y.client.part ≡ true
    → y.origin.part ≡ reaching
    → CanReturn y
origin_reaching y e c o = by (origin_misses o) (origin_failing _ e c refl)

origin_starting :
    (y : Transferring) (l d : Bool)
    → y.main ≡ connecting
    → is_done y.client.part ≡ true
    → y.origin.part ≡ starting
    → y.origin_listens ≡ l
    → y.closed ≡ d
    → CanReturn y
origin_starting y true true e c o l d =
    by (origin_opens (refuses o l d)) (origin_failing _ e c refl)
origin_starting y true false e c o l d =
    by (origin_opens (listens o l d)) (origin_reaching _ e c refl)
origin_starting y false d e c o l k = by (origin_opens (dials o l)) (origin_reaching _ e c refl)

-- an origin that has been told of the client
pub told_origin-ends :
    (y : Transferring) (q : Part)
    → y.main ≡ connecting
    → is_done y.client.part ≡ true
    → y.origin.part ≡ q
    → is_held q ≡ false
    → is_origin q ≡ true
    → CanReturn y
told_origin-ends y starting e c o h k = origin_starting y y.origin_listens y.closed e c o refl refl
told_origin-ends y reaching e c o h k = origin_reaching y e c o
told_origin-ends y failed e c o h k = both_done y e c (ground arith)
told_origin-ends y skipped e c o h k = both_done y e c (ground arith)
told_origin-ends y held_back e c o h k = absurd (ground arith)
told_origin-ends y (telling b) e c o h k = absurd (ground arith)
told_origin-ends y _ e c o h k = origin_moving y e c (ground arith)
