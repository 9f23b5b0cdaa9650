-- ===== src/Data/Connecting/Returns.antt =====
-- pftp/data_handler.go: how `StartDataTransfer` comes to return.
use pftp.Base.{Bool, true, false, ◌&&◌, ◌≡◌, refl, arith}
use pftp.Data.Connecting.{
  Part, held_back, starting, reaching, telling, failing, ended, failed, skipped, Main, connecting,
  copying, leaving, over, Transferring, listens, dials, client_opens, client_misses, tells,
  client_closes, here,
}
use pftp.Data.Connecting.Sides.{is_held, is_free, is_origin, paired, close_side-part}
use pftp.Data.Connecting.Order.{Inv, Inv}
use pftp.Data.Connecting.Settling.{is_moving, is_settled, Side-Settles}
use pftp.Data.Connecting.OriginEnds.{
  CanReturn, by, via, client_runs, at_leaving, at_copying, told_origin-ends,
}

-- The client has ended or will end without a word to the origin, which waits for one.
abbrev pub is_doomed : Bool → Bool → Part → Part → Bool
is_doomed l d failing q = is_held q
is_doomed l d failed q = is_held q
is_doomed l d starting q = l && (d && is_held q)
is_doomed l d p q = false

-- the client with an error or at its end, beside an origin that has been told
client_failing :
    (y : Transferring)
    → y.main ≡ connecting
    → y.client.part ≡ failing
    → is_held y.origin.part ≡ false
    → is_origin y.origin.part ≡ true
    → CanReturn y
client_failing y e c h k = by (client_closes c) (
    told_origin-ends _ y.origin.part e
      (rw (close_side-part y.closed (record (y.client) { part = failed })) refl)
      (close_side-part y.closed y.origin) h k)

client_settled :
    (y : Transferring) (p : Part)
    → y.main ≡ connecting
    → y.client.part ≡ p
    → is_settled p ≡ true
    → is_held y.origin.part ≡ false
    → is_origin y.origin.part ≡ true
    → CanReturn y
client_settled y failing e c s h k = client_failing y e c h k
client_settled y ended e c s h k = told_origin-ends y y.origin.part e (ground arith) refl h k
client_settled y _ e c s h k = absurd (ground arith)

client_moving :
    (y : Transferring)
    → y.main ≡ connecting
    → is_moving y.client.part ≡ true
    → is_held y.origin.part ≡ false
    → is_origin y.origin.part ≡ true
    → CanReturn y
client_moving y e c h k =
    let (z, r, s) = Side-Settles y.in_tls y.closed y.client c in
    via (client_runs y r) (client_settled _ z.part e refl s h k)

client_telling :
    (y : Transferring) (b : Bool)
    → y.main ≡ connecting
    → y.client.part ≡ telling b
    → y.origin.part ≡ held_back
    → CanReturn y
client_telling y true e c o = by (tells true c o) (client_failing _ e refl refl refl)
client_telling y false e c o = by (tells false c o) (client_moving _ e refl refl refl)

client_reaching :
    (y : Transferring)
    → y.main ≡ connecting
    → y.client.part ≡ reaching
    → y.origin.part ≡ held_back
    → CanReturn y
client_reaching y e c o = by (client_misses c) (client_telling _ true e refl o)

client_starting :
    (y : Transferring) (l d : Bool)
    → y.main ≡ connecting
    → y.client.part ≡ starting
    → y.origin.part ≡ held_back
    → y.client_listens ≡ l
    → y.closed ≡ d
    → l && d ≡ false
    → CanReturn y
client_starting y true true e c o l d f = absurd (ground arith)
client_starting y true false e c o l d f =
    by (client_opens (listens c l d)) (client_reaching _ e refl o)
client_starting y false d e c o l k f = by (client_opens (dials c l)) (client_reaching _ e refl o)

is_held-part : (q : Part) → is_held q ≡ true → q ≡ held_back
is_held-part held_back h = refl
is_held-part _ h = absurd (ground arith)

is_free-held : (q : Part) → is_free q ≡ true → (is_held q ≡ false) × (is_origin q ≡ true)
is_free-held held_back h = absurd (ground arith)
is_free-held (telling b) h = absurd (ground arith)
is_free-held _ h = (refl, refl)

while_connecting :
    (y : Transferring) (p : Part)
    → y.main ≡ connecting
    → y.client.part ≡ p
    → paired p y.origin.part ≡ true
    → is_doomed y.client_listens y.closed p y.origin.part ≡ false
    → CanReturn y
while_connecting y starting e c b f =
    client_starting y y.client_listens y.closed e c (is_held-part y.origin.part b) refl refl
      (ground arith)
while_connecting y reaching e c b f = client_reaching y e c (is_held-part y.origin.part b)
while_connecting y (telling t) e c b f = client_telling y t e c (is_held-part y.origin.part b)
while_connecting y failing e c b f = client_failing y e c f b
while_connecting y failed e c b f = told_origin-ends y y.origin.part e (ground arith) refl f b
while_connecting y held_back e c b f = absurd (ground arith)
while_connecting y skipped e c b f = absurd (ground arith)
while_connecting y _ e c b f =
    let (h, k) = is_free-held y.origin.part b in client_moving y e (ground arith) h k

pub from_main :
    (y : Transferring) (m : Main)
    → y.main ≡ m
    → Inv y
    → is_doomed y.client_listens y.closed y.client.part y.origin.part ≡ false
    → CanReturn y
from_main y connecting e i f = while_connecting y y.client.part e refl i.beside f
from_main y copying e i f = at_copying y e
from_main y leaving e i f = at_leaving y e
from_main y over e i f = (y, here, e)
