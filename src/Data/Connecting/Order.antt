-- ===== src/Data/Connecting/Order.antt =====
-- pftp/data_handler.go: what holds between the steps of a transfer.
use pftp.Base.{Bool, true, false, ◌&&◌, ◌≡◌, refl, arith}
use pftp.Data.Connecting.{
  Side, ended, skipped, Part, failed, Main, connecting, copying, leaving, over, Transferring, shut,
  is_done, is_ok, Step, client_opens, client_reaches, client_misses, tells, client_moves,
  client_closes, origin_opens, origin_reaches, origin_misses, origin_moves, origin_closes, copies,
  gives_up, client_breaks, origin_breaks, ends, leaves, closes, Reach, here, next, started,
}
use pftp.Data.Connecting.Sides.{
  IsSound, paired, Move-IsSound, Opening-IsSound, close_side-IsSound, close_side-part,
  close_side-failed, Move-busy, Opening-starting, Move-paired, Opening-paired, Move-is_free,
  Opening-is_free, paired-free,
}

-- what `StartDataTransfer` has waited for
abbrev pub waited : Main → Bool → Part → Part → Bool
waited connecting c p q = true
waited copying c p q = is_ok p && is_ok q
waited leaving c p q = is_done p && is_done q
waited over c p q = c && (is_done p && is_done q)

pub record Inv (y : Transferring) : Type 0 where
  pub client : IsSound y.closed y.client
  pub origin : IsSound y.closed y.origin
  pub beside : paired y.client.part y.origin.part ≡ true
  pub main : waited y.main y.closed y.client.part y.origin.part ≡ true

waited-closed :
    (m : Main) (c : Bool) (p q : Part) → waited m c p q ≡ true → waited m true p q ≡ true
waited-closed connecting c p q h = refl
waited-closed copying c p q h = h
waited-closed leaving c p q h = h
waited-closed over c p q h = ground arith

shut-Inv : (y : Transferring) → Inv y → Inv (shut y)
shut-Inv y h = record {
  client = close_side-IsSound y.closed y.client h.client;
  origin = close_side-IsSound y.closed y.origin h.origin;
  beside = rw (close_side-part y.closed y.client, close_side-part y.closed y.origin) (h.beside);
  main =
      rw (close_side-part y.closed y.client, close_side-part y.closed y.origin)
        (waited-closed y.main y.closed y.client.part y.origin.part h.main);
}

-- a goroutine that still goes on is waited for
waited-busy :
    (m : Main) (c d : Bool) (p q a b : Part)
    → is_done p && is_done q ≡ false
    → waited m c p q ≡ true
    → waited m d a b ≡ true
waited-busy connecting c d p q a b f h = refl
waited-busy copying c d p q a b f h = absurd (ground arith)
waited-busy leaving c d p q a b f h = absurd (ground arith)
waited-busy over c d p q a b f h = absurd (ground arith)

-- a goroutine that has not ended leaves `StartDataTransfer` at its wait
module _ {y : Transferring} (h : Inv y) (a b : Part) where
  client_busy : is_done y.client.part ≡ false → (c : Bool) → waited y.main c a b ≡ true
  client_busy d c =
      waited-busy y.main y.closed c y.client.part y.origin.part a b (ground arith) h.main

  origin_busy : is_done y.origin.part ≡ false → (c : Bool) → waited y.main c a b ≡ true
  origin_busy d c =
      waited-busy y.main y.closed c y.client.part y.origin.part a b (ground arith) h.main

paired-ended :
    (p q : Part) → is_ok p ≡ true → is_ok q ≡ true → paired p q ≡ true → (p ≡ ended) × (q ≡ ended)
paired-ended ended ended o k h = (refl, refl)
paired-ended ended skipped o k h = absurd (ground arith)
paired-ended skipped q o k h = absurd (ground arith)
paired-ended _ _ o k h = absurd (ground arith)

-- behind the wait without an error
pub ok-ended :
    (y : Transferring)
    → Inv y
    → y.main ≡ copying
    → (y.client.part ≡ ended) × (y.origin.part ≡ ended)
ok-ended y h e =
    let w : (is_ok y.client.part ≡ true) × (is_ok y.origin.part ≡ true) = ground (arith, h.main) in
    paired-ended y.client.part y.origin.part w.0 w.1 h.beside

broken-IsSound :
    (c : Bool) (s : Side)
    → s.part ≡ ended
    → c ≡ false
    → IsSound c s
    → IsSound c (record s { socket = false })
broken-IsSound c s e o h = ground arith

pub Step-Inv : {y z : Transferring} → Step y z → Inv y → Inv z
Step-Inv {y} (client_opens {s} o) h =
    let e = Opening-starting o in
    record {
      client = Opening-IsSound o h.client;
      origin = h.origin;
      beside = Opening-paired y.origin.part o (ground (arith, h.beside));
      main = client_busy h s.part y.origin.part (ground arith) y.closed;
    }
Step-Inv (client_reaches e) h = ground (arith, h.client, h.origin, h.beside, h.main)
Step-Inv (client_misses e) h = ground (arith, h.client, h.origin, h.beside, h.main)
Step-Inv (tells true e k) h = ground (arith, h.client, h.origin, h.beside, h.main)
Step-Inv (tells false e k) h = ground (arith, h.client, h.origin, h.beside, h.main)
Step-Inv {y} (client_moves {s} m) h = record {
  client = Move-IsSound m h.client;
  origin = h.origin;
  beside = Move-paired y.origin.part m h.beside;
  main = client_busy h s.part y.origin.part (Move-busy m) y.closed;
}
Step-Inv {y} (client_closes e) h = record {
  client = close_side-failed y.closed y.client e h.client;
  origin = close_side-IsSound y.closed y.origin h.origin;
  beside =
      rw
        (
          close_side-part y.closed (record (y.client) { part = failed }),
          close_side-part y.closed y.origin,
        )
        (ground (arith, h.beside));
  main = client_busy h _ _ (ground arith) true;
}
Step-Inv {y} (origin_opens {s} o) h =
    let e = Opening-starting o in
    record {
      client = h.client;
      origin = Opening-IsSound o h.origin;
      beside =
          paired-free y.client.part y.origin.part s.part (ground arith) (Opening-is_free o)
            h.beside;
      main = origin_busy h y.client.part s.part (ground arith) y.closed;
    }
Step-Inv (origin_reaches e) h = ground (arith, h.client, h.origin, h.beside, h.main)
Step-Inv (origin_misses e) h = ground (arith, h.client, h.origin, h.beside, h.main)
Step-Inv {y} (origin_moves {s} m) h = record {
  client = h.client;
  origin = Move-IsSound m h.origin;
  beside =
      let (f, g) = Move-is_free m in paired-free y.client.part y.origin.part s.part f g h.beside;
  main = origin_busy h y.client.part s.part (Move-busy m) y.closed;
}
Step-Inv {y} (origin_closes e) h = record {
  client = close_side-IsSound y.closed y.client h.client;
  origin = close_side-failed y.closed y.origin e h.origin;
  beside =
      rw
        (
          close_side-part y.closed y.client,
          close_side-part y.closed (record (y.origin) { part = failed }),
        )
        (paired-free y.client.part y.origin.part failed (ground arith) refl h.beside);
  main = origin_busy h _ _ (ground arith) true;
}
Step-Inv (copies e k m) h = ground (arith, h.client, h.origin, h.beside, h.main)
Step-Inv (gives_up e k m n) h = ground (arith, h.client, h.origin, h.beside, h.main)
Step-Inv {y} (client_breaks e o) h = record {
  client = broken-IsSound y.closed y.client (ok-ended y h e).0 o h.client;
  origin = h.origin;
  beside = h.beside;
  main = h.main;
}
Step-Inv {y} (origin_breaks e o) h = record {
  client = h.client;
  origin = broken-IsSound y.closed y.origin (ok-ended y h e).1 o h.origin;
  beside = h.beside;
  main = h.main;
}
Step-Inv (ends e) h = ground (arith, h.client, h.origin, h.beside, h.main)
Step-Inv {y} (leaves e) h =
    let k = shut-Inv y h in
    record {
      client = k.client;
      origin = k.origin;
      beside = k.beside;
      main =
          rw (close_side-part y.closed y.client, close_side-part y.closed y.origin)
            (ground (arith, h.main));
    }
Step-Inv {y} closes h = shut-Inv y h

Reach-Inv : {y z : Transferring} → Reach y z → Inv y → Inv z
Reach-Inv here h = h
Reach-Inv (next r s) h = Step-Inv s (Reach-Inv r h)

pub started-Inv : (l m t : Bool) {y : Transferring} → Reach (started l m t) y → Inv y
started-Inv l m t r =
    Reach-Inv r (record { client = refl; origin = refl; beside = refl; main = refl })
