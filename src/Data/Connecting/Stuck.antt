-- ===== src/Data/Connecting/Stuck.antt =====
-- pftp/data_handler.go: a transfer that never comes to its end.
use pftp.Base.{Bool-cases, ◌↔◌, ◌≢◌, Bool, true, false, inl, inr, ◌≡◌, refl, arith}
use pftp.Data.Connecting.{
  Part, held_back, starting, failing, failed, over, Side, Transferring, shut, Move, puts, lacks,
  aborts, checks, fails, shakes, wraps, times, Opening, refuses, listens, dials, unresolved,
  is_done, Step, client_opens, client_reaches, client_misses, tells, client_moves, client_closes,
  origin_opens, origin_reaches, origin_misses, origin_moves, origin_closes, copies, gives_up,
  client_breaks, origin_breaks, ends, leaves, closes, Reach, here, next, started,
}
use pftp.Data.Connecting.Sides.{is_held, close_side-part, Opening-starting, Move-is_free}
use pftp.Data.Connecting.Order.{Inv, Inv, started-Inv}
use pftp.Data.Connecting.OriginEnds.{CanReturn, Reach-trans}
use pftp.Data.Connecting.Returns.{is_doomed, from_main}

abbrev IsDoomed : Transferring → Type 0
IsDoomed y = is_doomed y.client_listens y.closed y.client.part y.origin.part ≡ true

-- a client that says nothing any more, or not yet
abbrev is_silent : Part → Bool
is_silent failing = true
is_silent failed = true
is_silent starting = true
is_silent _ = false

is_doomed-held :
    (l d : Bool) (p q : Part) → is_doomed l d p q ≡ true → (is_held q ≡ true) × (is_silent p ≡ true)
is_doomed-held l d failing q h = (h, refl)
is_doomed-held l d failed q h = (h, refl)
is_doomed-held l d starting q h = (ground arith, refl)
is_doomed-held l d _ q h = absurd (ground arith)

is_doomed-close : (l d : Bool) (p q : Part) → is_doomed l d p q ≡ true → is_doomed l true p q ≡ true
is_doomed-close l d failing q h = h
is_doomed-close l d failed q h = h
is_doomed-close l d starting q h = ground arith
is_doomed-close l d _ q h = absurd (ground arith)

Move-is_silent : {t c : Bool} {s z : Side} → Move t c s z → is_silent s.part ≡ false
Move-is_silent (puts e) = ground arith
Move-is_silent (lacks e) = ground arith
Move-is_silent (aborts e k) = ground arith
Move-is_silent (checks e k) = ground arith
Move-is_silent (fails e) = ground arith
Move-is_silent (shakes e) = ground arith
Move-is_silent (wraps e) = ground arith
Move-is_silent (times e) = ground arith

Opening-is_doomed :
    {l c : Bool} {s z : Side} (q : Part)
    → Opening l c s z
    → is_doomed l c s.part q ≡ true
    → is_doomed l c z.part q ≡ true
Opening-is_doomed q (refuses e k m) h = ground arith
Opening-is_doomed q (listens e k m) h = ground arith
Opening-is_doomed q (dials e k) h = ground arith
Opening-is_doomed q (unresolved e k) h = ground arith

shut-IsDoomed : (y : Transferring) → IsDoomed y → IsDoomed (shut y)
shut-IsDoomed y h =
    rw (close_side-part y.closed y.client, close_side-part y.closed y.origin)
      (is_doomed-close y.client_listens y.closed y.client.part y.origin.part h)

IsDoomed-silent :
    (y : Transferring)
    → IsDoomed y
    → (is_held y.origin.part ≡ true) × (is_silent y.client.part ≡ true)
IsDoomed-silent y d = is_doomed-held y.client_listens y.closed y.client.part y.origin.part d

-- no step leads out
Step-IsDoomed : {y z : Transferring} → Step y z → IsDoomed y → IsDoomed z
Step-IsDoomed {y} (client_opens o) d = Opening-is_doomed y.origin.part o d
Step-IsDoomed (client_reaches e) d = ground arith
Step-IsDoomed (client_misses e) d = ground arith
Step-IsDoomed (tells b e k) d = ground arith
Step-IsDoomed {y} (client_moves m) d =
    absurd (ground (arith, Move-is_silent m, IsDoomed-silent y d))
Step-IsDoomed {y} (client_closes e) d =
    rw
      (
        close_side-part y.closed (record (y.client) { part = failed }),
        close_side-part y.closed y.origin,
      )
      (IsDoomed-silent y d).0
Step-IsDoomed {y} (origin_opens o) d =
    absurd (ground (arith, Opening-starting o, IsDoomed-silent y d))
Step-IsDoomed {y} (origin_reaches e) d = absurd (ground (arith, IsDoomed-silent y d))
Step-IsDoomed {y} (origin_misses e) d = absurd (ground (arith, IsDoomed-silent y d))
Step-IsDoomed {y} (origin_moves m) d = absurd (ground (arith, Move-is_free m, IsDoomed-silent y d))
Step-IsDoomed {y} (origin_closes e) d = absurd (ground (arith, IsDoomed-silent y d))
Step-IsDoomed (copies e k m) d = d
Step-IsDoomed (gives_up e k m n) d = d
Step-IsDoomed (client_breaks e o) d = d
Step-IsDoomed (origin_breaks e o) d = d
Step-IsDoomed (ends e) d = d
Step-IsDoomed {y} (leaves e) d = shut-IsDoomed y d
Step-IsDoomed {y} closes d = shut-IsDoomed y d

Reach-IsDoomed : {y z : Transferring} → Reach y z → IsDoomed y → IsDoomed z
Reach-IsDoomed here d = d
Reach-IsDoomed (next r s) d = Step-IsDoomed s (Reach-IsDoomed r d)

done-free : (p q : Part) → is_done p ≡ true → is_done q ≡ true → is_held q ≡ false
done-free p held_back h k = absurd (ground arith)
done-free p _ h k = refl

IsDoomed-busy : (y : Transferring) → Inv y → IsDoomed y → y.main ≢ over
IsDoomed-busy y i d e =
    let w : (is_done y.client.part ≡ true) × (is_done y.origin.part ≡ true) =
      ground (arith, i.main) in
    ground (arith, done-free y.client.part y.origin.part w.0 w.1, IsDoomed-silent y d)

-- In every order of the steps of a transfer and of the closing of its handler: `StartDataTransfer` can
-- return exactly where the transfer is not doomed. It is doomed where the goroutine of the origin waits
-- for a word of the client's, and that one has ended or closes the handler for an error, or would take
-- its listener from a handler that is closed.
pub Reach-CanReturn :
    (l m t : Bool) (y : Transferring)
    → Reach (started l m t) y
    → CanReturn y ↔ (is_doomed y.client_listens y.closed y.client.part y.origin.part ≡ false)
Reach-CanReturn l m t y r = (not_doomed, from_main y y.main refl (started-Inv l m t r))
  where
    not_doomed :
        CanReturn y → is_doomed y.client_listens y.closed y.client.part y.origin.part ≡ false
    not_doomed (z, s, e) =
        elim (Bool-cases (is_doomed y.client_listens y.closed y.client.part y.origin.part)) [
          | inl d ↦
              absurd (IsDoomed-busy z (started-Inv l m t (Reach-trans r s)) (Reach-IsDoomed s d) e)
          | inr d ↦ d
        ]
