-- ===== src/Server/Shutdown/Ends.antt =====
-- pftp/server.go: what `Start` waits for, and that it can come to its end.
use pftp.Base.{
  ℕ, zero, suc, Bool, true, false, not, ◌&&◌, ◌||◌, ◌≡◌, ◌==◌, refl, ◌∙◌, arith, Error, none, some,
  [],
}
use pftp.Server.Shutdown.{
  Serving, accepting, waiting, returned, reporting, over, Starting, attending, stopping, closing,
  awaiting, finished, Running, Step, accepts, ends, fails, waits, notes, hears, shuts, closes,
  finishes, Reach, here, next, begun,
}

-- the error group has been waited for, where it is
abbrev pub drained : Serving → Bool → ℕ → Bool
drained (returned _) true n = n == 0
drained reporting true n = n == 0
drained over true n = n == 0
drained waiting st n = st
drained _ _ n = true

-- `done` has been received exactly behind the end of `Start`
abbrev pub paired : Starting → Serving → Bool
paired (finished _) over = true
paired (finished _) _ = false
paired _ over = false
paired _ _ = true

-- the signal's part of `Start`, with the flag and the listener
abbrev pub shut_down : Starting → Bool → Bool → Bool
shut_down closing s c = s
shut_down awaiting s c = s && c
shut_down (finished _) s c = s && c
shut_down _ s c = true

pub record Inv (y : Running) : Type 0 where
  pub waited : drained y.serving y.starter y.clients ≡ true
  pub together : paired y.main y.serving ≡ true
  pub shut : shut_down y.main y.shutdown y.closed ≡ true

pub Step-Inv : {y z : Running} → Step y z → Inv y → Inv z
Step-Inv (accepts e k) h = ground (arith, h.waited, h.together, h.shut)
Step-Inv (ends n d e) h = ground (arith, h.waited, h.together, h.shut)
Step-Inv (fails d e) h = ground (arith, h.waited, h.together, h.shut)
Step-Inv (waits e k) h = ground (arith, h.waited, h.together, h.shut)
Step-Inv (notes d e) h = ground (arith, h.waited, h.together, h.shut)
Step-Inv (hears e) h = ground (arith, h.waited, h.together, h.shut)
Step-Inv (shuts e) h = ground (arith, h.waited, h.together, h.shut)
Step-Inv (closes d e) h = ground (arith, h.waited, h.together, h.shut)
Step-Inv (finishes e k) h = ground (arith, h.waited, h.together, h.shut)

Step-starter : {y z : Running} → Step y z → z.starter ≡ y.starter
Step-starter (accepts e k) = refl
Step-starter (ends n d e) = refl
Step-starter (fails d e) = refl
Step-starter (waits e k) = refl
Step-starter (notes d e) = refl
Step-starter (hears e) = refl
Step-starter (shuts e) = refl
Step-starter (closes d e) = refl
Step-starter (finishes e k) = refl

Reach-Inv : {y z : Running} → Reach y z → Inv y → Inv z
Reach-Inv here h = h
Reach-Inv (next r s) h = Step-Inv s (Reach-Inv r h)

Reach-starter : {y z : Running} → Reach y z → z.starter ≡ y.starter
Reach-starter here = refl
Reach-starter (next r s) = Step-starter s ∙ Reach-starter r

begun-Inv : (st : Bool) {y : Running} → Reach (begun st) y → Inv y
begun-Inv st r = Reach-Inv r (record { waited = refl; together = refl; shut = refl })

-- Wherever `Start` has ended, in every order of the steps: the shutdown is marked, the listener has
-- been closed, and under a server starter no client is left.
pub Reach-finished :
    (st : Bool) {y : Running} (e : Error)
    → Reach (begun st) y
    → y.main ≡ finished e
    → (y.shutdown ≡ true) × (y.closed ≡ true) × ((not st || y.clients == 0) ≡ true)
Reach-finished st {y} e r h =
    let k = begun-Inv st r in
    let s = Reach-starter r in
    (ground (arith, k.shut), ground (arith, k.shut), ground (arith, k.waited, k.together))

-- the clients that a server leaves behind
abbrev pub left : Bool → ℕ → ℕ
left true n = 0
left false n = n

-- `Start` comes to its end with `n` clients left
abbrev pub EndsWith : ℕ → Running → Type 0
EndsWith n y = (z : Running) × (e : Error) × Reach y z × (z.main ≡ finished e) × (z.clients ≡ n)

Reach-after : {x y z : Running} → Step x y → Reach y z → Reach x z
Reach-after s here = next here s
Reach-after s (next r t) = next (Reach-after s r) t

by : (n : ℕ) {x y : Running} → Step x y → EndsWith n y → EndsWith n x
by n s (z, e, r, m, c) = (z, e, Reach-after s r, m, c)

at_reporting :
    (n : ℕ) (y : Running) → y.main ≡ awaiting → y.serving ≡ reporting → y.clients ≡ n → EndsWith n y
at_reporting n y m s c = by n (finishes m s) (_, _, here, refl, c)

at_returned :
    (n : ℕ) (y : Running) (e : Error)
    → y.main ≡ awaiting
    → y.serving ≡ returned e
    → y.clients ≡ n
    → EndsWith n y
at_returned n y e m s c = by n (notes e s) (at_reporting n _ m refl c)

-- every client ends
at_waiting :
    (n : ℕ) (y : Running) → y.main ≡ awaiting → y.serving ≡ waiting → y.clients ≡ n → EndsWith 0 y
at_waiting zero y m s c = by 0 (waits s c) (at_returned 0 _ y.first m refl c)
at_waiting (suc n) y m s c = by 0 (ends n none c) (at_waiting n _ m s refl)

at_accepting :
    (st : Bool) (y : Running)
    → y.main ≡ awaiting
    → y.serving ≡ accepting
    → y.starter ≡ st
    → EndsWith (left st y.clients) y
at_accepting true y m s t = by 0 (fails [] s) (at_waiting y.clients _ m (ground arith) refl)
at_accepting false y m s t =
    by y.clients (fails [] s) (at_returned y.clients _ (some []) m (ground arith) refl)

while_awaiting :
    (st : Bool) (y : Running) (v : Serving)
    → y.main ≡ awaiting
    → y.serving ≡ v
    → y.starter ≡ st
    → Inv y
    → EndsWith (left st y.clients) y
while_awaiting st y accepting m s t i = at_accepting st y m s t
while_awaiting true y waiting m s t i = at_waiting y.clients y m s refl
while_awaiting false y waiting m s t i = absurd (ground (arith, i.waited))
while_awaiting true y (returned e) m s t i = at_returned 0 y e m s (ground (arith, i.waited))
while_awaiting false y (returned e) m s t i = at_returned y.clients y e m s refl
while_awaiting true y reporting m s t i = at_reporting 0 y m s (ground (arith, i.waited))
while_awaiting false y reporting m s t i = at_reporting y.clients y m s refl
while_awaiting st y over m s t i = absurd (ground (arith, i.together))

while_closing :
    (st : Bool) (y : Running)
    → y.main ≡ closing
    → y.starter ≡ st
    → Inv y
    → EndsWith (left st y.clients) y
while_closing st y m t i =
    let s = closes none m in
    by (left st y.clients) s (while_awaiting st _ y.serving refl refl t (Step-Inv s i))

while_stopping :
    (st : Bool) (y : Running)
    → y.main ≡ stopping
    → y.starter ≡ st
    → Inv y
    → EndsWith (left st y.clients) y
while_stopping st y m t i =
    let s = shuts m in by (left st y.clients) s (while_closing st _ refl t (Step-Inv s i))

can_end :
    (st : Bool) (y : Running) (c : Starting)
    → y.main ≡ c
    → y.starter ≡ st
    → Inv y
    → EndsWith (left st y.clients) y
can_end st y attending m t i =
    let s = hears m in by (left st y.clients) s (while_stopping st _ refl t (Step-Inv s i))
can_end st y stopping m t i = while_stopping st y m t i
can_end st y closing m t i = while_closing st y m t i
can_end st y awaiting m t i = while_awaiting st y y.serving m refl t i
can_end true y (finished e) m t i = (y, e, here, m, ground (arith, i.waited, i.together))
can_end false y (finished e) m t i = (y, e, here, m, refl)

-- From every state of a server, whatever came before, `Start` can still come to its end: under a
-- server starter with no client left, and without one with every client that runs in that state still
-- running, since nothing waits for it.
pub Reach-EndsWith : (st : Bool) {y : Running} → Reach (begun st) y → EndsWith (left st y.clients) y
Reach-EndsWith st {y} r = can_end st y y.main refl (Reach-starter r) (begun-Inv st r)
