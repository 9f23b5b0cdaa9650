-- ===== src/Proxy/Signals/Progress.antt =====
-- pftp/proxy.go: how a switch of the origin comes to its end.
use pftp.Base.{Bool, true, false, ◌≡◌, refl, arith}
use pftp.Proxy.Signals.Order.{fits, Inv, Step-Inv}
use pftp.Proxy.Signals.{
  Reader, absent, reading, gathering, testing, handing, waiting, erring, failing, finishing, Relay,
  selecting, answering, stopping, stopped, returning, checking, expecting, Switcher, idle,
  suspended, asking, awaiting, dialling, reporting, telling, resuming, Signals, Step, Reach, here,
  next, gathers, errs, gives_in, keeps, takes_reply, answers, returns, stops, sees_stop, takes_stop,
  confirms, hears, passes, dials, resets, resumes,
}

-- a switch that can no longer come to its end
abbrev pub is_doomed : Switcher → Relay → Reader → Bool
is_doomed asking selecting failing = true
is_doomed asking selecting _ = false
is_doomed asking answering _ = false
is_doomed asking _ _ = true
is_doomed awaiting _ handing = true
is_doomed awaiting _ failing = true
is_doomed dialling returning handing = true
is_doomed dialling returning failing = true
is_doomed (reporting _) returning handing = true
is_doomed (reporting _) returning failing = true
is_doomed (telling _) expecting _ = false
is_doomed (telling _) _ _ = true
is_doomed _ _ _ = false

-- the goroutine of the commands can go on with the next command
abbrev pub CanEnd : Signals → Type 0
CanEnd y = (z : Signals) × Reach y z × (z.switcher ≡ idle)

Reach-after : {x y z : Signals} → Step x y → Reach y z → Reach x z
Reach-after s here = next here s
Reach-after s (next r t) = next (Reach-after s r) t

by : {x y : Signals} → Step x y → CanEnd y → CanEnd x
by s (z, r, h) = (z, Reach-after s r, h)

at_resuming : (y : Signals) → y.switcher ≡ resuming → CanEnd y
at_resuming y e = by (resumes e) (_, here, refl)

at_suspended : (y : Signals) → y.switcher ≡ suspended → CanEnd y
at_suspended y e = by (passes e) (at_resuming _ refl)

at_telling : (y : Signals) (b : Bool) → y.switcher ≡ telling b → y.relay ≡ expecting → CanEnd y
at_telling y b e k = by (hears b k e) (at_resuming _ refl)

at_reporting : (y : Signals) (b : Bool) → y.switcher ≡ reporting b → y.relay ≡ expecting → CanEnd y
at_reporting y b e k = by (resets b e) (at_telling _ b refl k)

-- the connection made or not, with the flag still set
module _ (b : Bool) where
  at_checking :
      (y : Signals) → y.switcher ≡ reporting b → y.stop ≡ true → y.relay ≡ checking → CanEnd y
  at_checking y e s k = by (sees_stop k s) (at_reporting _ b e refl)

  at_finishing :
      (y : Signals)
      → y.switcher ≡ reporting b
      → y.stop ≡ true
      → y.relay ≡ returning
      → y.reader ≡ finishing
      → CanEnd y
  at_finishing y e s k g = by (returns g k) (at_checking _ e s refl)

  at_erring :
      (y : Signals)
      → y.switcher ≡ reporting b
      → y.stop ≡ true
      → y.relay ≡ returning
      → y.reader ≡ erring
      → CanEnd y
  at_erring y e s k g = by (gives_in g s) (at_finishing _ e s k refl)

  at_reading :
      (y : Signals)
      → y.switcher ≡ reporting b
      → y.stop ≡ true
      → y.relay ≡ returning
      → y.reader ≡ reading
      → CanEnd y
  at_reading y e s k g = by (errs g) (at_erring _ e s k refl)

  at_testing :
      (y : Signals)
      → y.switcher ≡ reporting b
      → y.stop ≡ true
      → y.pass_through ≡ false
      → y.relay ≡ returning
      → y.reader ≡ testing
      → CanEnd y
  at_testing y e s p k g = by (keeps g p) (at_reading _ e s k refl)

  at_gathering :
      (y : Signals)
      → y.switcher ≡ reporting b
      → y.stop ≡ true
      → y.pass_through ≡ false
      → y.relay ≡ returning
      → y.reader ≡ gathering
      → CanEnd y
  at_gathering y e s p k g = by (gathers g) (at_testing _ e s p k refl)

  at_returning :
      (y : Signals) (g : Reader)
      → y.switcher ≡ reporting b
      → y.stop ≡ true
      → y.pass_through ≡ false
      → y.relay ≡ returning
      → y.reader ≡ g
      → fits returning g ≡ true
      → is_doomed (reporting b) returning g ≡ false
      → CanEnd y
  at_returning y reading e s p k g f d = at_reading y e s k g
  at_returning y gathering e s p k g f d = at_gathering y e s p k g
  at_returning y testing e s p k g f d = at_testing y e s p k g
  at_returning y erring e s p k g f d = at_erring y e s k g
  at_returning y finishing e s p k g f d = at_finishing y e s k g
  at_returning y absent e s p k g f d = absurd (ground arith)
  at_returning y waiting e s p k g f d = absurd (ground arith)
  at_returning y handing e s p k g f d = absurd (ground arith)
  at_returning y failing e s p k g f d = absurd (ground arith)

  while_reporting :
      (y : Signals) (r : Relay)
      → y.switcher ≡ reporting b
      → y.relay ≡ r
      → Inv y
      → is_doomed (reporting b) r y.reader ≡ false
      → CanEnd y
  while_reporting y returning e k i d =
      at_returning y y.reader e (ground (arith, i.agreed)) (ground (arith, i.agreed)) k refl
        (ground (arith, i.beside)) d
  while_reporting y checking e k i d = at_checking y e (ground (arith, i.agreed)) k
  while_reporting y expecting e k i d = at_reporting y b e k
  while_reporting y _ e k i d = absurd (ground (arith, i.agreed))

while_dialling :
    (y : Signals)
    → y.switcher ≡ dialling
    → Inv y
    → is_doomed dialling y.relay y.reader ≡ false
    → CanEnd y
while_dialling y e i d =
    let s = dials true e in
    by s (while_reporting true _ y.relay refl refl (Step-Inv s i) (ground arith))

-- the relay has taken the first signal
at_stopped :
    (y : Signals)
    → y.switcher ≡ awaiting
    → y.relay ≡ stopped
    → Inv y
    → is_doomed awaiting stopped y.reader ≡ false
    → CanEnd y
at_stopped y e k i d =
    let s = confirms k e in by s (while_dialling _ refl (Step-Inv s i) (ground arith))

at_stopping :
    (y : Signals)
    → y.switcher ≡ awaiting
    → y.relay ≡ stopping
    → Inv y
    → is_doomed awaiting stopping y.reader ≡ false
    → CanEnd y
at_stopping y e k i d = let s = stops k in by s (at_stopped _ e refl (Step-Inv s i) (ground arith))

while_awaiting :
    (y : Signals) (r : Relay)
    → y.switcher ≡ awaiting
    → y.relay ≡ r
    → Inv y
    → is_doomed awaiting r y.reader ≡ false
    → CanEnd y
while_awaiting y stopping e k i d = at_stopping y e k i d
while_awaiting y stopped e k i d = at_stopped y e k i d
while_awaiting y _ e k i d = absurd (ground (arith, i.agreed))

-- the signal taken by a relay whose reader is not about to hand something over
at_selecting :
    (y : Signals)
    → y.switcher ≡ asking
    → y.relay ≡ selecting
    → Inv y
    → is_doomed awaiting stopping y.reader ≡ false
    → CanEnd y
at_selecting y e k i d = let s = takes_stop k e in by s (at_stopping _ refl refl (Step-Inv s i) d)

at_answering :
    (y : Signals)
    → y.switcher ≡ asking
    → y.relay ≡ answering
    → y.reader ≡ waiting
    → Inv y
    → CanEnd y
at_answering y e k g i = let s = answers g k in by s (at_selecting _ e refl (Step-Inv s i) refl)

at_handing :
    (y : Signals)
    → y.switcher ≡ asking
    → y.relay ≡ selecting
    → y.reader ≡ handing
    → Inv y
    → CanEnd y
at_handing y e k g i = let s = takes_reply g k in by s (at_answering _ e refl refl (Step-Inv s i))

beside_selecting :
    (y : Signals) (g : Reader)
    → y.switcher ≡ asking
    → y.relay ≡ selecting
    → y.reader ≡ g
    → Inv y
    → is_doomed asking selecting g ≡ false
    → CanEnd y
beside_selecting y handing e k g i d = at_handing y e k g i
beside_selecting y _ e k g i d = at_selecting y e k i (ground arith)

while_asking :
    (y : Signals) (r : Relay)
    → y.switcher ≡ asking
    → y.relay ≡ r
    → Inv y
    → is_doomed asking r y.reader ≡ false
    → CanEnd y
while_asking y selecting e k i d = beside_selecting y y.reader e k refl i d
while_asking y answering e k i d = at_answering y e k (ground (arith, i.beside)) i
while_asking y _ e k i d = absurd (ground arith)

while_telling :
    (y : Signals) (b : Bool) (r : Relay)
    → y.switcher ≡ telling b
    → y.relay ≡ r
    → is_doomed (telling b) r y.reader ≡ false
    → CanEnd y
while_telling y b expecting e k d = at_telling y b e k
while_telling y b _ e k d = absurd (ground arith)

can_end :
    (y : Signals) (c : Switcher)
    → y.switcher ≡ c
    → Inv y
    → is_doomed c y.relay y.reader ≡ false
    → CanEnd y
can_end y idle e i d = (y, here, e)
can_end y suspended e i d = at_suspended y e
can_end y asking e i d = while_asking y y.relay e refl i d
can_end y awaiting e i d = while_awaiting y y.relay e refl i d
can_end y dialling e i d = while_dialling y e i d
can_end y (reporting b) e i d = while_reporting b y y.relay e refl i d
can_end y (telling b) e i d = while_telling y b y.relay e refl d
can_end y resuming e i d = at_resuming y e

pub Inv-CanEnd : (y : Signals) → Inv y → is_doomed y.switcher y.relay y.reader ≡ false → CanEnd y
Inv-CanEnd y = can_end y y.switcher refl
