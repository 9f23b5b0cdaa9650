-- ===== src/Proxy/Signals/Hang.antt =====
-- pftp/proxy.go: a switch of the origin that never comes to its end.
use pftp.Base.{true, false, ◌≡◌, ◌≢◌, ◌↔◌, arith, Bool-cases, inl, inr}
use pftp.Proxy.Signals.Order.{Inv, Reach-Inv, fresh-Inv}
use pftp.Proxy.Signals.Progress.{is_doomed, CanEnd, Inv-CanEnd}
use pftp.Proxy.Signals.{
  handing, selecting, stopping, idle, asking, awaiting, Signals, Step, Reach, here, next, fresh,
  reads, begins, gathers, breaks_off, errs, gives_in, complains, keeps, hands, takes_reply, answers,
  takes_error, returns, leaves, stops, sees_stop, sees_none, turns_stopped, turns_suspended, starts,
  takes_stop, confirms, hears, suspends, switches, passes, dials, resets, resumes,
}

abbrev IsDoomed : Signals → Type 0
IsDoomed y = is_doomed y.switcher y.relay y.reader ≡ true

-- no step leads out
Step-IsDoomed : {y z : Signals} → Step y z → Inv y → IsDoomed y → IsDoomed z
Step-IsDoomed (reads e) i d = ground (arith, i.beside, i.agreed)
Step-IsDoomed (begins e) i d = ground (arith, i.beside, i.agreed)
Step-IsDoomed (gathers e) i d = ground (arith, i.beside, i.agreed)
Step-IsDoomed (breaks_off e) i d = ground (arith, i.beside, i.agreed)
Step-IsDoomed (errs e) i d = ground (arith, i.beside, i.agreed)
Step-IsDoomed (gives_in e k) i d = ground (arith, i.beside, i.agreed)
Step-IsDoomed (complains e k) i d = ground (arith, i.beside, i.agreed)
Step-IsDoomed (keeps e k) i d = ground (arith, i.beside, i.agreed)
Step-IsDoomed (hands e k) i d = ground (arith, i.beside, i.agreed)
Step-IsDoomed (takes_reply e k) i d = ground (arith, i.beside, i.agreed)
Step-IsDoomed (answers e k) i d = ground (arith, i.beside, i.agreed)
Step-IsDoomed (takes_error e k) i d = ground (arith, i.beside, i.agreed)
Step-IsDoomed (returns e k) i d = ground (arith, i.beside, i.agreed)
Step-IsDoomed (leaves e k) i d = ground (arith, i.beside, i.agreed)
Step-IsDoomed (stops e) i d = ground (arith, i.beside, i.agreed)
Step-IsDoomed (sees_stop e k) i d = ground (arith, i.beside, i.agreed)
Step-IsDoomed (sees_none e k) i d = ground (arith, i.beside, i.agreed)
Step-IsDoomed (turns_stopped e k) i d = ground (arith, i.beside, i.agreed)
Step-IsDoomed (turns_suspended e k) i d = ground (arith, i.beside, i.agreed)
Step-IsDoomed (starts e k l) i d = ground (arith, i.beside, i.agreed)
Step-IsDoomed (takes_stop e k) i d = ground (arith, i.beside, i.agreed)
Step-IsDoomed (confirms e k) i d = ground (arith, i.beside, i.agreed)
Step-IsDoomed (hears b e k) i d = ground (arith, i.beside, i.agreed)
Step-IsDoomed (suspends e) i d = ground (arith, i.beside, i.agreed)
Step-IsDoomed (switches e) i d = ground (arith, i.beside, i.agreed)
Step-IsDoomed (passes e) i d = ground (arith, i.beside, i.agreed)
Step-IsDoomed (dials b e) i d = ground (arith, i.beside, i.agreed)
Step-IsDoomed (resets b e) i d = ground (arith, i.beside, i.agreed)
Step-IsDoomed (resumes e) i d = ground (arith, i.beside, i.agreed)

Reach-IsDoomed : {y z : Signals} → Reach y z → Inv y → IsDoomed y → IsDoomed z
Reach-IsDoomed here i d = d
Reach-IsDoomed (next r s) i d = Step-IsDoomed s (Reach-Inv r i) (Reach-IsDoomed r i d)

IsDoomed-busy : (y : Signals) → IsDoomed y → y.switcher ≢ idle
IsDoomed-busy y d e = ground arith

-- In every order of the steps before and behind: the goroutine of the client's commands can get to its
-- next command exactly where the switch is not doomed. It is doomed where the handler asks a loop to
-- stop that neither is at its select nor answers the client on the way back to it, or that is about to
-- be given an error there; where the loop has stopped while its reader still has a reply or an error to
-- hand over; and where the result of the switch is told to a loop that does not wait for it.
pub Reach-CanEnd :
    (y : Signals) → Reach fresh y → CanEnd y ↔ (is_doomed y.switcher y.relay y.reader ≡ false)
Reach-CanEnd y r = (not_doomed, Inv-CanEnd y (fresh-Inv r))
  where
    not_doomed : CanEnd y → is_doomed y.switcher y.relay y.reader ≡ false
    not_doomed (z, s, e) = elim (Bool-cases (is_doomed y.switcher y.relay y.reader)) [
      | inl d ↦ absurd (IsDoomed-busy z (Reach-IsDoomed s (fresh-Inv r) d) e)
      | inr d ↦ d
    ]

-- From every state of a session in which the reader hands a reply over while a handler asks the read
-- loop to stop: the goroutine of the commands can still get to its next command, and one more step,
-- the loop's choice of the signal, leads where it never can.
pub Reach-races :
    (y : Signals)
    → Reach fresh y
    → y.switcher ≡ asking
    → y.relay ≡ selecting
    → y.reader ≡ handing
    → CanEnd y × ((z : Signals) × Step y z × ¬ CanEnd z)
Reach-races y r e k g = ((Reach-CanEnd y r).1 (ground arith), (_, takes_stop k e, stuck))
  where
    stuck : ¬ CanEnd (record y { relay = stopping; switcher = awaiting })
    stuck c = let d = (Reach-CanEnd _ (next r (takes_stop k e))).0 c in ground arith
