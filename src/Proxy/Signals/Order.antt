-- ===== src/Proxy/Signals/Order.antt =====
-- pftp/proxy.go: what holds between the steps of the goroutines of a session.
use pftp.Base.{Bool, true, false, not, ◌&&◌, ◌≡◌, refl, arith}
use pftp.Proxy.Signals.{
  Reader, absent, reading, gathering, testing, handing, waiting, erring, failing, finishing, Relay,
  starting, selecting, answering, stopping, stopped, returning, leaving, checking, expecting, ended,
  Switcher, idle, suspended, asking, awaiting, dialling, reporting, telling, resuming, Signals,
  Step, reads, begins, gathers, breaks_off, errs, gives_in, complains, keeps, hands, takes_reply,
  answers, takes_error, returns, leaves, stops, sees_stop, sees_none, turns_stopped,
  turns_suspended, starts, takes_stop, confirms, hears, suspends, switches, passes, dials, resets,
  resumes, Reach, here, next, fresh,
}

-- a relay that may write to the client
abbrev pub is_passing : Relay → Bool
is_passing selecting = true
is_passing answering = true
is_passing _ = false

-- a relay in its loop, with no switch under way
abbrev pub is_looping : Relay → Bool
is_looping starting = true
is_looping selecting = true
is_looping answering = true
is_looping leaving = true
is_looping checking = true
is_looping ended = true
is_looping _ = false

-- a relay between the end of its loop and the result of the switch
abbrev pub is_between : Relay → Bool
is_between returning = true
is_between checking = true
is_between expecting = true
is_between _ = false

-- the same, or at its next start
abbrev pub is_between_or_starting : Relay → Bool
is_between_or_starting starting = true
is_between_or_starting r = is_between r

-- the reader that a relay has beside it
abbrev pub fits : Relay → Reader → Bool
fits starting absent = true
fits checking absent = true
fits expecting absent = true
fits ended absent = true
fits selecting reading = true
fits selecting gathering = true
fits selecting testing = true
fits selecting handing = true
fits selecting erring = true
fits selecting failing = true
fits answering waiting = true
fits leaving finishing = true
fits stopping absent = false
fits stopping waiting = false
fits stopping finishing = false
fits stopping _ = true
fits stopped absent = false
fits stopped waiting = false
fits stopped _ = true
fits returning absent = false
fits returning waiting = false
fits returning _ = true
fits _ _ = false

-- the relay that a switcher has beside it, with the flags `stop` and `passThrough`
abbrev pub agrees : Switcher → Relay → Bool → Bool → Bool
agrees idle r s p = is_looping r && (not s && p)
agrees suspended r s p = is_looping r && (not s && not p)
agrees asking r s p = is_looping r && (not s && not p)
agrees resuming r s p = is_looping r && (not s && not p)
agrees awaiting stopping s p = not s && not p
agrees awaiting stopped s p = s && not p
agrees awaiting _ s p = false
agrees dialling r s p = is_between r && (s && not p)
agrees (reporting _) r s p = is_between r && (s && not p)
agrees (telling _) r s p = is_between_or_starting r && (not s && not p)

pub record Inv (y : Signals) : Type 0 where
  pub beside : fits y.relay y.reader ≡ true
  pub agreed : agrees y.switcher y.relay y.stop y.pass_through ≡ true

pub Step-Inv : {y z : Signals} → Step y z → Inv y → Inv z
Step-Inv (reads e) h = ground (arith, h.beside, h.agreed)
Step-Inv (begins e) h = ground (arith, h.beside, h.agreed)
Step-Inv (gathers e) h = ground (arith, h.beside, h.agreed)
Step-Inv (breaks_off e) h = ground (arith, h.beside, h.agreed)
Step-Inv (errs e) h = ground (arith, h.beside, h.agreed)
Step-Inv (gives_in e k) h = ground (arith, h.beside, h.agreed)
Step-Inv (complains e k) h = ground (arith, h.beside, h.agreed)
Step-Inv (keeps e k) h = ground (arith, h.beside, h.agreed)
Step-Inv (hands e k) h = ground (arith, h.beside, h.agreed)
Step-Inv (takes_reply e k) h = ground (arith, h.beside, h.agreed)
Step-Inv (answers e k) h = ground (arith, h.beside, h.agreed)
Step-Inv (takes_error e k) h = ground (arith, h.beside, h.agreed)
Step-Inv (returns e k) h = ground (arith, h.beside, h.agreed)
Step-Inv (leaves e k) h = ground (arith, h.beside, h.agreed)
Step-Inv (stops e) h = ground (arith, h.beside, h.agreed)
Step-Inv (sees_stop e k) h = ground (arith, h.beside, h.agreed)
Step-Inv (sees_none e k) h = ground (arith, h.beside, h.agreed)
Step-Inv (turns_stopped e k) h = ground (arith, h.beside, h.agreed)
Step-Inv (turns_suspended e k) h = ground (arith, h.beside, h.agreed)
Step-Inv (starts e k l) h = ground (arith, h.beside, h.agreed)
Step-Inv (takes_stop e k) h = ground (arith, h.beside, h.agreed)
Step-Inv (confirms e k) h = ground (arith, h.beside, h.agreed)
Step-Inv (hears b e k) h = ground (arith, h.beside, h.agreed)
Step-Inv (suspends e) h = ground (arith, h.beside, h.agreed)
Step-Inv (switches e) h = ground (arith, h.beside, h.agreed)
Step-Inv (passes e) h = ground (arith, h.beside, h.agreed)
Step-Inv (dials b e) h = ground (arith, h.beside, h.agreed)
Step-Inv (resets b e) h = ground (arith, h.beside, h.agreed)
Step-Inv (resumes e) h = ground (arith, h.beside, h.agreed)

pub Reach-Inv : {y z : Signals} → Reach y z → Inv y → Inv z
Reach-Inv here h = h
Reach-Inv (next r st) h = Step-Inv st (Reach-Inv r h)

-- every state of a session
pub fresh-Inv : {y : Signals} → Reach fresh y → Inv y
fresh-Inv r = Reach-Inv r (record { beside = refl; agreed = refl })

-- a switch between its first signal and its result
abbrev pub is_switching : Switcher → Bool
is_switching awaiting = true
is_switching dialling = true
is_switching (reporting _) = true
is_switching (telling _) = true
is_switching _ = false

-- In every order of the steps of the three goroutines: from the first signal of a switch that the read
-- loop has taken until the result of the switch has been told, the loop is not at its select and writes
-- nothing to the client, and the proxy stays suspended.
pub Reach-quiet :
    {y : Signals}
    → Reach fresh y
    → is_switching y.switcher ≡ true
    → (is_passing y.relay ≡ false) × (y.pass_through ≡ false)
Reach-quiet {y} r h = let k = fresh-Inv r in ground (arith, k.beside, k.agreed)
