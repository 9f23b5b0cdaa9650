-- ===== src/Proxy/Signals.antt =====
-- pftp/proxy.go and pftp/client_handler.go: the three goroutines of a session at work on one proxy, and
-- the channels and flags that they share (startProxy, switchOrigin, getResponseFromOrigin). One step
-- is one access to a channel or a flag, and the steps come in any order. What the lines say is left
-- out.
pub mod Order
pub mod Progress
pub mod Hang
pub mod Examples
use pftp.Base.{Bool, true, false, ◌≡◌}

-- The goroutine inside `startProxy` that reads from the origin.
pub data Reader : Type 0 where
  absent : Reader
  reading : Reader  -- at the first `ReadString` of its loop
  gathering : Reader  -- at a `ReadString` inside a reply of several lines
  testing : Reader  -- before `if s.passThrough`
  handing : Reader  -- at `read <- buff`
  waiting : Reader  -- at `<-send`
  erring : Reader  -- behind a read error, before `if !s.stop`
  failing : Reader  -- at `c <- err` in `safeSetChanel`
  finishing : Reader  -- at `done <- struct{}{}`

-- The goroutine of `getResponseFromOrigin`, in `startProxy` or between its calls.
pub data Relay : Type 0 where
  starting : Relay  -- before `if s.stop || !s.passThrough`
  selecting : Relay  -- at the `select`
  answering : Relay  -- in `sendToClient` and at `send <- struct{}{}`
  stopping : Relay  -- behind `<-s.stopChan`, before `s.stop = true`
  stopped : Relay  -- at `s.stopChanDone <- struct{}{}`
  returning : Relay  -- at `<-done`, without an error
  leaving : Relay  -- at `<-done`, with an error
  checking : Relay  -- before `if c.proxy.stop`
  expecting : Relay  -- at `<-c.proxy.waitSwitching`
  ended : Relay

-- The goroutine of the client's commands, around a handler that suspends the proxy.
pub data Switcher : Type 0 where
  idle : Switcher
  suspended : Switcher  -- behind `c.proxy.suspend()`
  asking : Switcher  -- at `s.stopChan <- struct{}{}`
  awaiting : Switcher  -- at `<-s.stopChanDone`
  dialling : Switcher  -- between the two signals
  reporting : Bool → Switcher  -- before `s.stop = false`
  telling : Bool → Switcher  -- at `s.waitSwitching <- switchResult`
  resuming : Switcher  -- before `unsuspend`

pub record Signals : Type 0 where
  pub reader : Reader
  pub relay : Relay
  pub switcher : Switcher
  pub stop : Bool
  pub pass_through : Bool

-- the relay behind the result of a switch
abbrev pub after_switch : Bool → Relay
after_switch true = starting
after_switch false = ended

pub data Step (y : Signals) : Signals → Type 0 where
  -- the reader by itself
  reads : y.reader ≡ reading → Step y (record y { reader = testing })
  begins : y.reader ≡ reading → Step y (record y { reader = gathering })
  gathers : y.reader ≡ gathering → Step y (record y { reader = testing })
  breaks_off : y.reader ≡ gathering → Step y (record y { reader = failing })
  errs : y.reader ≡ reading → Step y (record y { reader = erring })
  gives_in : y.reader ≡ erring → y.stop ≡ true → Step y (record y { reader = finishing })
  complains : y.reader ≡ erring → y.stop ≡ false → Step y (record y { reader = failing })
  keeps : y.reader ≡ testing → y.pass_through ≡ false → Step y (record y { reader = reading })
  hands : y.reader ≡ testing → y.pass_through ≡ true → Step y (record y { reader = handing })
  -- the reader and the relay on `read`, `send`, `errchan` and `done`
  takes_reply :
      y.reader ≡ handing
      → y.relay ≡ selecting
      → Step y (record y { reader = waiting; relay = answering })
  answers :
      y.reader ≡ waiting
      → y.relay ≡ answering
      → Step y (record y { reader = reading; relay = selecting })
  takes_error :
      y.reader ≡ failing
      → y.relay ≡ selecting
      → Step y (record y { reader = finishing; relay = leaving })
  returns :
      y.reader ≡ finishing
      → y.relay ≡ returning
      → Step y (record y { reader = absent; relay = checking })
  leaves :
      y.reader ≡ finishing
      → y.relay ≡ leaving
      → Step y (record y { reader = absent; relay = ended })
  -- the relay by itself
  stops : y.relay ≡ stopping → Step y (record y { relay = stopped; stop = true })
  sees_stop : y.relay ≡ checking → y.stop ≡ true → Step y (record y { relay = expecting })
  sees_none : y.relay ≡ checking → y.stop ≡ false → Step y (record y { relay = starting })
  turns_stopped : y.relay ≡ starting → y.stop ≡ true → Step y (record y { relay = checking })
  turns_suspended :
      y.relay ≡ starting → y.pass_through ≡ false → Step y (record y { relay = checking })
  starts :
      y.relay ≡ starting
      → y.stop ≡ false
      → y.pass_through ≡ true
      → Step y (record y { reader = reading; relay = selecting })
  -- the relay and the switcher on `stopChan`, `stopChanDone` and `waitSwitching`
  takes_stop :
      y.relay ≡ selecting
      → y.switcher ≡ asking
      → Step y (record y { relay = stopping; switcher = awaiting })
  confirms :
      y.relay ≡ stopped
      → y.switcher ≡ awaiting
      → Step y (record y { relay = returning; switcher = dialling })
  hears :
      (b : Bool)
      → y.relay ≡ expecting
      → y.switcher ≡ telling b
      → Step y (record y { relay = after_switch b; switcher = resuming })
  -- the switcher by itself
  suspends : y.switcher ≡ idle → Step y (record y { switcher = suspended; pass_through = false })
  switches : y.switcher ≡ suspended → Step y (record y { switcher = asking })
  passes : y.switcher ≡ suspended → Step y (record y { switcher = resuming })
  dials : (b : Bool) → y.switcher ≡ dialling → Step y (record y { switcher = reporting b })
  resets :
      (b : Bool)
      → y.switcher ≡ reporting b
      → Step y (record y { switcher = telling b; stop = false })
  resumes : y.switcher ≡ resuming → Step y (record y { switcher = idle; pass_through = true })

pub data Reach (y : Signals) : Signals → Type 0 where
  here : Reach y y
  next : {a b : Signals} → Reach y a → Step a b → Reach y b

-- a new proxy, before its relay has begun
abbrev pub fresh : Signals
fresh = record {
  reader = absent;
  relay = starting;
  switcher = idle;
  stop = false;
  pass_through = true;
}
