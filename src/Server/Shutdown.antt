-- ===== src/Server/Shutdown.antt =====
-- pftp/server.go: how a server ends (Start, serve, stop). `Start` waits for a signal and for the
-- goroutine of `serve`, which waits for the goroutines of the clients or does not. The steps of the
-- three come in any order; what a client does is its end here, with the error of handleCommands.
pub mod Ends
pub mod Examples
use pftp.Base.{ℕ, suc, Bool, true, false, none, some, ◌≡◌, Error}
use pftp.Text.{Bytes}

-- The goroutine of `serve`.
pub data Serving : Type 0 where
  accepting : Serving  -- at `Accept`
  waiting : Serving  -- at `eg.Wait()`
  returned : Error → Serving  -- behind `serve`, before the error is noted
  reporting : Serving  -- at `done <- struct{}{}`
  over : Serving

-- The goroutine of `Start`, behind `listen`.
pub data Starting : Type 0 where
  attending : Starting  -- at `<-ch`
  stopping : Starting  -- in `stop`, before `shutdown` is set
  closing : Starting  -- in `stop`, before the listener is closed
  awaiting : Starting  -- at `<-done`
  finished : Error → Starting

-- `starter` says whether SERVER_STARTER_PORT is set, `first` is the first error of the error group.
pub record Running : Type 0 where
  pub starter : Bool
  pub serving : Serving
  pub main : Starting
  pub shutdown : Bool
  pub closed : Bool
  pub last_error : Error
  pub clients : ℕ
  pub first : Error

-- the first error, or a later one
abbrev pub or_else : Error → Error → Error
or_else none e = e
or_else (some d) e = some d

-- `serve` behind an error of `Accept`
abbrev pub after_accept_error : Bool → Bytes → Serving
after_accept_error true e = waiting
after_accept_error false e = returned (some e)

-- `if err := server.serve(); err != nil { if !server.shutdown { lastError = err } }`
abbrev pub noted : Error → Bool → Error → Error
noted (some e) false last = some e
noted _ _ last = last

pub data Step (y : Running) : Running → Type 0 where
  accepts : y.serving ≡ accepting → y.closed ≡ false → Step y (record y { clients = suc y.clients })
  ends :
      (n : ℕ) (e : Error)
      → y.clients ≡ suc n
      → Step y (record y { clients = n; first = or_else y.first e })
  fails :
      (e : Bytes)
      → y.serving ≡ accepting
      → Step y (record y { serving = after_accept_error y.starter e })
  waits : y.serving ≡ waiting → y.clients ≡ 0 → Step y (record y { serving = returned y.first })
  notes :
      (e : Error)
      → y.serving ≡ returned e
      → Step y (record y { serving = reporting; last_error = noted e y.shutdown y.last_error })
  hears : y.main ≡ attending → Step y (record y { main = stopping })
  shuts : y.main ≡ stopping → Step y (record y { main = closing; shutdown = true })
  closes :
      (e : Error)
      → y.main ≡ closing
      → Step y (record y { main = awaiting; closed = true; last_error = or_else e y.last_error })
  finishes :
      y.main ≡ awaiting
      → y.serving ≡ reporting
      → Step y (record y { main = finished y.last_error; serving = over })

pub data Reach (y : Running) : Running → Type 0 where
  here : Reach y y
  next : {a b : Running} → Reach y a → Step a b → Reach y b

-- `Start` behind `listen`
abbrev pub begun : Bool → Running
begun starter = record {
  starter = starter;
  serving = accepting;
  main = attending;
  shutdown = false;
  closed = false;
  last_error = none;
  clients = 0;
  first = none;
}
