-- ===== src/Deadlines.antt =====
-- The deadlines of the two control connections (pftp/client_handler.go, pftp/proxy.go,
-- pftp/data_handler.go, pftp/server.go), with the flag inDataTransfer that they depend on. A time is
-- in nanoseconds, a timeout in seconds, and a connection without a deadline has `none`.
pub mod Copying
pub mod Expired
pub mod LateStart
pub mod Examples
use pftp.Base.{
  ℕ, ◌+◌, ◌-◌, ◌*◌, ◌%◌, ◌^◌, Bool, true, false, ◌&&◌, List, [], ◌∷◌, Option, none, some,
  if◌then◌else◌, ltb,
}
use pftp.Config.{Config}
use pftp.Text.{Bytes, codes, contains, has_prefix}

pub record Timing : Type 0 where
  pub client : Option ℕ
  pub origin : Option ℕ
  pub in_data_transfer : Bool

-- `time.Now().Add(time.Duration(t) * time.Second)`, in 64 bits
abbrev pub due : ℕ → ℕ → ℕ
due now t = let d = (t * 10 ^ 9) % 2 ^ 64 in if ltb d (2 ^ 63) then now + d else now - (2 ^ 64 - d)

-- `t > 0` of an `int`
abbrev pub is_positive : ℕ → Bool
is_positive t = ltb 0 t && ltb t (2 ^ 63)

-- `setClientDeadLine`
unfoldable pub set_client_dead_line : ℕ → ℕ → Timing → Timing
set_client_dead_line now t y =
    if y.in_data_transfer
    then record y { client = none }
    else record y { client = some (due now t) }

-- the flag behind a line of the origin
unfoldable pub marked : Bytes → Bool → Bool
marked buff b =
    if has_prefix buff (codes "150 ")
    then true
    else if has_prefix buff (codes "226 ")
    then false
    else b

-- What happens to the deadlines in a session.
pub data Moment : Type 0 where
  asks : Moment  -- the next command is awaited
  gives : Bool → Bytes → Moment  -- a line of the origin, before or behind a login
  copies : Moment  -- a transfer has both its connections
  ends : Moment  -- a transfer ends
  closes : Moment  -- the data handler is closed
  times_out : Moment  -- the client was silent for too long

module _ (config : Config) where
  -- a round of `readClientCommands`, before it reads
  unfoldable pub await_command : ℕ → Timing → Timing
  await_command now y =
      if is_positive config.idle_timeout then set_client_dead_line now config.idle_timeout y else y

  -- the part of `startProxy` under `s.config.ProxyTimeout > 0`
  unfoldable pub set_origin_dead_line : ℕ → Timing → Timing
  set_origin_dead_line now y =
      if is_positive config.proxy_timeout
      then if y.in_data_transfer
        then record y { origin = none }
        else record y { origin = some (due now config.proxy_timeout) }
      else y

  -- the flag in `startProxy`, with `s.isLoggedin`
  unfoldable pub mark : Bool → Bytes → Timing → Timing
  mark is_loggedin buff y =
      if config.proxy_protocol && contains buff (codes "500 PROXY")
      then y
      else if config.data_chan_proxy && is_loggedin
      then record y { in_data_transfer = marked buff y.in_data_transfer }
      else y

  -- the end of `StartDataTransfer`
  unfoldable pub restore : ℕ → Timing → Timing
  restore now y = record y {
    client = some (due now config.idle_timeout);
    origin = some (due now config.proxy_timeout);
  }

  unfoldable pub apply : ℕ → Moment → Timing → Timing
  apply now asks y = await_command now y
  apply now (gives is_loggedin buff) y = mark is_loggedin buff (set_origin_dead_line now y)
  apply now copies y = record y { client = none; origin = none }
  apply now ends y = restore now y
  apply now closes y = record y { in_data_transfer = false }
  apply now times_out y = record y { client = some (due now 60) }

  -- the moments of a session, each with its time
  unfoldable pub follow : List (ℕ × Moment) → Timing → Timing
  follow [] y = y
  follow ((now, m) ∷ ms) y = follow ms (apply now m y)

  -- the connection of a client as `serve` hands it over, and its origin, before the first command
  abbrev pub on_connect : ℕ → Timing
  on_connect now = record {
    client = if is_positive config.idle_timeout then some (due now config.idle_timeout) else none;
    origin = none;
    in_data_transfer = false;
  }
