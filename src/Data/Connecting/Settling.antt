-- ===== src/Data/Connecting/Settling.antt =====
-- pftp/data_handler.go: how a side of a transfer with its connection comes to its end.
use pftp.Base.{Bool, true, false, ◌≡◌, refl, arith}
use pftp.Data.Connecting.{
  Part, putting, checking, shaking, wrapping, timing, failing, ended, Side, after_put, Move, puts,
  lacks, fails, wraps, times,
}

-- the moves of one side, on a handler that stays as it is
pub data Moves (t c : Bool) : Side → Side → Type 0 where
  stays : {s : Side} → Moves t c s s
  first : {s a b : Side} → Move t c s a → Moves t c a b → Moves t c s b

-- a side with its connection in hand, up to its end or an error
abbrev pub is_moving : Part → Bool
is_moving putting = true
is_moving checking = true
is_moving shaking = true
is_moving wrapping = true
is_moving timing = true
is_moving failing = true
is_moving ended = true
is_moving _ = false

abbrev pub is_settled : Part → Bool
is_settled failing = true
is_settled ended = true
is_settled _ = false

-- a side that can come to an end or an error by itself
abbrev pub Settles : Bool → Bool → Side → Type 0
Settles t c s = (z : Side) × Moves t c s z × (is_settled z.part ≡ true)

module _ (t c : Bool) where
  by : {s a : Side} → Move t c s a → Settles t c a → Settles t c s
  by m (z, r, h) = (z, first m r, h)

  at_checking : (s : Side) → s.part ≡ checking → Settles t c s
  at_checking s e = by (lacks e) (_, stays, refl)

  at_timing : (s : Side) → s.part ≡ timing → Settles t c s
  at_timing s e = by (times e) (_, stays, refl)

  at_put : (b : Bool) (s : Side) → s.part ≡ after_put b → Settles t c s
  at_put true s e = at_checking s e
  at_put false s e = at_timing s e

  settles : (s : Side) (p : Part) → s.part ≡ p → is_moving p ≡ true → Settles t c s
  settles s putting e h = by (puts e) (at_put t _ refl)
  settles s checking e h = at_checking s e
  settles s shaking e h = by (fails e) (_, stays, refl)
  settles s wrapping e h = by (wraps e) (at_timing _ refl)
  settles s timing e h = at_timing s e
  settles s failing e h = (s, stays, ground arith)
  settles s ended e h = (s, stays, ground arith)
  settles s _ e h = absurd (ground arith)

pub Side-Settles : (t c : Bool) (s : Side) → is_moving s.part ≡ true → Settles t c s
Side-Settles t c s = settles t c s s.part refl
