-- ===== src/Data/Close.antt =====
-- pftp/data_handler.go: closing a data handler.
use pftp.Base.{
  true, false, List, [], ◌∷◌, ◌++◌, Option, none, some, ◌≡◌, refl, Error, append_assoc, Bool-cases,
  inl, inr,
}
use pftp.Data.{DataHandler, close_conn, close_listener, close_open, close}
use pftp.World.{Conn, Listener, Event, disconnected, released, Env, World}

abbrev pub of_conn : Option Conn → List Event
of_conn none = []
of_conn (some c) = disconnected c.id ∷ []

abbrev pub of_listener : Option Listener → List Event
of_listener none = []
of_listener (some l) = released l.opened_at ∷ []

-- What an open handler holds, in the reverse of the order in which `Close` closes it.
abbrev pub held : DataHandler → List Event
held d =
    of_listener d.origin_conn.listener
    ++ (of_listener d.client_conn.listener
        ++ (of_conn d.origin_conn.data_conn ++ of_conn d.client_conn.data_conn))

-- `closed` is `d` with nothing left open, and the world has seen each thing closed once.
pub record IsClosed (d after : DataHandler) (w w' : World) : Type 0 where
  pub closed : after.closed ≡ true
  pub client_listener : after.client_conn.listener ≡ none
  pub origin_listener : after.origin_conn.listener ≡ none
  pub client_data : after.client_conn.data_conn ≡ none
  pub origin_data : after.origin_conn.data_conn ≡ none
  pub flag : w'.in_data_transfer ≡ false
  pub events : w'.events ≡ held d ++ w.events

module _ (env : Env) where
  close_conn-events :
      (what : _) (c : Option Conn) (e : Error) (w : World)
      → (close_conn env what c e w).1.events ≡ of_conn c ++ w.events
  unfolding close_conn
  close_conn-events what none e w = refl
  close_conn-events what (some c) e w = refl

  close_listener-events :
      (what : _) (l : Option Listener) (e : Error) (w : World)
      → (close_listener env what l e w).1.events ≡ of_listener l ++ w.events
  unfolding close_listener
  close_listener-events what none e w = refl
  close_listener-events what (some l) e w = refl

  pub close_of_open :
      (d : DataHandler) (w : World) → d.closed ≡ false → close env d w ≡ close_open env d w
  unfolding close
  close_of_open d w h = rw h

  pub close_of_closed :
      (d : DataHandler) (w : World) → d.closed ≡ true → close env d w ≡ (d, none, w)
  unfolding close
  close_of_closed d w h = rw h

  close_open-events :
      (d : DataHandler) (w : World) → (close_open env d w).2.events ≡ held d ++ w.events
  unfolding close_open
  close_open-events d w = simp (close_listener-events, close_conn-events, append_assoc)

  -- Closing an open handler, whatever the closes answer, closes its data connections and its
  -- listeners once each, leaves none of them in it, marks it closed and clears the transfer flag.
  pub close-IsClosed :
      (d : DataHandler) (w : World)
      → d.closed ≡ false
      → IsClosed d (close env d w).0 w (close env d w).2
  close-IsClosed d w h = rw (close_of_open d w h) (record {
    closed = unfold close_open in refl;
    client_listener = unfold close_open in refl;
    origin_listener = unfold close_open in refl;
    client_data = unfold close_open in refl;
    origin_data = unfold close_open in refl;
    flag = unfold close_open in refl;
    events = close_open-events d w;
  })

  -- Closing a second time does nothing and reports no error.
  pub close-close :
      (d : DataHandler) (w : World)
      → close env (close env d w).0 (close env d w).2 ≡ ((close env d w).0, none, (close env d w).2)
  close-close d w = elim (Bool-cases d.closed) [
    | inl shut ↦ rw (close_of_closed d w shut) (close_of_closed d w shut)
    | inr open_still ↦
        close_of_closed (close env d w).0 (close env d w).2 (close-IsClosed d w open_still).closed
  ]
