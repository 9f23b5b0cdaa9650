-- ===== src/Sockets.antt =====
-- pftp/socket_control.go and pftp/utils.go: what is logged of a close (connectionCloser), the options
-- of a socket that shares its port (setReuseIPPort), and the sending of an error (safeSetChanel). The
-- error of sendEOF is in Data/Copy.
use pftp.Base.{
  Bool, true, false, List, [], ◌∷◌, Option, none, some, ◌≡◌, refl, if◌then◌else◌, Error,
}
use pftp.World.{already_closed}
use pftp.Log.{Logger, LogEntry, err, entry}
use pftp.Text.{Bytes, codes, contains}

-- the log of an error of `Close`
abbrev pub close_entries : Option Logger → Bytes → List LogEntry
close_entries none e = []
close_entries (some l) e = entry err l e [] ∷ []

-- `connectionCloser`, on what `Close` returned
unfoldable pub connection_closer : Option Logger → Error → List LogEntry
connection_closer log none = []
connection_closer log (some e) = if already_closed e then [] else close_entries log e

-- What the control of a socket gives: it cannot be controlled, or these are the errors of its two
-- options, the first for the address and the second for the port.
pub data Control : Type 0 where
  uncontrolled : Bytes → Control
  options : Error → Error → Control

-- `setReuseIPPort`
unfoldable pub set_reuse_ip_port : Control → Error
set_reuse_ip_port (uncontrolled e) = none
set_reuse_ip_port (options (some e) _) = some e
set_reuse_ip_port (options none e) = e

-- What a receive from a channel of errors finds.
pub data Received : Type 0 where
  nothing : Received
  value : Error → Received
  closed_channel : Received

-- `safeSetChanel`: whether it goes on to send; what it finds is dropped
unfoldable pub safe_set_chanel : Received → Bool
safe_set_chanel nothing = true
safe_set_chanel (value _) = true
safe_set_chanel closed_channel = false

abbrev logger : Logger
logger = record { fromip = codes "192.0.2.7:4000"; user = codes "joe"; id = 7 }

connection_closer_tests :
    (connection_closer (some logger) (some (codes "use of closed network connection")) ≡ [])
    × (connection_closer none (some (codes "broken pipe")) ≡ [])
    × (connection_closer (some logger) (some (codes "broken pipe"))
        ≡ entry err logger (codes "broken pipe") [] ∷ [])
unfolding connection_closer contains
connection_closer_tests = (refl, refl, refl)

set_reuse_ip_port_tests :
    (set_reuse_ip_port (options none (some (codes "denied"))) ≡ some (codes "denied"))
    × (set_reuse_ip_port (uncontrolled (codes "closed")) ≡ none)
unfolding set_reuse_ip_port
set_reuse_ip_port_tests = (refl, refl)
