-- ===== src/Session/Reading.antt =====
-- pftp/client_handler.go: the loop that reads the commands of a client (readClientCommands), and what
-- is sent and closed where a loop of the session ends (also the deferred part of
-- getResponseFromOrigin).
use pftp.Base.{List, [], ◌∷◌, ◌++◌, Option, none, some, if◌then◌else◌, Error}
use pftp.Data.Copy.{send_eof}
use pftp.Proxy.{Proxy}
use pftp.Session.Dispatch.{Middleware, handle_command}
use pftp.Session.Start.{close_client, close_session_proxy}
use pftp.Session.{Session, Result, response}
use pftp.Text.{Bytes, codes, same}
use pftp.World.{end_sent, Conn, Env, tick}

-- What reading a line gives: the line, the end of file, a timeout, or another error.
pub data Reading : Type 0 where
  got_line : Bytes → Reading
  end_of_file : Reading
  timed_out : Bytes → Reading
  unreadable : Bytes → Reading

-- How the loop leaves off: it waits for the next line, or it has ended, with an error or none.
pub data Left : Type 0 where
  waits : Left
  ended : Error → Left

module _ (env : Env) where
  -- `sendEOF` on a connection
  abbrev pub send_end : Conn → Session → Error × Session
  send_end c s =
      (send_eof (env.close_write s.world.clock), record s { world = tick (end_sent c.id) s.world })

  abbrev pub or_close_client : Error × Session → Session
  or_close_client (none, s) = s
  or_close_client (some _, s) = close_client env s

  abbrev pub or_close_proxy : Error × Session → Session
  or_close_proxy (none, s) = s
  or_close_proxy (some _, s) = close_session_proxy env s.proxy s

  -- the end of file for the origin, if there is a connection
  abbrev pub end_origin : Option Conn → Session → Session
  end_origin none s = s
  end_origin (some c) s = or_close_proxy (send_end c s)

  -- the deferred part of `readClientCommands`, on a session with a proxy
  unfoldable pub stop_reading : Proxy → Session → Session
  stop_reading p s = close_client env (end_origin p.origin s)

  -- the deferred part of `getResponseFromOrigin`
  unfoldable pub stop_relaying : Session → Session
  stop_relaying s =
      let s' = or_close_client (send_end s.conn s) in close_session_proxy env s'.proxy s'

  -- the response to a command, where there is one
  abbrev pub answer : Option Result × Session → Error × Session
  answer (none, s) = (none, s)
  answer (some r, s) = response env r s

  -- the response to a client that was silent for too long
  unfoldable pub tell_timeout : Bytes → Session → Error × Session
  tell_timeout e = response env (record {
    code = 421;
    msg = codes "command timeout : closing control connection";
    err = some e;
  })

  abbrev pub after_answer : (Session → Left × Session) → Error × Session → Left × Session
  after_answer next (none, s) = next s
  after_answer next (some e, s) = (ended (some e), s)

  -- behind a timeout the client gets the end of file, and the loop reads on
  abbrev pub after_timeout : (Session → Left × Session) → Error × Session → Left × Session
  after_timeout next (none, s) = next (or_close_client (send_end s.conn s))
  after_timeout next (some e, s) = (ended (some (codes "response to client error: " ++ e)), s)

  -- an error behind QUIT is none
  abbrev pub unless_quit : Error → Session → Left × Session
  unless_quit e s = if same s.command (codes "QUIT") then (ended none, s) else (ended e, s)

  -- the loop of `readClientCommands`, on what is read
  unfoldable pub read_client_commands : Middleware → List Reading → Session → Left × Session
  read_client_commands m [] s = (waits, s)
  read_client_commands m (got_line line ∷ rs) s =
      after_answer (read_client_commands m rs) (answer (handle_command env m line s))
  read_client_commands m (end_of_file ∷ rs) s = (ended none, s)
  read_client_commands m (timed_out e ∷ rs) s =
      let told = after_timeout (read_client_commands m rs) (tell_timeout e s) in
      if same s.command (codes "QUIT") then (ended none, s) else told
  read_client_commands m (unreadable e ∷ rs) s = unless_quit (some e) s

  -- the deferred part, where the loop has ended; the loop runs beside a proxy
  abbrev pub deferred_reading : Left × Session → Left × Session
  deferred_reading (waits, s) = (waits, s)
  deferred_reading (ended e, s) = (ended e, elim (s.proxy) [ none ↦ s | some p ↦ stop_reading p s ])

  -- the loop with its deferred part
  unfoldable pub command_loop : Middleware → List Reading → Session → Left × Session
  command_loop m rs s = deferred_reading (read_client_commands m rs s)
