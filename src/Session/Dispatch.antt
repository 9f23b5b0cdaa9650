-- ===== src/Session/Dispatch.antt =====
-- pftp/client_handler.go: a command of the client, its middleware and its handler (handleCommand and
-- the table that init fills).
pub mod Sound
pub mod Data
pub mod Vouched
pub mod Tls
pub mod Login
pub mod Passing
pub mod Commands
use pftp.Base.{
  Bool, true, false, List, [], ◌∷◌, Option, none, some, if◌then◌else◌, Error, Outcome, ret, panic,
}
use pftp.Command.{command_line_check}
use pftp.Proxy.{Proxy, suspend, unsuspend}
use pftp.Session.DataCommands.{handle_data}
use pftp.Session.Secure.{handle_auth, handle_pbsz, handle_prot}
use pftp.Session.User.{handle_user}
use pftp.Session.{
  Context, Session, Result, Handler, fails, parse_line, send_to_origin, or_fail, internal_error,
  handle_transfer, handle_proxy, response,
}
use pftp.Text.{Bytes, codes, same}
use pftp.World.{Env, World}

-- What the server was told to do before a command, by its name: it may change the context, and it may
-- fail or panic.
abbrev pub Middleware : Type 0
Middleware = Bytes → Option (Context → Bytes → Outcome Error × Context)

-- an entry of the table; the proxy is suspended while the handler runs, if so marked
abbrev pub Entry : Type 0
Entry = Handler × Bool

abbrev pub find_entry : Bytes → List (Bytes × Entry) → Option Entry
find_entry command [] = none
find_entry command ((name, e) ∷ rest) =
    if same name command then some e else find_entry command rest

-- the proxy of the session unsuspended, as the deferred call does
abbrev pub unsuspend_after : Outcome (Option Result) × Session → Outcome (Option Result) × Session
unsuspend_after (r, s) =
    (r, record s { proxy = elim (s.proxy) [ none ↦ none | some p ↦ some (unsuspend p) ] })

-- The recovered panic is assigned to another variable than the result, which stays nil.
abbrev pub recovered : Outcome (Option Result) × Session → Option Result × Session
recovered (ret r, s) = (r, s)
recovered (panic, s) = (none, s)

module _ (env : Env) where
  -- `handlers`
  unfoldable pub handlers : List (Bytes × Entry)
  handlers =
      (codes "PROXY", (handle_proxy env, false))
      ∷ (codes "USER", (handle_user env, true))
      ∷ (codes "AUTH", (handle_auth env, true))
      ∷ (codes "PBSZ", (handle_pbsz env, true))
      ∷ (codes "PROT", (handle_prot env, true))
      ∷ (codes "PORT", (handle_data env, false))
      ∷ (codes "EPRT", (handle_data env, false))
      ∷ (codes "PASV", (handle_data env, false))
      ∷ (codes "EPSV", (handle_data env, false))
      ∷ (codes "RETR", (handle_transfer env, false))
      ∷ (codes "STOR", (handle_transfer env, false))
      ∷ (codes "STOU", (handle_transfer env, false))
      ∷ (codes "APPE", (handle_transfer env, false))
      ∷ (codes "LIST", (handle_transfer env, false))
      ∷ (codes "MLSD", (handle_transfer env, false))
      ∷ (codes "NLST", (handle_transfer env, false))
      ∷ []

  -- `c.proxy.suspend()`, the handler, and the deferred `c.proxy.unsuspend()`
  unfoldable pub suspended : Handler → Handler
  suspended h s = elim (s.proxy) [
    | none ↦ (panic, s)
    | some p ↦ unsuspend_after (h (record s { proxy = some (suspend p) }))
  ]

  -- a command with no handler; without a proxy only a line with no letter is no panic
  unfoldable pub pass_line : Handler
  pass_line s =
      let sent = or_fail env 500 (internal_error env) (λ _. none) (send_to_origin env s.line s) in
      let unproxied : Outcome (Option Result) × Session = elim ((command_line_check s.line).1) [
        | none ↦ (panic, s)
        | some e ↦ fails 500 (internal_error env e) none s
      ] in
      elim (s.proxy) [ none ↦ unproxied | some _ ↦ sent ]

  abbrev pub run_entry : Option Entry → Handler
  run_entry none s = pass_line s
  run_entry (some (h, true)) s = suspended h s
  run_entry (some (h, false)) s = h s

  unfoldable pub dispatch : Handler
  dispatch s = run_entry (find_entry s.command handlers) s

  -- what a middleware left behind
  abbrev pub after_middleware :
      Session → Outcome Error × Context → Outcome (Option Result) × Session
  after_middleware s (panic, c) = (panic, record s { context = c })
  after_middleware s (ret (some e), c) =
      fails 500 (internal_error env e) none (record s { context = c })
  after_middleware s (ret none, c) = dispatch (record s { context = c })

  abbrev pub with_middleware :
      Session
      → Option (Context → Bytes → Outcome Error × Context)
      → Outcome (Option Result) × Session
  with_middleware s none = dispatch s
  with_middleware s (some f) = after_middleware s (f s.context s.param)

  unfoldable pub run_command : Middleware → Handler
  run_command m s = with_middleware s (m s.command)

  -- `handleCommand`
  unfoldable pub handle_command : Middleware → Bytes → Session → Option Result × Session
  handle_command m line s = recovered (run_command m (parse_line env.unicode_upper line s))
