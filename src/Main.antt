-- ===== src/Main.antt =====
-- main.go and example/webapi/webapi.go: the middleware that asks a web API for the origin of a user.
pub mod Unknown
pub mod Examples
use pftp.Base.{ℕ, Bool, Option, none, some, ◌==◌, if◌then◌else◌, Error, Outcome, ret, panic, ◌>>=◌}
use pftp.Server.{MiddlewareFunc, Server, use_middleware}
use pftp.Session.{Context}
use pftp.Text.{Bytes, codes}

-- `Response`
pub record Response : Type 0 where
  pub code : ℕ
  pub message : Bytes
  pub data_url : Bytes

-- A value, or the message of an error.
pub data Found : Type 0 where
  found : Response → Found
  not_found : Bytes → Found

pub data Domain : Type 0 where
  domain : Bytes → Domain
  no_domain : Bytes → Domain

-- What `http.Get` and reading the body give.
pub data Answer : Type 0 where
  body : Bytes → Answer
  no_answer : Bytes → Answer

-- The web, the TOML file and the JSON decoder. `decode` gives the response behind an `Unmarshal`, whose
-- error is dropped, and `none` where the text sets the pointer to nil.
pub record Web : Type 0 where
  pub load_uri : Bytes → Bytes × Error
  pub sprintf : Bytes → Bytes → Bytes
  pub get : Bytes → Answer
  pub decode : Bytes → Option Response

-- a code that is not 200 is an error, with the message of the response
abbrev pub checked_response : Option Response → Outcome Found
checked_response none = panic
checked_response (some r) = ret (if r.code == 200 then found r else not_found r.message)

module _ (web : Web) where
  abbrev pub read_response : Answer → Outcome Found
  read_response (no_answer e) = ret (not_found e)
  read_response (body text) = checked_response (web.decode text)

  -- `RequestToServer`
  unfoldable pub request_to_server : Bytes → Bytes → Outcome Found
  request_to_server request_uri param = read_response (web.get (web.sprintf request_uri param))

  abbrev pub domain_of : Found → Domain
  domain_of (found r) = domain r.data_url
  domain_of (not_found e) = no_domain e

  abbrev pub ask : Bytes → Bytes × Error → Outcome Domain
  ask param (uri, some e) = ret (no_domain e)
  ask param (uri, none) = request_to_server uri param >>= λ r. ret (domain_of r)

  -- `GetDomainFromWebAPI`
  unfoldable pub get_domain_from_web_api : Bytes → Bytes → Outcome Domain
  get_domain_from_web_api path param = ask param (web.load_uri path)

  abbrev pub set_origin : Context → Outcome Domain → Outcome Error × Context
  set_origin c (ret (domain d)) = (ret none, record c { remote_addr = d })
  set_origin c (ret (no_domain e)) = (ret none, record c { remote_addr = codes "" })
  set_origin c panic = (panic, c)

  -- `User`
  unfoldable pub user : Bytes → MiddlewareFunc
  user conf_file c param = set_origin c (get_domain_from_web_api conf_file param)

  -- `main`, up to `Start`
  unfoldable pub with_user : (Bytes → Bytes) → Bytes → Server → Server
  with_user unicode_upper conf_file server =
      use_middleware unicode_upper (codes "user") (user conf_file) server
