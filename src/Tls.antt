-- ===== src/Tls.antt =====
-- pftp/tls.go: protocol versions, cipher suites and the TLS settings toward client and origin.
-- Files, certificates and the suites that crypto/tls knows are parameters.
pub mod Ciphers
pub mod Versions
use pftp.Base.{
  ℕ, Bool, true, false, not, ◌||◌, List, [], ◌∷◌, ◌++◌, Option, none, some, ◌==◌, ltb,
  if◌then◌else◌, length, Error, Outcome, ret, panic,
}
use pftp.Config.{Config, TlsPair}
use pftp.Text.{Bytes, codes, same, split, trim_space}

-- crypto/tls names the versions 0x0301 to 0x0304.
unfoldable pub get_tls_protocol : Bytes → ℕ
unfolding same
get_tls_protocol protocol =
    if same protocol (codes "TLSv1")
    then 0x0301
    else if same protocol (codes "TLSv1.1")
    then 0x0302
    else if same protocol (codes "TLSv1.2")
    then 0x0303
    else if same protocol (codes "TLSv1.3")
    then 0x0304
    else 0x0303

unfoldable pub get_tls_protocol_name : ℕ → Bytes
get_tls_protocol_name version =
    if version == 0x0301
    then codes "TLSv1"
    else if version == 0x0302
    then codes "TLSv1.1"
    else if version == 0x0303
    then codes "TLSv1.2"
    else if version == 0x0304
    then codes "TLSv1.3"
    else codes "unsupported TLS version"

-- the keys of the map `exist`
pub is_known : Bytes → List Bytes → Bool
unfolding same
is_known p [] = false
is_known p (q ∷ qs) = same q p || is_known p qs

-- the loop of `removeDuplicates`, over `exist` and `result`
pub dedup : List Bytes → List Bytes → List Bytes → List Bytes
unfolding is_known
dedup [] exist result = result
dedup (p ∷ ps) exist result =
    dedup ps (p ∷ exist) (if is_known p exist then result else result ++ p ∷ [])

-- `removeDuplicates`
unfoldable pub remove_duplicates : List Bytes → List Bytes
unfolding dedup
remove_duplicates params = dedup params [] []

-- the inner loop of `getCiphers`, over the suites that crypto/tls knows
pub suites_named : Bytes → List (Bytes × ℕ) → List ℕ
unfolding same
suites_named name [] = []
suites_named name ((n, id) ∷ known) =
    (if same n name then id ∷ [] else []) ++ suites_named name known

pub collect_suites : List (Bytes × ℕ) → List Bytes → List ℕ
unfolding suites_named trim_space
collect_suites known [] = []
collect_suites known (name ∷ names) =
    suites_named (trim_space name) known ++ collect_suites known names

-- `getCiphers`
unfoldable pub get_ciphers : List (Bytes × ℕ) → Bytes → List ℕ
unfolding collect_suites remove_duplicates split
get_ciphers known ciphers = collect_suites known (remove_duplicates (split b':' ciphers))

-- The fields of `tls.Config` that the program sets. `certificate` and `root_ca` are file contents.
pub record TlsConfig : Type 0 where
  pub min_version : ℕ
  pub max_version : ℕ
  pub cipher_suites : List ℕ
  pub server_name : Bytes
  pub insecure_skip_verify : Bool
  pub certificate : Option Bytes

pub record TlsData : Type 0 where
  pub root_ca : Option Bytes
  pub cert : Option Bytes
  pub config : Option TlsConfig

-- a nil pointer for a side that has no TLS data
pub record TlsDataSet : Type 0 where
  pub for_client : Option TlsData
  pub for_origin : Option TlsData
  pub version : ℕ
  pub cipher_suite : ℕ
  pub server_name : Bytes

-- `getTLSConfig`: locking the mutex of a nil pointer panics.
unfoldable pub get_tls_config : Option TlsData → Outcome (Option TlsConfig)
get_tls_config none = panic
get_tls_config (some t) = ret t.config

-- a setter of a field of `t.config`, which panics on a nil pointer
pub on_config : (TlsConfig → TlsConfig) → Option TlsData → Outcome (Option TlsData)
on_config f none = panic
on_config f (some t) = elim (t.config) [
  | none ↦ panic
  | some c ↦ ret (some (record t { config = some (f c) }))
]

unfoldable pub set_specific_tls_version : ℕ → Option TlsData → Outcome (Option TlsData)
unfolding on_config
set_specific_tls_version v = on_config (λ c. record c { min_version = v; max_version = v })

unfoldable pub set_server_name : Bytes → Option TlsData → Outcome (Option TlsData)
unfolding on_config
set_server_name name = on_config (λ c. record c { server_name = name })

unfoldable pub set_cipher_suite : ℕ → Option TlsData → Outcome (Option TlsData)
unfolding on_config
set_cipher_suite id = on_config (λ c. record c { cipher_suites = id ∷ [] })

-- `buildTLSConfigForOrigin`
unfoldable pub build_tls_config_for_origin : Config → TlsData
build_tls_config_for_origin c = record {
  root_ca = none;
  cert = none;
  config = some (record {
    min_version = elim (c.tls) [ none ↦ 0 | some t ↦ get_tls_protocol t.min_protocol ];
    max_version = elim (c.tls) [ none ↦ 0 | some t ↦ get_tls_protocol t.max_protocol ];
    cipher_suites = [];
    server_name = [];
    insecure_skip_verify = true;
    certificate = none;
  });
}

-- What building the client side reads: a file, a pool of certificates, a certificate with its key.
pub record Files : Type 0 where
  pub read_file : Bytes → Option Bytes
  pub is_pool : Bytes → Bool
  pub load_pair : Bytes → Bytes → Option Bytes
  pub known_suites : List (Bytes × ℕ)

-- `buildTLSConfigForClient`; `none` is an error
unfoldable pub build_tls_config_for_client : Files → TlsPair → Option TlsData
build_tls_config_for_client fs t =
    let ca_file = if length t.ca_cert == 0 then t.cert else t.ca_cert in
    elim (fs.read_file ca_file) [
      | none ↦ none
      | some pem ↦
          let loaded : Option TlsData = elim (fs.load_pair t.cert t.key) [
            | none ↦ none
            | some cert ↦ some (record {
              root_ca = some pem;
              cert = some cert;
              config = some (record {
                min_version = get_tls_protocol t.min_protocol;
                max_version = get_tls_protocol t.max_protocol;
                cipher_suites = get_ciphers fs.known_suites t.cipher_suite;
                server_name = [];
                insecure_skip_verify = false;
                certificate = some cert;
              });
            })
          ] in
          if fs.is_pool pem then loaded else none
    ]

-- `verifyTLSConnection`: the first peer certificate is verified against the root, with the others
-- as intermediates; a connection with no certificate passes.
unfoldable pub verify_tls_connection :
    (Bytes → Option Bytes → Bytes → List Bytes → Error) → TlsData → Bytes → List Bytes → Error
verify_tls_connection verify t server_name [] = none
verify_tls_connection verify t server_name (leaf ∷ others) =
    elim (verify leaf t.root_ca server_name others) [
      | none ↦ none
      | some e ↦ some (codes "variation error: " ++ e)
    ]
