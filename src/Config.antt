-- ===== src/Config.antt =====
-- pftp/config.go: the configuration, its defaults, its options and its validation.
pub mod Examples
pub mod Options
pub mod PortRange
pub mod Validate
use pftp.Base.{
  ℕ, Bool, true, false, not, ◌&&◌, ◌||◌, List, [], ◌∷◌, Option, none, some, ◌≡◌, refl, ltb, leb,
  ◌==◌, int_lt, if◌then◌else◌, length, Error,
}
use pftp.Net.{Ip, parse_ip}
use pftp.Text.Decimal.{atoi}
use pftp.Text.{Bytes, codes, same, split, trim_space, to_upper}

pub record TlsPair : Type 0 where
  pub cert : Bytes
  pub key : Bytes
  pub ca_cert : Bytes
  pub cipher_suite : Bytes
  pub min_protocol : Bytes
  pub max_protocol : Bytes

pub record Config : Type 0 where
  pub listen_addr : Bytes
  pub remote_addr : Bytes
  pub idle_timeout : ℕ
  pub proxy_timeout : ℕ
  pub transfer_timeout : ℕ
  pub max_connections : ℕ
  pub proxy_protocol : Bool
  pub welcome_msg : Bytes
  pub keepalive_time : ℕ
  pub data_chan_proxy : Bool
  pub data_port_range : Bytes
  pub masquerade_ip : Bytes
  pub transfer_mode : Bytes
  pub ignore_passive_ip : Bool
  pub tls : Option TlsPair

-- `config{}`
abbrev pub zero_config : Config
zero_config = record {
  listen_addr = [];
  remote_addr = [];
  idle_timeout = 0;
  proxy_timeout = 0;
  transfer_timeout = 0;
  max_connections = 0;
  proxy_protocol = false;
  welcome_msg = [];
  keepalive_time = 0;
  data_chan_proxy = false;
  data_port_range = [];
  masquerade_ip = [];
  transfer_mode = [];
  ignore_passive_ip = false;
  tls = none;
}

-- `tlsPair{}`
abbrev pub zero_tls_pair : TlsPair
zero_tls_pair = record {
  cert = [];
  key = [];
  ca_cert = [];
  cipher_suite = [];
  min_protocol = [];
  max_protocol = [];
}

-- `defaultConfig`
unfoldable pub default_config : Config → Config
default_config c = record c {
  listen_addr = codes "127.0.0.1:2121";
  idle_timeout = 900;
  proxy_timeout = 900;
  transfer_timeout = 900;
  keepalive_time = 900;
  proxy_protocol = false;
  data_chan_proxy = false;
  data_port_range = [];
  welcome_msg = codes "FTP proxy ready";
  transfer_mode = codes "CLIENT";
  ignore_passive_ip = false;
}

abbrev pub range_error : Error
range_error = some (codes "data port range config wrong. set default(random port)")

-- `min <= 0 || min > 65535 || max <= 0 || max > 65535 || min > max` on `int`s
abbrev pub bad_range : ℕ → ℕ → Bool
bad_range lo hi =
    not (int_lt 0 lo)
    || (int_lt 65535 lo || (not (int_lt 0 hi) || (int_lt 65535 hi || int_lt hi lo)))

pub range_parts : List Bytes → Error
range_parts (a ∷ (b ∷ [])) =
    let (lo, lo_ok) = atoi (trim_space a) in
    let (hi, hi_ok) = atoi (trim_space b) in
    if not lo_ok
    then range_error
    else if not hi_ok
    then range_error
    else if bad_range lo hi
    then range_error
    else none
range_parts _ = range_error

-- `dataPortRangeValidation`
unfoldable pub data_port_range_validation : Bytes → Error
unfolding range_parts split
data_port_range_validation [] = none
data_port_range_validation (c ∷ r) = range_parts (split b'-' (c ∷ r))

-- the switch over the mode in capitals; `none` is the default case, an error
pub canonical_mode : Bytes → Option Bytes
unfolding same
canonical_mode m =
    if same m (codes "PORT") || same m (codes "ACTIVE")
    then some (codes "PORT")
    else if same m (codes "PASV") || same m (codes "PASSIVE")
    then some (codes "PASV")
    else if same m (codes "EPSV")
    then some (codes "EPSV")
    else if same m (codes "CLIENT")
    then some m
    else none

-- `o(&cfg)` for each option
unfoldable pub apply_options {ℓ} : {A : Type ℓ} → List (A → A) → A → A
apply_options [] c = c
apply_options (o ∷ os) c = apply_options os (o c)

module _ (unicode_upper : Bytes → Bytes) where
  -- the steps of `validateConfig`, each on the config as the one before leaves it
  pub check_mode : Config → Config × Error
  check_mode c =
      let upper = to_upper unicode_upper c.transfer_mode in
      elim (canonical_mode upper) [
        | none ↦ (
          record c { transfer_mode = upper },
          some (codes "configuration error: Transfer mode config is wrong"),
        )
        | some m ↦ (record c { transfer_mode = m }, none)
      ]

  pub check_masquerade : Config → Config × Error
  unfolding check_mode
  check_masquerade c =
      let bad : Bool =
        ltb 0 (length c.masquerade_ip)
        && elim (parse_ip c.masquerade_ip) [ none ↦ true | some _ ↦ false ] in
      if bad then (c, some (codes "configuration error: Masquerade IP is wrong")) else check_mode c

  -- `validateConfig`: the config that it leaves, and the error
  unfoldable pub validate_config : Config → Config × Error
  unfolding check_masquerade
  validate_config c = elim (data_port_range_validation c.data_port_range) [
    | none ↦ check_masquerade c
    | some _ ↦ check_masquerade (record c { data_port_range = [] })
  ]

  unfoldable pub validated : Config × Error → Config × Error
  validated (c, none) = (c, none)
  validated (c, some e) = (zero_config, some e)

  -- `NewConfig`
  unfoldable pub new_config : List (Config → Config) → Config × Error
  unfolding validate_config default_config apply_options validated
  new_config opts = validated (validate_config (apply_options opts (default_config zero_config)))

  -- `loadConfig`; `decode` is the TOML decoder on the file, over the defaults
  unfoldable pub load_config : (Config → Config × Error) → Option Config × Error
  unfolding validate_config default_config
  load_config decode =
      let (c, failed) = decode (default_config zero_config) in
      let checked : Option Config × Error =
        let (v, wrong) = validate_config c in
        elim wrong [ none ↦ (some v, none) | some e ↦ (none, some e) ] in
      elim failed [ none ↦ checked | some e ↦ (none, some e) ]

-- `NewTLSConfig`
unfoldable pub new_tls_config : List (TlsPair → TlsPair) → TlsPair
unfolding apply_options
new_tls_config opts = apply_options opts zero_tls_pair

valid_modes :
    (canonical_mode (codes "PASSIVE") ≡ some (codes "PASV"))
    × (canonical_mode (codes "pasv") ≡ none)
unfolding canonical_mode
valid_modes = (refl, refl)

range_tests :
    (data_port_range_validation (codes "100 - 110") ≡ none)
    × (data_port_range_validation (codes "110-100") ≡ range_error)
    × (data_port_range_validation (codes "-1-5") ≡ range_error)
unfolding data_port_range_validation atoi trim_space
range_tests = (refl, refl, refl)
