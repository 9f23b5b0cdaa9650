-- ===== src/Config/Options.antt =====
-- pftp/config.go: the functional options of NewConfig and NewTLSConfig.
use pftp.Base.{ℕ, Bool, [], ◌∷◌, Option, ◌≡◌, refl}
use pftp.Config.{Config, TlsPair, validate_config, validated, new_config, new_tls_config}
use pftp.Text.{Bytes}

pub with_listen_addr : Bytes → Config → Config
with_listen_addr addr c = record c { listen_addr = addr }

pub with_remote_addr : Bytes → Config → Config
with_remote_addr addr c = record c { remote_addr = addr }

pub with_idle_timeout : ℕ → Config → Config
with_idle_timeout timeout c = record c { idle_timeout = timeout }

pub with_proxy_timeout : ℕ → Config → Config
with_proxy_timeout timeout c = record c { proxy_timeout = timeout }

pub with_transfer_timeout : ℕ → Config → Config
with_transfer_timeout timeout c = record c { transfer_timeout = timeout }

pub with_max_connections : ℕ → Config → Config
with_max_connections max_conn c = record c { max_connections = max_conn }

pub with_proxy_protocol : Bool → Config → Config
with_proxy_protocol on c = record c { proxy_protocol = on }

pub with_welcome_message : Bytes → Config → Config
with_welcome_message msg c = record c { welcome_msg = msg }

pub with_keepalive_time : ℕ → Config → Config
with_keepalive_time keepalive c = record c { keepalive_time = keepalive }

pub with_data_chan_proxy : Bool → Config → Config
with_data_chan_proxy on c = record c { data_chan_proxy = on }

pub with_data_port_range : Bytes → Config → Config
with_data_port_range range c = record c { data_port_range = range }

pub with_masquerade_ip : Bytes → Config → Config
with_masquerade_ip ip c = record c { masquerade_ip = ip }

pub with_transfer_mode : Bytes → Config → Config
with_transfer_mode mode c = record c { transfer_mode = mode }

pub with_ignore_passive_ip : Bool → Config → Config
with_ignore_passive_ip ignore c = record c { ignore_passive_ip = ignore }

pub with_tls_config : Option TlsPair → Config → Config
with_tls_config pair c = record c { tls = pair }

pub with_certificate : Bytes → TlsPair → TlsPair
with_certificate value t = record t { cert = value }

pub with_key : Bytes → TlsPair → TlsPair
with_key value t = record t { key = value }

pub with_ca_cert : Bytes → TlsPair → TlsPair
with_ca_cert value t = record t { ca_cert = value }

pub with_cipher_suite : Bytes → TlsPair → TlsPair
with_cipher_suite value t = record t { cipher_suite = value }

pub with_min_protocol : Bytes → TlsPair → TlsPair
with_min_protocol value t = record t { min_protocol = value }

pub with_max_protocol : Bytes → TlsPair → TlsPair
with_max_protocol value t = record t { max_protocol = value }

-- One option for every field: the result is that config validated, whatever the defaults are.
pub new_config-all_options :
    (unicode_upper : Bytes → Bytes) (c : Config)
    → new_config unicode_upper (
        with_listen_addr c.listen_addr
        ∷ with_remote_addr c.remote_addr
        ∷ with_idle_timeout c.idle_timeout
        ∷ with_proxy_timeout c.proxy_timeout
        ∷ with_transfer_timeout c.transfer_timeout
        ∷ with_max_connections c.max_connections
        ∷ with_proxy_protocol c.proxy_protocol
        ∷ with_welcome_message c.welcome_msg
        ∷ with_keepalive_time c.keepalive_time
        ∷ with_data_chan_proxy c.data_chan_proxy
        ∷ with_data_port_range c.data_port_range
        ∷ with_masquerade_ip c.masquerade_ip
        ∷ with_transfer_mode c.transfer_mode
        ∷ with_ignore_passive_ip c.ignore_passive_ip
        ∷ with_tls_config c.tls
        ∷ [])
      ≡ validated unicode_upper (validate_config unicode_upper c)
unfolding new_config with_listen_addr with_remote_addr with_idle_timeout with_proxy_timeout
    with_transfer_timeout with_max_connections with_proxy_protocol with_welcome_message
    with_keepalive_time with_data_chan_proxy with_data_port_range with_masquerade_ip
    with_transfer_mode with_ignore_passive_ip with_tls_config
new_config-all_options unicode_upper c = refl

-- One TLS option for every field gives exactly that TLS setting.
pub new_tls_config-all_options :
    (t : TlsPair)
    → new_tls_config (
        with_certificate t.cert
        ∷ with_key t.key
        ∷ with_ca_cert t.ca_cert
        ∷ with_cipher_suite t.cipher_suite
        ∷ with_min_protocol t.min_protocol
        ∷ with_max_protocol t.max_protocol
        ∷ [])
      ≡ t
unfolding new_tls_config with_certificate with_key with_ca_cert with_cipher_suite with_min_protocol
    with_max_protocol
new_tls_config-all_options t = refl
