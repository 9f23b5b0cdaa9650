-- ===== src/Tls/Versions.antt =====
-- pftp/tls.go: the names and numbers of TLS versions, and the settings toward the origin.
use pftp.Base.{ℕ, ◌≡◌, ◌⊎◌, ◌≤◌, arith, refl, some, ret, [], ◌∷◌}
use pftp.Config.{Config}
use pftp.Tls.{
  get_tls_protocol, get_tls_protocol_name, TlsConfig, TlsData, set_specific_tls_version,
  set_server_name, set_cipher_suite, build_tls_config_for_origin, get_tls_config,
}
use pftp.Text.{Bytes}
use pftp.Base.{◌>>=◌}

known_versions :
    (protocol : Bytes)
    → (get_tls_protocol protocol ≡ 0x0301)
      ⊎ ((get_tls_protocol protocol ≡ 0x0302)
          ⊎ ((get_tls_protocol protocol ≡ 0x0303) ⊎ (get_tls_protocol protocol ≡ 0x0304)))
unfolding get_tls_protocol
known_versions protocol = ground arith

name_back :
    (get_tls_protocol (get_tls_protocol_name 0x0301) ≡ 0x0301)
    × (get_tls_protocol (get_tls_protocol_name 0x0302) ≡ 0x0302)
    × (get_tls_protocol (get_tls_protocol_name 0x0303) ≡ 0x0303)
    × (get_tls_protocol (get_tls_protocol_name 0x0304) ≡ 0x0304)
unfolding get_tls_protocol get_tls_protocol_name
name_back = (refl, refl, refl, refl)

-- Every version that getTLSProtocol returns is 0x0301 to 0x0304, and its name leads back to it.
pub get_tls_protocol-name :
    (protocol : Bytes)
    → (get_tls_protocol (get_tls_protocol_name (get_tls_protocol protocol))
        ≡ get_tls_protocol protocol)
      × (0x0301 ≤ get_tls_protocol protocol)
      × (get_tls_protocol protocol ≤ 0x0304)
get_tls_protocol-name protocol = ground (arith, known_versions protocol, name_back)

-- The three settings that AUTH copies from the client's session end up in the origin's TLS config,
-- for every configuration: no setter fails, and nothing else of the built config changes.
pub origin_settings :
    (c : Config) (name : Bytes) (version suite : ℕ)
    → (t : TlsData) × (s : TlsConfig) × ((set_server_name name
            (some (build_tls_config_for_origin c))
          >>= λ a. set_specific_tls_version version a >>= λ b. set_cipher_suite suite b)
        ≡ ret (some t))
      × (get_tls_config (some t) ≡ ret (some s))
      × (s.min_version ≡ version)
      × (s.max_version ≡ version)
      × (s.server_name ≡ name)
      × (s.cipher_suites ≡ suite ∷ [])
unfolding set_server_name set_specific_tls_version set_cipher_suite build_tls_config_for_origin
    get_tls_config
origin_settings c name version suite = (_, _, refl, refl, refl, refl, refl, refl)
