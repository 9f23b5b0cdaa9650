-- ===== src/Config/Examples.antt =====
-- Examples of configurations of pftp/config.go.
use pftp.Base.{[], none, ◌≡◌, ◌≢◌, refl, arith, ◌-◌}
use pftp.Config.{
  Config, zero_config, validate_config, data_port_range_validation, new_config, validated,
  new_tls_config, TlsPair, zero_tls_pair,
}
use pftp.Config.PortRange.{IsIntn, Chosen, get_listen_port-Chosen}
use pftp.Config.Validate.{Validated, validate_config-Validated}
use pftp.Net.{parse_ip}
use pftp.Text.{Bytes, codes, trim_space}
use pftp.Text.Decimal.{atoi}

-- ASCII text has no other capitals
abbrev same_text : Bytes → Bytes
same_text s = s

abbrev passive : Config
passive = record zero_config {
  transfer_mode = codes "passive";
  data_port_range = codes "110-100";
  masquerade_ip = codes "10.2.3.4";
}

abbrev passive_checked : Config
passive_checked = record zero_config {
  transfer_mode = codes "PASV";
  data_port_range = [];
  masquerade_ip = codes "10.2.3.4";
}

passive_validates : validate_config same_text passive ≡ (passive_checked, none)
unfolding validate_config parse_ip atoi trim_space data_port_range_validation
    pftp.Config.canonical_mode pftp.Text.to_upper
passive_validates = refl

validate_config-Validated_example : Validated same_text passive passive_checked
validate_config-Validated_example = validate_config-Validated same_text passive passive_validates

abbrev ports : Bytes
ports = codes "100 - 110"

ports_valid : data_port_range_validation ports ≡ none
unfolding data_port_range_validation atoi trim_space
ports_valid = refl

nonempty : ports ≢ []
nonempty = ground arith

last_below : IsIntn (λ n. n - 1)
last_below n h = omega arith

get_listen_port-Chosen_example : Chosen (λ n. n - 1) ports
get_listen_port-Chosen_example =
    get_listen_port-Chosen (λ n. n - 1) ports nonempty last_below ports_valid
