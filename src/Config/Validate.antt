-- ===== src/Config/Validate.antt =====
-- pftp/config.go: the result of validateConfig.
use pftp.Base.{
  false, [], ◌∷◌, none, some, ◌≡◌, ◌≢◌, ◌⊎◌, inl, inr, refl, arith, sym, ◌∙◌, ltb, length,
  Option-cases,
}
use pftp.Config.{
  Config, canonical_mode, check_mode, check_masquerade, validate_config, data_port_range_validation,
}
use pftp.Net.{parse_ip}
use pftp.Text.Equal.{same_iff}
use pftp.Text.{Bytes, codes, to_upper}

-- The modes that the rest of the program knows.
abbrev pub IsMode : Bytes → Type 0
IsMode m = (m ≡ codes "PORT") ⊎ ((m ≡ codes "PASV") ⊎ ((m ≡ codes "EPSV") ⊎ (m ≡ codes "CLIENT")))

canonical_mode-IsMode : (m : Bytes) {m' : Bytes} → canonical_mode m ≡ some m' → IsMode m'
unfolding canonical_mode
canonical_mode-IsMode m {m'} h = ground (arith, same_iff m (codes "CLIENT"))

data_port_range_validation_nil : data_port_range_validation [] ≡ none
unfolding data_port_range_validation
data_port_range_validation_nil = refl

length_zero : (s : Bytes) → ltb 0 (length s) ≡ false → s ≡ []
length_zero [] h = refl
length_zero (c ∷ s) h = ground arith

mode_upper : (up : Bytes → Bytes) (m : Bytes) → IsMode m → to_upper up m ≡ m
mode_upper up m (inl e) = rw e (unfold to_upper in refl)
mode_upper up m (inr (inl e)) = rw e (unfold to_upper in refl)
mode_upper up m (inr (inr (inl e))) = rw e (unfold to_upper in refl)
mode_upper up m (inr (inr (inr e))) = rw e (unfold to_upper in refl)

mode_canonical : (m : Bytes) → IsMode m → canonical_mode m ≡ some m
unfolding canonical_mode
mode_canonical m (inl e) = rw e
mode_canonical m (inr (inl e)) = rw e
mode_canonical m (inr (inr (inl e))) = rw e
mode_canonical m (inr (inr (inr e))) = rw e

module _ (up : Bytes → Bytes) where
  -- `after` is `before` with the mode and the port range replaced by valid ones.
  pub record Validated (before after : Config) : Type 0 where
    pub mode : Bytes
    pub range : Bytes
    pub after_is : after ≡ record before { transfer_mode = mode; data_port_range = range }
    pub mode_is : IsMode mode
    pub mode_from : canonical_mode (to_upper up before.transfer_mode) ≡ some mode
    pub range_valid : data_port_range_validation range ≡ none
    pub range_from :
        (range ≡ before.data_port_range)
        ⊎ ((data_port_range_validation before.data_port_range ≢ none) × (range ≡ []))
    pub masquerade : (before.masquerade_ip ≡ []) ⊎ (parse_ip before.masquerade_ip ≢ none)

  check_mode-ok :
      (c : Config) {c' : Config}
      → check_mode up c ≡ (c', none)
      → (m : Bytes) × (canonical_mode (to_upper up c.transfer_mode) ≡ some m)
        × (c' ≡ record c { transfer_mode = m })
  unfolding check_mode
  check_mode-ok c {c'} h = elim (Option-cases (canonical_mode (to_upper up c.transfer_mode))) [
    | inl unknown ↦ absurd (ground arith)
    | inr (m, known) ↦ (m, known, ground arith)
  ]

  check_masquerade-ok :
      (c : Config) {c' : Config}
      → check_masquerade up c ≡ (c', none)
      → (check_mode up c ≡ (c', none))
        × ((c.masquerade_ip ≡ []) ⊎ (parse_ip c.masquerade_ip ≢ none))
  unfolding check_masquerade
  check_masquerade-ok c {c'} h = ground (arith, length_zero c.masquerade_ip)

  range_kept :
      (c : Config)
      → data_port_range_validation c.data_port_range ≡ none
      → validate_config up c ≡ check_masquerade up c
  unfolding validate_config
  range_kept c e = rw (e, validate_config)

  range_dropped :
      (c : Config) {e : Bytes}
      → data_port_range_validation c.data_port_range ≡ some e
      → validate_config up c ≡ check_masquerade up (record c { data_port_range = [] })
  unfolding validate_config
  range_dropped c e = rw (e, validate_config)

  masquerade_skipped :
      (c : Config)
      → (c.masquerade_ip ≡ []) ⊎ (parse_ip c.masquerade_ip ≢ none)
      → check_masquerade up c ≡ check_mode up c
  unfolding check_masquerade
  masquerade_skipped c (inl empty) = rw empty
  masquerade_skipped c (inr valid) = ground arith

  mode_kept : (c : Config) → IsMode c.transfer_mode → check_mode up c ≡ (c, none)
  mode_kept c m =
      let e = mode_upper up c.transfer_mode m in
      let k = mode_canonical c.transfer_mode m in unfold check_mode in rw (e, k, check_mode)

  finish :
      (c : Config) (r : Bytes) {c' : Config}
      → data_port_range_validation r ≡ none
      → (r ≡ c.data_port_range) ⊎ ((data_port_range_validation c.data_port_range ≢ none) × (r ≡ []))
      → check_masquerade up (record c { data_port_range = r }) ≡ (c', none)
      → Validated c c'
  finish c r valid from h =
      let (moded, masq) = check_masquerade-ok (record c { data_port_range = r }) h in
      let (m, known, is) = check_mode-ok (record c { data_port_range = r }) moded in
      record {
        mode = m;
        range = r;
        after_is = is;
        mode_is = canonical_mode-IsMode (to_upper up c.transfer_mode) known;
        mode_from = known;
        range_valid = valid;
        range_from = from;
        masquerade = masq;
      }

  -- When validateConfig returns no error, the config that it leaves is the given one with at most
  -- two fields changed. The transfer mode is PORT, PASV, EPSV or CLIENT, the canonical name of the
  -- given one in capitals. The port range is valid: the given one, or empty if that is not. The
  -- masquerade IP is empty or one that ParseIP accepts.
  pub validate_config-Validated :
      (c : Config) {c' : Config} → validate_config up c ≡ (c', none) → Validated c c'
  validate_config-Validated c h =
      elim (Option-cases (data_port_range_validation c.data_port_range)) [
        | inl valid ↦ finish c c.data_port_range valid (inl refl) (sym (range_kept c valid) ∙ h)
        | inr (e, bad) ↦
            finish c [] data_port_range_validation_nil (inr ((λ x. cc), refl))
              (sym (range_dropped c bad) ∙ h)
      ]

  -- A validated config passes a second validation unchanged.
  pub validate_config-fixed :
      (c : Config) {c' : Config}
      → validate_config up c ≡ (c', none)
      → validate_config up c' ≡ (c', none)
  validate_config-fixed c {c'} h =
      let w = validate_config-Validated c h in
      let d = record c { transfer_mode = w.mode; data_port_range = w.range } in
      rw w.after_is
        (range_kept d w.range_valid ∙ masquerade_skipped d w.masquerade ∙ mode_kept d w.mode_is)
