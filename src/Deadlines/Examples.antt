-- ===== src/Deadlines/Examples.antt =====
-- Deadlines in sessions (pftp/client_handler.go, pftp/proxy.go, pftp/data_handler.go).
use pftp.Base.{ℕ, List, [], ◌∷◌, some, true, ◌≡◌, refl}
use pftp.Config.{Config, zero_config}
use pftp.Deadlines.{Moment, asks, gives, copies, ends, closes, apply, follow, on_connect}
use pftp.Deadlines.Copying.{copying, follow-copying}
use pftp.Deadlines.Expired.{follow-expired}
use pftp.Deadlines.LateStart.{IsArmed, follow-late_start}
use pftp.Text.{Bytes, codes, has_prefix}

abbrev config : Config
config = record zero_config { proxy_timeout = 900; data_chan_proxy = true }

abbrev amid : List (ℕ × Moment)
amid = (5, asks) ∷ (6, gives true (codes "211 status\r\n")) ∷ (7, asks) ∷ []

follow-copying_example : follow config amid copying ≡ copying
unfolding has_prefix
follow-copying_example = follow-copying config amid (refl, (refl, (refl, tt)))

abbrev behind : List (ℕ × Moment)
behind = (8, closes) ∷ (9, asks) ∷ (10, gives true (codes "226 done\r\n")) ∷ []

follow-expired_example : (follow config behind (apply config 7 ends copying)).client ≡ some 7
follow-expired_example = follow-expired config refl 7 behind copying (refl, (refl, (refl, tt)))

abbrev line_150 : Bytes
line_150 = codes "150 here it comes\r\n"

follow-late_start_example : IsArmed config 6 (
    follow config
      ((8, asks) ∷ [])
      (apply config 6 (gives true line_150) (apply config 5 copies (on_connect config 3))))
unfolding has_prefix
follow-late_start_example =
    follow-late_start config line_150 refl refl refl refl 5 6 ((8, asks) ∷ []) (on_connect config 3)
      (refl, tt) refl
