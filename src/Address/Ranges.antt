-- ===== src/Address/Ranges.antt =====
-- pftp/data_handler.go: isPublicIP and the ranges of 32-bit addresses.
use pftp.Base.{ℕ, ◌+◌, ◌*◌, ◌≤◌, ◌<◌, false, [], ◌∷◌, ◌≡◌, ◌↔◌, ◌⊎◌, arith, some}
use pftp.Net.{Ip}
use pftp.Address.{is_public_ip}

-- the IPv4 address a.b.c.d, and the number that it is
abbrev pub v4 : ℕ → ℕ → ℕ → ℕ → Ip
v4 a b c d = 0 ∷ 0 ∷ 0 ∷ 0 ∷ 0 ∷ 0 ∷ 0 ∷ 0 ∷ 0 ∷ 0 ∷ 255 ∷ 255 ∷ a ∷ b ∷ c ∷ d ∷ []

abbrev pub number : ℕ → ℕ → ℕ → ℕ → ℕ
number a b c d = ((a * 256 + b) * 256 + c) * 256 + d

-- 10.0.0.0/8, 172.16.0.0/12, 192.168.0.0/16, 127.0.0.0/8, 169.254.0.0/16, 224.0.0.0/24
abbrev pub Blocked : ℕ → Type 0
Blocked n =
    ((0x0a000000 ≤ n) × (n < 0x0b000000))
    ⊎ (((0xac100000 ≤ n) × (n < 0xac200000))
        ⊎ (((0xc0a80000 ≤ n) × (n < 0xc0a90000))
            ⊎ (((0x7f000000 ≤ n) × (n < 0x80000000))
                ⊎ (((0xa9fe0000 ≤ n) × (n < 0xa9ff0000)) ⊎ ((0xe0000000 ≤ n) × (n < 0xe0000100))))))

module _ (a b c d : ℕ) (ha : a < 256) (hb : b < 256) (hc : c < 256) (hd : d < 256) where
  blocked : is_public_ip (some (v4 a b c d)) ≡ false → Blocked (number a b c d)
  unfolding is_public_ip
  blocked h = ground arith

  unblocked : Blocked (number a b c d) → is_public_ip (some (v4 a b c d)) ≡ false
  unfolding is_public_ip
  unblocked h = ground arith

  -- An IPv4 address a.b.c.d of four bytes is refused as not public exactly when its number lies in
  -- 10.0.0.0/8, 172.16.0.0/12, 192.168.0.0/16, 127.0.0.0/8, 169.254.0.0/16 or 224.0.0.0/24.
  pub is_public_ip-Blocked : (is_public_ip (some (v4 a b c d)) ≡ false) ↔ Blocked (number a b c d)
  is_public_ip-Blocked = (blocked, unblocked)
