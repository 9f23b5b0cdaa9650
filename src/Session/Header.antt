-- ===== src/Session/Header.antt =====
-- pftp/handle_commands.go: the PROXY header that a load balancer sends (handlePROXY).
use pftp.Base.{
  ℕ, false, [], ◌∷◌, ◌++◌, none, some, ◌≡◌, ◌≢◌, refl, ◌∙◌, ap, arith, All, ret, inl, inr,
  Option-cases,
}
use pftp.Command.{crlf}
use pftp.Net.{parse_ip}
use pftp.Session.{Session, handle_proxy}
use pftp.Text.Split.{Lacks, split_max-append, split_max-zero}
use pftp.Text.{Bytes, split_max, trim, trim_left, trim_right, is_crlf}
use pftp.World.{Env}

-- a line without CR and LF
abbrev pub IsBare : Bytes → Type 0
IsBare = All (λ c. is_crlf c ≡ false)

trim_right-bare : (s : Bytes) → IsBare s → trim_right is_crlf (s ++ crlf) ≡ s
unfolding trim_right
trim_right-bare [] h = refl
trim_right-bare (c ∷ []) h = ground arith
trim_right-bare (c ∷ (d ∷ s)) h = rw (trim_right-bare (d ∷ s) h.1) refl

trim_left_stay : (c : ℕ) (s : Bytes) → is_crlf c ≡ false → trim_left is_crlf (c ∷ s) ≡ c ∷ s
unfolding trim_left
trim_left_stay c s h = ground arith

trim-bare : (s : Bytes) → IsBare s → trim is_crlf (s ++ crlf) ≡ s
unfolding trim
trim-bare [] h = refl
trim-bare (c ∷ s) h =
    ap (trim_right is_crlf) (trim_left_stay c (s ++ crlf) h.0) ∙ trim_right-bare (c ∷ s) h

module _ (a b source destination port rest : Bytes) where
  -- the six fields between spaces
  abbrev pub header : Bytes
  header =
      a
      ++ (b' '
          ∷ (b ++ (b' ' ∷ (source ++ (b' ' ∷ (destination ++ (b' ' ∷ (port ++ (b' ' ∷ rest)))))))))

  split_max-header :
      Lacks b' ' a
      → Lacks b' ' b
      → Lacks b' ' source
      → Lacks b' ' destination
      → Lacks b' ' port
      → split_max b' ' 5 header ≡ a ∷ b ∷ source ∷ destination ∷ port ∷ rest ∷ []
  split_max-header ha hb hs hd hp =
      split_max-append b' ' 4 a _ ha
      ∙ ap (λ x. a ∷ x)
          (split_max-append b' ' 3 b _ hb
            ∙ ap (λ x. b ∷ x)
                (split_max-append b' ' 2 source _ hs
                  ∙ ap (λ x. source ∷ x)
                      (split_max-append b' ' 1 destination _ hd
                        ∙ ap (λ x. destination ∷ x)
                            (split_max-append b' ' 0 port _ hp
                              ∙ ap (λ x. port ∷ x) (split_max-zero b' ' rest)))))

-- what handlePROXY does where the line has six fields and both addresses parse
proxy_step :
    (env : Env) (s : Session) {a b source destination port rest : Bytes} {x y : _}
    → split_max b' ' 5 (trim is_crlf s.line) ≡ a ∷ b ∷ source ∷ destination ∷ port ∷ rest ∷ []
    → parse_ip source ≡ some x
    → parse_ip destination ≡ some y
    → handle_proxy env s ≡ (ret none, record s { src_ip = source ++ (b':' ∷ port) })
unfolding handle_proxy
proxy_step env s h hx hy = ground arith

-- A PROXY header of six fields between single spaces, of which no other than the last holds a space,
-- with no CR or LF but the CRLF at its end, and with a source and a destination that ParseIP accepts,
-- is taken: the client's address becomes the source and its port, and nothing else changes.
pub handle_proxy-header :
    (env : Env) (s : Session) (a b source destination port rest : Bytes)
    → Lacks b' ' a
    → Lacks b' ' b
    → Lacks b' ' source
    → Lacks b' ' destination
    → Lacks b' ' port
    → IsBare (header a b source destination port rest)
    → parse_ip source ≢ none
    → parse_ip destination ≢ none
    → s.line ≡ header a b source destination port rest ++ crlf
    → handle_proxy env s ≡ (ret none, record s { src_ip = source ++ (b':' ∷ port) })
handle_proxy-header env s a b source destination port rest ha hb hs hd hp bare hx hy h =
    let cut =
      ap (λ x. split_max b' ' 5 (trim is_crlf x)) h
      ∙ ap (split_max b' ' 5) (trim-bare (header a b source destination port rest) bare)
      ∙ split_max-header a b source destination port rest ha hb hs hd hp in
    elim (Option-cases (parse_ip source)) [
      | inl wrong ↦ absurd (hx wrong)
      | inr (x, fine) ↦ elim (Option-cases (parse_ip destination)) [
        | inl wrong ↦ absurd (hy wrong)
        | inr (y, good) ↦ proxy_step env s cut fine good
      ]
    ]
