-- ===== src/Tls/Ciphers.antt =====
-- pftp/tls.go: the names of the cipher suites of a configuration (removeDuplicates).
use pftp.Base.{
  ℕ, false, ◌||◌, List, [], ◌∷◌, ◌++◌, ◌≡◌, arith, refl, ap, sym, ◌∙◌, ◌+◌, append_assoc,
  append-nil, Bool-cases, inl, inr, if◌then◌else◌,
}
use pftp.Text.Equal.{same_iff}
use pftp.Text.{Bytes, same}
use pftp.Tls.{is_known, dedup, remove_duplicates}

-- each element of the first list once, at its first place, unless the second holds it
abbrev pub firsts : List Bytes → List Bytes → List Bytes
firsts exist [] = []
firsts exist (p ∷ ps) = (if is_known p exist then [] else p ∷ []) ++ firsts (p ∷ exist) ps

dedup_step :
    (p : Bytes) (ps exist result : List Bytes)
    → dedup (p ∷ ps) exist result
      ≡ dedup ps (p ∷ exist) (if is_known p exist then result else result ++ p ∷ [])
unfolding dedup
dedup_step p ps exist result = refl

is_known_nil : (q : Bytes) → is_known q [] ≡ false
unfolding is_known
is_known_nil q = refl

is_known_cons : (q p : Bytes) (ps : List Bytes) → is_known q (p ∷ ps) ≡ (same p q || is_known q ps)
unfolding is_known
is_known_cons q p ps = refl

dedup-firsts : (ps exist result : List Bytes) → dedup ps exist result ≡ result ++ firsts exist ps
dedup-firsts [] exist result = unfold dedup in sym (append-nil result)
dedup-firsts (p ∷ ps) exist result =
    dedup_step p ps exist result ∙ elim (Bool-cases (is_known p exist)) [
      | inl known ↦ rw (known, dedup-firsts ps (p ∷ exist) result)
      | inr new ↦ rw (new, dedup-firsts ps (p ∷ exist) (result ++ p ∷ []), append_assoc)
    ]

-- how often a name occurs
abbrev pub occurrences : Bytes → List Bytes → ℕ
occurrences q [] = 0
occurrences q (p ∷ ps) = (if same p q then 1 else 0) + occurrences q ps

occurrences-firsts :
    (q : Bytes) (ps exist : List Bytes)
    → occurrences q (firsts exist ps)
      ≡ (if is_known q exist then 0 else if is_known q ps then 1 else 0)
occurrences-firsts q [] exist = ground (arith, is_known_nil q)
occurrences-firsts q (p ∷ ps) exist = ground (
  arith,
  is_known_cons q p ps,
  is_known_cons q p exist,
  same_iff p q,
  occurrences-firsts q ps (p ∷ exist),
)

-- In the list without duplicates every name of the given list occurs once, and no other occurs.
pub occurrences-remove_duplicates :
    (q : Bytes) (ps : List Bytes)
    → occurrences q (remove_duplicates ps) ≡ (if is_known q ps then 1 else 0)
unfolding remove_duplicates
occurrences-remove_duplicates q ps =
    ap (occurrences q) (dedup-firsts ps [] [])
    ∙ occurrences-firsts q ps []
    ∙ ground (arith, is_known_nil q)
