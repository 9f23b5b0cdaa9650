-- ===== src/Text/Split.antt =====
-- How `split` and `join` act on parts that hold no separator.
use pftp.Base.{◌↔◌, ℕ, suc, List, [], ◌∷◌, ◌++◌, ◌≡◌, ◌≢◌, refl, arith, All, none, some, length}
use pftp.Text.{count, Bytes, split, split_max, push_head, join, index, last_index, replace}

abbrev pub Lacks : ℕ → Bytes → Type 0
Lacks b = All (λ c. c ≢ b)

pub split-Lacks : (sep : ℕ) (p : Bytes) → Lacks sep p → split sep p ≡ p ∷ []
unfolding split
split-Lacks sep [] h = refl
split-Lacks sep (c ∷ p) h = ground (arith, split-Lacks sep p h.1)

pub split-append :
    (sep : ℕ) (p rest : Bytes) → Lacks sep p → split sep (p ++ (sep ∷ rest)) ≡ p ∷ split sep rest
unfolding split
split-append sep [] rest h = ground arith
split-append sep (c ∷ p) rest h = ground (arith, split-append sep p rest h.1)

pub split_max-append :
    (sep k : ℕ) (p rest : Bytes)
    → Lacks sep p
    → split_max sep (suc k) (p ++ (sep ∷ rest)) ≡ p ∷ split_max sep k rest
unfolding split_max
split_max-append sep k [] rest h = ground arith
split_max-append sep k (c ∷ p) rest h = ground (arith, split_max-append sep k p rest h.1)

pub split_max-zero : (sep : ℕ) (s : Bytes) → split_max sep 0 s ≡ s ∷ []
unfolding split_max
split_max-zero sep s = refl

pub index-Lacks : (b : ℕ) (p rest : Bytes) → Lacks b p → index b (p ++ (b ∷ rest)) ≡ some (length p)
unfolding index
index-Lacks b [] rest h = ground arith
index-Lacks b (c ∷ p) rest h = ground (arith, index-Lacks b p rest h.1)

-- a byte is found exactly where it occurs
pub index-count : (b : ℕ) (s : Bytes) → (index b s ≡ none) ↔ (count b s ≡ 0)
unfolding index count
index-count b [] = ground arith
index-count b (c ∷ s) = ground (arith, index-count b s)

pub last_index-count : (b : ℕ) (s : Bytes) → (last_index b s ≡ none) ↔ (count b s ≡ 0)
unfolding last_index count
last_index-count b [] = ground arith
last_index-count b (c ∷ s) = ground (arith, last_index-count b s)

last_index-none : (b : ℕ) (s : Bytes) → Lacks b s → last_index b s ≡ none
unfolding last_index
last_index-none b [] h = refl
last_index-none b (c ∷ s) h = ground (arith, last_index-none b s h.1)

pub last_index-Lacks :
    (b : ℕ) (p rest : Bytes) → Lacks b rest → last_index b (p ++ (b ∷ rest)) ≡ some (length p)
unfolding last_index
last_index-Lacks b [] rest h = ground (arith, last_index-none b rest h)
last_index-Lacks b (c ∷ p) rest h = ground (arith, last_index-Lacks b p rest h)

-- Replacing one byte by another commutes with joining.
pub replace-Lacks : (b d : ℕ) (p : Bytes) → Lacks b p → replace b (d ∷ []) p ≡ p
unfolding replace
replace-Lacks b d [] h = refl
replace-Lacks b d (c ∷ p) h = ground (arith, replace-Lacks b d p h.1)

pub replace-append :
    (b d : ℕ) (p rest : Bytes)
    → Lacks b p
    → replace b (d ∷ []) (p ++ (b ∷ rest)) ≡ p ++ (d ∷ replace b (d ∷ []) rest)
unfolding replace
replace-append b d [] rest h = ground arith
replace-append b d (c ∷ p) rest h = ground (arith, replace-append b d p rest h.1)

push_head-join :
    (sep c : ℕ) (ps : List Bytes) → ps ≢ [] → join sep (push_head c ps) ≡ c ∷ join sep ps
unfolding join push_head
push_head-join sep c [] h = absurd (h refl)
push_head-join sep c (p ∷ []) h = refl
push_head-join sep c (p ∷ (q ∷ ps)) h = refl

push_head-ne-nil : (c : ℕ) (ps : List Bytes) → push_head c ps ≢ []
unfolding push_head
push_head-ne-nil c [] h = cc
push_head-ne-nil c (p ∷ ps) h = cc

split-ne-nil : (sep : ℕ) (s : Bytes) → split sep s ≢ []
unfolding split
split-ne-nil sep [] = λ h. cc
split-ne-nil sep (c ∷ s) = ground (arith, push_head-ne-nil c (split sep s))

join_nil : (sep : ℕ) (ps : List Bytes) → ps ≢ [] → join sep ([] ∷ ps) ≡ sep ∷ join sep ps
unfolding join
join_nil sep [] h = absurd (h refl)
join_nil sep (p ∷ ps) h = refl

-- The parts of a split, joined again, are the text.
pub join-split : (sep : ℕ) (s : Bytes) → join sep (split sep s) ≡ s
unfolding split
join-split sep [] = unfold join in refl
join-split sep (c ∷ s) = ground (
  arith,
  join-split sep s,
  split-ne-nil sep s,
  join_nil sep (split sep s) (split-ne-nil sep s),
  push_head-join sep c (split sep s) (split-ne-nil sep s),
)
