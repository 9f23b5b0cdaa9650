-- ===== src/Proxy/MultiLine.antt =====
-- pftp/proxy.go: multi-line replies of the origin.
use pftp.Base.{
  ℕ, ◌+◌, ◌≤◌, true, false, List, [], ◌∷◌, ◌++◌, Option, none, some, ◌≡◌, ◌≢◌, refl, sym, ◌∙◌, ap,
  arith, leb, length, All, ret, panic, Bool-cases, inl, inr, get_elem?, subst, append_assoc,
}
use pftp.Command.{code_of, rune, first}
use pftp.Net.{byte_at}
use pftp.Proxy.{ends_multi_line, gather, complete, is_multi_line}
use pftp.Text.Equal.{same_iff}
use pftp.Text.{Bytes, same, count, trim, trim_right, keep_end, is_crlf, cut, split_two}

-- A text that `ReadString('\n')` returns without an error: one LF, at its end.
pub record IsLine (s : Bytes) : Type 0 where
  pub body : Bytes
  pub spelled : s ≡ body ++ (b'\n' ∷ [])
  pub no_lf : count b'\n' body ≡ 0

count_lf-append : (s : Bytes) → count b'\n' (s ++ (b'\n' ∷ [])) ≡ count b'\n' s + 1
unfolding count
count_lf-append [] = refl
count_lf-append (c ∷ s) = omega (arith, count_lf-append s)

count_cons : (c : ℕ) (s : Bytes) → count b'\n' (c ∷ s) ≡ count b'\n' (c ∷ []) + count b'\n' s
unfolding count
count_cons c s = omega arith

count-keep_end :
    (c : ℕ) (s : Bytes) → count b'\n' (keep_end is_crlf c s) ≤ count b'\n' (c ∷ []) + count b'\n' s
count-keep_end c [] = unfold keep_end count in ground arith
count-keep_end c (d ∷ s) = unfold keep_end in omega (arith, count_cons c (d ∷ s))

-- Trimming on the right drops a final LF.
trim_right_lf : (s : Bytes) → count b'\n' (trim_right is_crlf (s ++ (b'\n' ∷ []))) ≤ count b'\n' s
trim_right_lf [] = unfold trim_right keep_end count in omega arith
trim_right_lf (c ∷ s) = trim_right_step c s (trim_right_lf s)
  where
    trim_right_step :
        (c : ℕ) (s : Bytes)
        → count b'\n' (trim_right is_crlf (s ++ (b'\n' ∷ []))) ≤ count b'\n' s
        → count b'\n' (trim_right is_crlf ((c ∷ s) ++ (b'\n' ∷ []))) ≤ count b'\n' (c ∷ s)
    trim_right_step c s h =
        unfold trim_right in
        omega (arith, count-keep_end c (trim_right is_crlf (s ++ (b'\n' ∷ []))), count_cons c s, h)

trim_skip : (c : ℕ) (s : Bytes) → is_crlf c ≡ true → trim is_crlf (c ∷ s) ≡ trim is_crlf s
unfolding trim
trim_skip c s h = rw h

trim_stay :
    (c : ℕ) (s : Bytes) → is_crlf c ≡ false → trim is_crlf (c ∷ s) ≡ trim_right is_crlf (c ∷ s)
unfolding trim
trim_stay c s h = rw h

-- Trimming drops a final LF.
trim_lf : (s : Bytes) → count b'\n' (trim is_crlf (s ++ (b'\n' ∷ []))) ≤ count b'\n' s
trim_lf [] = unfold trim count in omega arith
trim_lf (c ∷ s) = elim (Bool-cases (is_crlf c)) [
  | inl skip ↦ rw (trim_skip c _ skip) (omega (arith, trim_lf s, count_cons c s))
  | inr stay ↦ rw (trim_stay c _ stay) (trim_right_lf (c ∷ s))
]

abbrev before : Option (Bytes × Bytes) → Bytes
before none = []
before (some (a, b)) = a

cut-count : (sep s : Bytes) → count b'\n' (before (cut sep s)) ≤ count b'\n' s
unfolding cut count
cut-count sep [] = ground arith
cut-count sep (c ∷ s) = ground (arith, cut-count sep s)

first-split_two : (sep s : Bytes) → count b'\n' (first (split_two sep s)) ≤ count b'\n' s
unfolding split_two
first-split_two sep s = ground (arith, cut-count sep s)

code_of_long :
    (s : Bytes)
    → leb 4 (length s) ≡ true
    → code_of s ≡ first (split_two (rune (byte_at s 3)) (trim is_crlf s))
unfolding code_of
code_of_long s h = rw h

code_of_short : (s : Bytes) → leb 4 (length s) ≡ false → code_of s ≡ s
unfolding code_of
code_of_short s h = rw h

-- The code of a line of four bytes or more holds no LF.
code-no_lf : (s : Bytes) → IsLine s → leb 4 (length s) ≡ true → count b'\n' (code_of s) ≡ 0
code-no_lf s w long =
    let sep = rune (byte_at s 3) in
    rw (code_of_long s long) (
      omega (
        arith,
        first-split_two sep (trim is_crlf s),
        subst (λ t. count b'\n' (trim is_crlf t) ≤ count b'\n' w.body) (sym w.spelled)
            (trim_lf w.body),
        w.no_lf,
      ))

line-lf : (s : Bytes) → IsLine s → count b'\n' s ≡ 1
line-lf s w = rw w.spelled (omega (arith, count_lf-append w.body, w.no_lf))

-- A line with the code of a multi-line reply has a fourth byte.
same_code-long :
    (code res : Bytes)
    → IsLine res
    → count b'\n' code ≡ 0
    → same (code_of res) code ≡ true
    → leb 4 (length res) ≡ true
same_code-long code res w no_lf h = elim (Bool-cases (leb 4 (length res))) [
  | inl long ↦ long
  | inr short ↦
      let e : code ≡ res = sym ((same_iff (code_of res) code).0 h) ∙ code_of_short res short in
      absurd (omega (arith, line-lf res w, ap (count b'\n') e))
]

fourth : (s : Bytes) → leb 4 (length s) ≡ true → get_elem? s 3 ≢ none
fourth [] h = ground arith
fourth (a ∷ []) h = ground arith
fourth (a ∷ (b ∷ [])) h = ground arith
fourth (a ∷ (b ∷ (c ∷ []))) h = ground arith
fourth (a ∷ (b ∷ (c ∷ (d ∷ s)))) h = cc

ends_multi_line-returns :
    (code res : Bytes) → IsLine res → count b'\n' code ≡ 0 → ends_multi_line code res ≢ panic
ends_multi_line-returns code res w no_lf =
    let there =
      λ (h : same (code_of res) code ≡ true). fourth res (same_code-long code res w no_lf h) in
    elim (Bool-cases (same (code_of res) code)) [
      | inl same_code ↦ unfold ends_multi_line in ground (arith, there same_code)
      | inr other ↦ unfold ends_multi_line in ground arith
    ]

gather-returns :
    (code multi_line : Bytes) (more : List Bytes)
    → count b'\n' code ≡ 0
    → All IsLine more
    → gather code multi_line more ≢ panic
unfolding gather
gather-returns code multi_line [] no_lf w = cc
gather-returns code multi_line (res ∷ more) no_lf w = ground (
  arith,
  ends_multi_line-returns code res w.0 no_lf,
  gather-returns code (multi_line ++ res) more no_lf w.1,
)

-- Reading a multi-line reply from lines as ReadString returns them never indexes out of range: a line
-- with the code of the first has a fourth byte.
pub complete-returns :
    (buff : Bytes) (more : List Bytes) → IsLine buff → All IsLine more → complete buff more ≢ panic
complete-returns buff more w ws = elim (Bool-cases (is_multi_line buff)) [
  | inl multi ↦
      let long : leb 4 (length buff) ≡ true = ground arith in
      unfold complete in
      ground (arith, gather-returns (code_of buff) buff more (code-no_lf buff w long) ws)
  | inr single ↦ unfold complete in ground arith
]

abbrev pub concat : List Bytes → Bytes
concat [] = []
concat (s ∷ ss) = s ++ concat ss

gather-concat :
    (code multi_line : Bytes) (more : List Bytes) {whole : Bytes} {rest : List Bytes}
    → gather code multi_line more ≡ ret (some (whole, rest))
    → whole ++ concat rest ≡ multi_line ++ concat more
unfolding gather
gather-concat code multi_line [] h = cc
gather-concat code multi_line (res ∷ more) {whole} {rest} h = ground (
  arith,
  gather-concat code (multi_line ++ res) more {whole = whole} {rest = rest},
  append_assoc multi_line res (concat more),
)

-- A completed reply and the lines behind it are what was read, byte for byte and in order.
pub complete-concat :
    (buff : Bytes) (more : List Bytes) {whole : Bytes} {rest : List Bytes}
    → complete buff more ≡ ret (some (whole, rest))
    → whole ++ concat rest ≡ buff ++ concat more
unfolding complete
complete-concat buff more {whole} {rest} h =
    ground (arith, gather-concat (code_of buff) buff more {whole = whole} {rest = rest})
