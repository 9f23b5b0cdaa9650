-- ===== src/Data/Copy/Whole.antt =====
-- pftp/data_handler.go: what copyPackets has written when it leaves off.
use pftp.Base.{
  false, List, [], ◌∷◌, ◌++◌, Option, none, some, ◌≡◌, refl, sym, ◌∙◌, ap, arith, Error, All,
  append_assoc, Bool-cases, inl, inr, ◌⊎◌, Option-cases,
}
use pftp.Data.Copy.{
  Round, End, more, eof, broken, Stop, waiting, aborted, unwritten, at_eof, unread, copy_packets,
  end_round, fails_to_write, send_eof,
}
use pftp.Text.{Bytes}

-- all that the source gave
abbrev pub all_read : List Round → Bytes
all_read [] = []
all_read (r ∷ rs) = r.chunk ++ all_read rs

-- what the source gave up to its end of file; `none` where it did not come to one
abbrev pub read_to_eof : List Round → Option Bytes
read_to_eof [] = none
read_to_eof (r ∷ rs) = elim (r.ending) [
  | more ↦ elim (read_to_eof rs) [ none ↦ none | some s ↦ some (r.chunk ++ s) ]
  | eof ↦ some r.chunk
  | broken _ ↦ none
]

-- a round in which the handler is open and the write succeeds
abbrev pub IsSmooth : Round → Type 0
IsSmooth r = (r.closed ≡ false) × (fails_to_write r ≡ false)

End-cases : (e : End) → (e ≡ more) ⊎ ((e ≡ eof) ⊎ ((why : Bytes) × (e ≡ broken why)))
End-cases more = inl refl
End-cases eof = inr (inl refl)
End-cases (broken why) = inr (inr (why, refl))

copy_nil : copy_packets [] ≡ ([], waiting)
unfolding copy_packets
copy_nil = refl

module _ (r : Round) (rs : List Round) where
  copy_step : IsSmooth r → copy_packets (r ∷ rs) ≡ end_round r (copy_packets rs)
  unfolding copy_packets
  copy_step h = rw (h.0, h.1) refl

  -- a round that is not smooth ends the copy
  Smooth-cases :
      IsSmooth r
      ⊎ ((copy_packets (r ∷ rs) ≡ ([], aborted)) ⊎ (copy_packets (r ∷ rs) ≡ ([], unwritten)))
  unfolding copy_packets
  Smooth-cases = elim (Bool-cases r.closed) [
    | inl shut ↦ inr (inl (rw shut refl))
    | inr there ↦ elim (Bool-cases (fails_to_write r)) [
      | inl wrong ↦ inr (inr (rw (there, wrong) refl))
      | inr fine ↦ inl (there, fine)
    ]
  ]

module _ (r : Round) (rest : Bytes × Stop) where
  end_round_more : r.ending ≡ more → end_round r rest ≡ (r.chunk ++ rest.0, rest.1)
  unfolding end_round
  end_round_more h = rw h refl

  end_round_eof : r.ending ≡ eof → end_round r rest ≡ (r.chunk, at_eof (send_eof r.close_error))
  unfolding end_round
  end_round_eof h = rw h refl

  end_round_broken :
      {why : Bytes} → r.ending ≡ broken why → end_round r rest ≡ (r.chunk, unread why)
  unfolding end_round
  end_round_broken h = rw h refl

  end_round-prefix :
      (tail s : Bytes)
      → tail ≡ rest.0 ++ s
      → (t : Bytes) × (r.chunk ++ tail ≡ (end_round r rest).0 ++ t)
  end_round-prefix tail s h = elim (End-cases r.ending) [
    | inl go_on ↦ (
      s,
      ap (λ x. r.chunk ++ x) h
          ∙ sym (append_assoc r.chunk rest.0 s)
          ∙ ap (λ (x : Bytes × Stop). x.0 ++ s) (sym (end_round_more go_on)),
    )
    | inr (inl ended) ↦ (tail, ap (λ (x : Bytes × Stop). x.0 ++ tail) (sym (end_round_eof ended)))
    | inr (inr (_, failed)) ↦
        (tail, ap (λ (x : Bytes × Stop). x.0 ++ tail) (sym (end_round_broken failed)))
  ]

-- What is written is the beginning of what was read, byte for byte and in order, whatever fails.
pub copy_packets-prefix : (rs : List Round) → (s : Bytes) × (all_read rs ≡ (copy_packets rs).0 ++ s)
copy_packets-prefix [] = ([], unfold copy_packets in refl)
copy_packets-prefix (r ∷ rs) =
    let (s, h) = copy_packets-prefix rs in
    elim (Smooth-cases r rs) [
      | inl smooth ↦
          let (t, e) = end_round-prefix r (copy_packets rs) (all_read rs) s h in
          (t, e ∙ ap (λ (x : Bytes × Stop). x.0 ++ t) (sym (copy_step r rs smooth)))
      | inr (inl shut) ↦
          (all_read (r ∷ rs), ap (λ (x : Bytes × Stop). x.0 ++ all_read (r ∷ rs)) (sym shut))
      | inr (inr wrong) ↦
          (all_read (r ∷ rs), ap (λ (x : Bytes × Stop). x.0 ++ all_read (r ∷ rs)) (sym wrong))
    ]

-- Where copyPackets left off at the end of file, it has written all that the source gave up to there.
pub copy_packets-read_to_eof :
    (rs : List Round) {out : Bytes} {e : Error}
    → copy_packets rs ≡ (out, at_eof e)
    → read_to_eof rs ≡ some out
copy_packets-read_to_eof [] h = (let is = sym copy_nil ∙ h in absurd (ground arith))
copy_packets-read_to_eof (r ∷ rs) {out} {e} h =
    let whole = copy_packets-read_to_eof rs {out = (copy_packets rs).0} {e = e} in
    elim (Smooth-cases r rs) [
      | inr (inl shut) ↦ absurd (ground arith)
      | inr (inr wrong) ↦ absurd (ground arith)
      | inl smooth ↦
          let ended : end_round r (copy_packets rs) ≡ (out, at_eof e) =
            sym (copy_step r rs smooth) ∙ h in
          elim (End-cases r.ending) [
            | inl go_on ↦
                let is = sym (end_round_more r (copy_packets rs) go_on) ∙ ended in
                let there = whole (ap (λ (x : Bytes × Stop). ((copy_packets rs).0, x.1)) is) in
                rw (go_on, there) (ap (λ (x : Bytes × Stop). some x.0) is)
            | inr (inl at_end) ↦
                let is = sym (end_round_eof r (copy_packets rs) at_end) ∙ ended in
                rw at_end (ap some (ap (λ (x : Bytes × Stop). x.0) is))
            | inr (inr (why, failed)) ↦
                let is = sym (end_round_broken r (copy_packets rs) failed) ∙ ended in
                absurd (ground arith)
          ]
    ]

-- A source that comes to its end of file is copied whole, and the end is passed on, where the handler
-- stays open and the writes succeed.
pub read_to_eof-copy_packets :
    (rs : List Round) {out : Bytes}
    → All IsSmooth rs
    → read_to_eof rs ≡ some out
    → (e : Error) × (copy_packets rs ≡ (out, at_eof e))
read_to_eof-copy_packets [] _ h = absurd (ground arith)
read_to_eof-copy_packets (r ∷ rs) {out} (smooth, others) k = elim (End-cases r.ending) [
  | inl go_on ↦ elim (Option-cases (read_to_eof rs)) [
    | inl never ↦ absurd (ground arith)
    | inr (s, there) ↦
        let (e, copied) = read_to_eof-copy_packets rs others there in
        (
          e,
          copy_step r rs smooth
              ∙ end_round_more r (copy_packets rs) go_on
              ∙ ap (λ (x : Bytes × Stop). (r.chunk ++ x.0, x.1)) copied
              ∙ ap (λ b. (b, at_eof e)) (ground arith),
        )
  ]
  | inr (inl at_end) ↦ (
    send_eof r.close_error,
    copy_step r rs smooth
        ∙ end_round_eof r (copy_packets rs) at_end
        ∙ ap (λ b. (b, at_eof (send_eof r.close_error))) (ground arith),
  )
  | inr (inr (why, failed)) ↦ absurd (ground arith)
]
