-- ===== src/Text/Equal.antt =====
-- The equality of texts.
use pftp.Base.{◌≡◌, ◌↔◌, ◌∷◌, true, arith, refl}
use pftp.Text.{Bytes, same}

pub same_iff : (s t : Bytes) → (same s t ≡ true) ↔ (s ≡ t)
unfolding same
same_iff (x ∷ s) (y ∷ t) = ground (arith, same_iff s t)
same_iff _ _ = ground arith

pub same_self : (s : Bytes) → same s s ≡ true
same_self s = (same_iff s s).1 refl
