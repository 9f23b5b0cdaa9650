-- ===== src/Config/PortRange.antt =====
-- pftp/config.go and pftp/data_handler.go: the port range, its validation and the choice of a port.
use pftp.Address.{get_listen_port, range_bounds, random_port}
use pftp.Base.{
  ℕ, ◌+◌, ◌-◌, ◌%◌, ◌≤◌, ◌<◌, List, [], ◌∷◌, none, ◌≡◌, ◌≢◌, refl, sym, ◌∙◌, arith, ret, dec_lt,
  int_mod,
}
use pftp.Config.{data_port_range_validation, range_parts}
use pftp.Text.Decimal.{atoi, atoi-lt, itoa}
use pftp.Text.{Bytes, split, trim_space}

-- The two ends that a valid range names.
pub record IsRange (ps : List Bytes) (lo hi : ℕ) : Type 0 where
  pub low : 1 ≤ lo
  pub ordered : lo ≤ hi
  pub high : hi ≤ 65535
  pub bounds : range_bounds ps ≡ ret (lo, hi)

-- The two parts parse as numbers that pass the checks.
pub record Checked (a b : Bytes) : Type 0 where
  pub low : 1 ≤ (atoi (trim_space a)).0
  pub ordered : (atoi (trim_space a)).0 ≤ (atoi (trim_space b)).0
  pub high : (atoi (trim_space b)).0 ≤ 65535

range_parts-Checked : (a b : Bytes) → range_parts (a ∷ b ∷ []) ≡ none → Checked a b
unfolding range_parts
range_parts-Checked a b h = ground (arith, atoi-lt (trim_space a), atoi-lt (trim_space b))

range_parts-IsRange :
    (ps : List Bytes) → range_parts ps ≡ none → (lo : ℕ) × (hi : ℕ) × IsRange ps lo hi
range_parts-IsRange [] h = unfold range_parts in cc
range_parts-IsRange (a ∷ []) h = unfold range_parts in cc
range_parts-IsRange (a ∷ (b ∷ (c ∷ r))) h = unfold range_parts in cc
range_parts-IsRange (a ∷ (b ∷ [])) h =
    let w = range_parts-Checked a b h in
    (
      (atoi (trim_space a)).0,
      (atoi (trim_space b)).0,
      record {
        low = w.low;
        ordered = w.ordered;
        high = w.high;
        bounds = unfold range_bounds in refl;
      },
    )

-- `rand.Intn`: below its argument, where that is positive
abbrev pub IsIntn : (ℕ → ℕ) → Type 0
IsIntn intn = (n : ℕ) → 0 < n → intn n < n

random_port-single : (intn : ℕ → ℕ) (lo : ℕ) → random_port intn (lo, lo) ≡ ret (itoa lo)
unfolding random_port
random_port-single intn lo = ground arith

random_port-lt :
    (intn : ℕ → ℕ) (lo hi : ℕ)
    → intn (hi - lo) < hi - lo
    → lo < hi
    → hi ≤ 65535
    → random_port intn (lo, hi) ≡ ret (itoa (lo + intn (hi - lo)))
unfolding random_port
random_port-lt intn lo hi law ordered high =
    let width : (hi + int_mod - lo) % int_mod ≡ hi - lo = omega arith in rw width (ground arith)

-- A chosen port lies in the range, below the upper end unless that is the lower end too.
pub record Chosen (intn : ℕ → ℕ) (r : Bytes) : Type 0 where
  pub lo : ℕ
  pub hi : ℕ
  pub port : ℕ
  pub bounds : range_bounds (split b'-' r) ≡ ret (lo, hi)
  pub text : get_listen_port intn r ≡ ret (itoa port)
  pub positive : 1 ≤ lo
  pub from_lo : lo ≤ port
  pub to_hi : port ≤ hi
  pub below_hi : lo < hi → port < hi
  pub high : hi ≤ 65535

get_listen_port-bounds :
    (intn : ℕ → ℕ) (r : Bytes) {b : ℕ × ℕ}
    → r ≢ []
    → range_bounds (split b'-' r) ≡ ret b
    → get_listen_port intn r ≡ random_port intn b
unfolding get_listen_port
get_listen_port-bounds intn [] ne h = absurd (ne refl)
get_listen_port-bounds intn (c ∷ r) ne h = rw h

range_validation-parts :
    (r : Bytes) → r ≢ [] → data_port_range_validation r ≡ range_parts (split b'-' r)
unfolding data_port_range_validation
range_validation-parts [] ne = absurd (ne refl)
range_validation-parts (c ∷ r) ne = refl

module _ (intn : ℕ → ℕ) (r : Bytes) (ne : r ≢ []) (law : IsIntn intn) where
  choose : (lo hi : ℕ) → IsRange (split b'-' r) lo hi → Chosen intn r
  choose lo hi w = elim (dec_lt lo hi) [
    | yes less ↦ record {
      lo = lo;
      hi = hi;
      port = lo + intn (hi - lo);
      bounds = w.bounds;
      text =
          get_listen_port-bounds intn r ne w.bounds
          ∙ random_port-lt intn lo hi (law (hi - lo) (omega arith)) less w.high;
      positive = w.low;
      from_lo = omega arith;
      to_hi = omega (arith, law (hi - lo) (omega arith), w.high);
      below_hi = λ _. omega (arith, law (hi - lo) (omega arith));
      high = w.high;
    }
    | no equal ↦
        let e : hi ≡ lo = omega (arith, w.ordered) in
        record {
          lo = lo;
          hi = hi;
          port = lo;
          bounds = w.bounds;
          text = get_listen_port-bounds intn r ne w.bounds ∙ rw e (random_port-single intn lo);
          positive = w.low;
          from_lo = omega arith;
          to_hi = w.ordered;
          below_hi = λ less. absurd (equal less);
          high = w.high;
        }
  ]

  -- For a nonempty range text that passes the validation of the configuration, and a rand.Intn that
  -- returns a number below its positive argument, getListenPort does not panic: it returns the
  -- decimal print of a port between the two ends, which lie in 1 to 65535; where the ends differ,
  -- the port is below the upper end, which is never chosen.
  pub get_listen_port-Chosen : data_port_range_validation r ≡ none → Chosen intn r
  get_listen_port-Chosen h =
      let (lo, hi, w) =
        range_parts-IsRange (split b'-' r) (sym (range_validation-parts r ne) ∙ h) in
      choose lo hi w
