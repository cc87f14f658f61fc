-- ===== src/Capacity/RoundUp.antt =====
-- `RoundUpPowerOfTwo`: the least table size for a count, and the counts for which it never returns.
use native.Mathlib.Nat.{pow-suc, pow-le-pow_right}
use lumodb.Base.{
  ℕ, zero, suc, ◌*◌, ◌^◌, ◌≤◌, ◌<◌, ◌≡◌, ◌⊎◌, inl, inr, refl, sym, ap, ◌∙◌, arith, dec_lt, ltb-true,
  ltb-false,
}
use lumodb.Base.Words.{mul64}
use lumodb.Base.Bits.{pow_pos}
use lumodb.Probe.Scan.{IsSize}
use lumodb.Status.{ok, fault, endless_loop}
use lumodb.Capacity.{minimum_bucket_count, round_up_from, round_up_power_of_two}

-- The least power of two that is at least 16 and at least `value`.
pub record IsRoundUp (value n : ℕ) : Type 0 where
  pub size : IsSize n
  pub covers : value ≤ n
  pub minimum : minimum_bucket_count ≤ n
  pub least : (n ≡ minimum_bucket_count) ⊎ (n < 2 * value)

-- `r` can be doubled `suc j` times below the bound `m`.
double_fits : (r p m : ℕ) → r * (p * 2) ≡ m → 0 < p → r * 2 ≤ m
double_fits r p m e h = grind arith

double_step : (r p m : ℕ) → r * (p * 2) ≡ m → r * 2 * p ≡ m
double_step r p m e = omega arith

-- Started at a power of two that is `2 ^ j` below `2 ^ 63`, `j` rounds are enough.
round_up_from-IsRoundUp :
    (fuel j k r value : ℕ)
    → r ≡ 2 ^ k
    → r * 2 ^ j ≡ 2 ^ 63
    → j < fuel
    → 16 ≤ r
    → (r ≡ 16) ⊎ (r < 2 * value)
    → value ≤ 2 ^ 63
    → (n : ℕ) × (round_up_from fuel r value ≡ ok n) × IsRoundUp value n
unfolding round_up_from
round_up_from-IsRoundUp zero j k r value e top enough min least fits = absurd (omega arith)
round_up_from-IsRoundUp (suc fuel) zero k r value e top enough min least fits =
    let at_top : r ≡ 2 ^ 63 = omega arith in
    (
      r,
      rw (ltb-false r value (omega arith)),
      record {
        size = record { exponent = k; is_power = e; small = omega arith };
        covers = omega arith;
        minimum = min;
        least = least;
      },
    )
round_up_from-IsRoundUp (suc fuel) (suc j) k r value e top enough min least fits =
    elim (dec_lt r value) [
      | yes p ↦
          let top' = ap (λ x. r * x) (sym (pow-suc 2 j)) ∙ top in
          let small = double_fits r (2 ^ j) (2 ^ 63) top' (pow_pos j) in
          let twice : mul64 r 2 ≡ r * 2 = omega arith in
          let (n, run, is) =
            round_up_from-IsRoundUp fuel j (suc k) (mul64 r 2) value
              (twice ∙ ap (λ x. x * 2) e ∙ sym (pow-suc 2 k))
              (ap (λ x. x * 2 ^ j) twice ∙ double_step r (2 ^ j) (2 ^ 63) top') (omega arith)
              (omega arith) (inr (omega arith)) fits in
          (n, rw (ltb-true r value p) run, is)
      | no p ↦
          let top' = ap (λ x. r * x) (sym (pow-suc 2 j)) ∙ top in
          let small = double_fits r (2 ^ j) (2 ^ 63) top' (pow_pos j) in
          (
            r,
            rw (ltb-false r value (omega arith)),
            record {
              size = record { exponent = k; is_power = e; small = omega arith };
              covers = omega arith;
              minimum = min;
              least = least;
            },
          )
    ]

-- For every count up to 2 ^ 63, `RoundUpPowerOfTwo` returns the least power of two that is at
-- least 16 and at least the count.
pub round_up_power_of_two-IsRoundUp :
    (value : ℕ)
    → value ≤ 2 ^ 63
    → (n : ℕ) × (round_up_power_of_two value ≡ ok n) × IsRoundUp value n
unfolding round_up_power_of_two
round_up_power_of_two-IsRoundUp value fits =
    round_up_from-IsRoundUp 61 59 4 16 value refl refl (omega arith) (omega arith) (inl refl) fits

same_power : (a b : ℕ) → 2 ^ b ≤ 2 ^ a → 2 ^ a < 2 * 2 ^ b → 2 ^ a ≡ 2 ^ b
same_power a b low high = elim (dec_lt b a) [
  | yes p ↦
      absurd
        (omega (arith, pow-suc 2 b, pow-le-pow_right {n = 2} (omega arith) {i = suc b} {j = a} p))
  | no p ↦ omega (arith, pow-le-pow_right {n = 2} (omega arith) {i = a} {j = b} (omega arith))
]

same_size : {n m : ℕ} → IsSize n → IsRoundUp n m → 16 ≤ n → m ≡ n
same_size {n} {m} v is low = elim (dec_lt m (2 * n)) [
  | yes p ↦
      is.size.is_power
      ∙ same_power is.size.exponent v.exponent
          (omega (arith, is.covers, v.is_power, is.size.is_power))
          (omega (arith, v.is_power, is.size.is_power))
      ∙ sym v.is_power
  | no p ↦ omega (arith, is.least, is.covers)
]

-- A table size is its own round-up.
pub round_up-IsSize : {n : ℕ} → IsSize n → 16 ≤ n → round_up_power_of_two n ≡ ok n
round_up-IsSize {n} v low =
    let (m, run, is) = round_up_power_of_two-IsRoundUp n v.small in run ∙ ap ok (same_size v is low)

zero_endless : (fuel value : ℕ) → 0 < value → round_up_from fuel 0 value ≡ fault endless_loop
unfolding round_up_from
zero_endless zero value h = refl
zero_endless (suc fuel) value h = rw (ltb-true 0 value h) (zero_endless fuel value h)

endless_from :
    (fuel j r value : ℕ)
    → r * 2 ^ j ≡ 2 ^ 63
    → 2 ^ 63 < value
    → round_up_from fuel r value ≡ fault endless_loop
unfolding round_up_from
endless_from zero j r value top h = refl
endless_from (suc fuel) zero r value top h =
    let at_top : r ≡ 2 ^ 63 = omega arith in
    let wraps : mul64 r 2 ≡ 0 = omega arith in
    rw (ltb-true r value (omega arith), wraps) (zero_endless fuel value (omega arith))
endless_from (suc fuel) (suc j) r value top h =
    let top' = ap (λ x. r * x) (sym (pow-suc 2 j)) ∙ top in
    let small = double_fits r (2 ^ j) (2 ^ 63) top' (pow_pos j) in
    let twice : mul64 r 2 ≡ r * 2 = omega arith in
    rw (ltb-true r value (omega arith)) (
      endless_from fuel j (mul64 r 2) value
        (ap (λ x. x * 2 ^ j) twice ∙ double_step r (2 ^ j) (2 ^ 63) top') h)

-- For a count above 2 ^ 63 the loop of `RoundUpPowerOfTwo` never ends, however many rounds it is
-- given: the shift wraps to 0, which stays below the count.
pub round_up_endless :
    (value : ℕ)
    → 2 ^ 63 < value
    → (round_up_power_of_two value ≡ fault endless_loop)
      × ((rounds : ℕ) → round_up_from rounds minimum_bucket_count value ≡ fault endless_loop)
unfolding round_up_power_of_two
round_up_endless value h =
    (endless_from 61 59 16 value refl h, λ rounds. endless_from rounds 59 16 value refl h)
