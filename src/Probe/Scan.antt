-- ===== src/Probe/Scan.antt =====
-- What a probing loop returns, and which buckets it visits.
use Prim.Native.Nat.{bit_and}
use native.Mathlib.Nat.{mod-lt, mod-eq_of_lt, mod-eq-sub-mod}
use lumodb.Base.{
  ℕ, zero, suc, ◌+◌, ◌-◌, ◌%◌, ◌^◌, ◌≤◌, ◌<◌, ◌≡◌, refl, sym, ap, subst, ◌∙◌, arith, dec_lt,
}
use lumodb.Base.Bits.{bit_and-mask, pow_pos}
use lumodb.Base.Words.{u64}
use lumodb.Probe.{Step, next, done, mask_of, probe_index, scan_from, scan}

-- A table size as `RoundUpPowerOfTwo` makes them; larger ones wrap.
pub record IsSize (n : ℕ) : Type 0 where
  pub exponent : ℕ
  pub is_power : n ≡ 2 ^ exponent
  pub small : n ≤ 2 ^ 63

abbrev pub at : ℕ → ℕ → ℕ → ℕ
at n s p = (s + p) % n

pub IsSize-pos : {n : ℕ} → IsSize n → 0 < n
IsSize-pos v = omega (arith, pow_pos v.exponent)

-- The mask of a table size reduces by it: the `probe`-th bucket is `(start + probe) % n`.
pub probe_index-at :
    {n : ℕ} → IsSize n → (s p : ℕ) → s < n → p < n → probe_index (mask_of n) s p ≡ at n s p
unfolding probe_index
probe_index-at {n} v s p hs hp =
    ap (λ x. bit_and x (mask_of n)) sum
    ∙ ap (λ m. bit_and (s + p) m) mask
    ∙ bit_and-mask v.exponent (s + p)
    ∙ ap (λ m. (s + p) % m) (sym v.is_power)
  where
    sum : (s + p) % u64 ≡ s + p
    sum = omega (arith, v.small)

    mask : mask_of n ≡ 2 ^ v.exponent - 1
    mask = omega (arith, v.small, v.is_power, IsSize-pos v)

-- `hash & mask` is a bucket.
pub and_mask-mod : {n : ℕ} → IsSize n → (h : ℕ) → bit_and h (mask_of n) ≡ h % n
and_mask-mod {n} v h =
    ap (λ m. bit_and h m) mask ∙ bit_and-mask v.exponent h ∙ ap (λ m. h % m) (sym v.is_power)
  where
    mask : mask_of n ≡ 2 ^ v.exponent - 1
    mask = omega (arith, v.small, v.is_power, IsSize-pos v)

pub at-lt : {n : ℕ} (s p : ℕ) → 0 < n → at n s p < n
at-lt s p h = mod-lt (s + p) h

-- The probes from any start come to every bucket.
pub at_onto : {n : ℕ} (s e : ℕ) → s < n → e < n → (p : ℕ) × (p < n) × (at n s p ≡ e)
at_onto {n} s e hs he = elim (dec_lt e s) [
  | yes h ↦
      let over : s + (e + n - s) ≡ e + n = omega arith in
      let back : e + n - n ≡ e = omega arith in
      (
        e + n - s,
        omega arith,
        ap (λ x. x % n) over
            ∙ mod-eq-sub-mod {n = e + n} {m = n} (omega arith)
            ∙ ap (λ x. x % n) back
            ∙ mod-eq_of_lt he,
      )
  | no h ↦
      let below : s + (e - s) ≡ e = omega arith in
      (e - s, omega arith, ap (λ x. x % n) below ∙ mod-eq_of_lt he)
]

module _ {ℓ} {R : Type ℓ} (body : ℕ → Step R) (exhausted : R) where
  -- The loop leaves at the first probe whose body leaves.
  scan_from_done :
      (mask s rounds p d : ℕ) (r : R)
      → d < rounds
      → body (probe_index mask s (p + d)) ≡ done r
      → ((q : ℕ) → q < d → body (probe_index mask s (p + q)) ≡ next)
      → scan_from body exhausted mask s rounds p ≡ r
  unfolding scan_from
  scan_from_done mask s zero p d r lt e before = absurd (omega arith)
  scan_from_done mask s (suc rounds) p zero r lt e before =
      let here : p + 0 ≡ p = omega arith in
      rw (subst (λ x. body (probe_index mask s x) ≡ done r) here e) refl
  scan_from_done mask s (suc rounds) p (suc d) r lt e before =
      let here : p + 0 ≡ p = omega arith in
      let go = subst (λ x. body (probe_index mask s x) ≡ next) here (before 0 (omega arith)) in
      rw go (
        scan_from_done mask s rounds (p + 1) d r (omega arith)
          (subst (λ x. body (probe_index mask s x) ≡ done r) (shift d) e)
          (λ q h.
            subst (λ x. body (probe_index mask s x) ≡ next) (shift q)
              (before (suc q) (omega arith))))
    where
      shift : (k : ℕ) → p + suc k ≡ p + 1 + k
      shift k = omega arith

  pub scan_done :
      {n : ℕ} (s d : ℕ) (r : R)
      → IsSize n
      → s < n
      → d < n
      → body (at n s d) ≡ done r
      → ((q : ℕ) → q < d → body (at n s q) ≡ next)
      → scan body exhausted n s ≡ r
  unfolding scan
  scan_done {n} s d r v hs hd e before =
      scan_from_done (mask_of n) s n 0 d r hd (here d hd e)
        (λ q h. here q (omega arith) (before q h))
    where
      here :
          {x : Step R} (q : ℕ)
          → q < n
          → body (at n s q) ≡ x
          → body (probe_index (mask_of n) s (0 + q)) ≡ x
      here q hq b =
          let zero_add : 0 + q ≡ q = omega arith in
          ap (λ k. body (probe_index (mask_of n) s k)) zero_add
          ∙ ap body (probe_index-at v s q hs hq)
          ∙ b

  -- A loop whose body never leaves comes to its end.
  scan_from_exhausted :
      (mask s rounds p : ℕ)
      → ((i : ℕ) → body i ≡ next)
      → scan_from body exhausted mask s rounds p ≡ exhausted
  unfolding scan_from
  scan_from_exhausted mask s zero p all = refl
  scan_from_exhausted mask s (suc rounds) p all =
      rw (all (probe_index mask s p)) (scan_from_exhausted mask s rounds (p + 1) all)

  pub scan_exhausted : (n s : ℕ) → ((i : ℕ) → body i ≡ next) → scan body exhausted n s ≡ exhausted
  unfolding scan
  scan_exhausted n s all = scan_from_exhausted (mask_of n) s n 0 all
