-- ===== src/Capacity/Growth.antt =====
-- `EnsureCapacityForInsert`'s loop: the new bucket count, and that it comes to an end.
use native.Mathlib.Nat.{pow-suc, pow-le-pow_right}
use lumodb.Base.{
  ℕ, zero, suc, ◌+◌, ◌*◌, ◌^◌, ◌≤◌, ◌<◌, ◌≡◌, ◌⊎◌, inl, inr, refl, sym, ap, ◌∙◌, true, false, arith,
  dec_lt, Bool-cases,
}
use lumodb.Base.Words.{mul64}
use lumodb.Probe.Scan.{IsSize, IsSize-pos}
use lumodb.Status.{ok}
use lumodb.Capacity.{LoadFactor, IsLoadFactor, grow_from, grow_buckets}

-- A bucket count that holds `items` below the load factor, reached by doubling `n` no more often
-- than that takes.
pub record IsGrown {load : LoadFactor} (law : IsLoadFactor load) (items n m : ℕ) : Type 0 where
  pub size : IsSize m
  pub covers : n ≤ m
  pub tight : (m ≡ n) ⊎ (m ≤ 2 * (items * 2 ^ law.slack))
  pub fits : load.exceeds items m ≡ false

module _ {load : LoadFactor} (law : IsLoadFactor load) (items : ℕ) where
  -- A table over the load factor has too few buckets for the slack.
  not_sparse : (n : ℕ) → 0 < n → load.exceeds items n ≡ true → n < items * 2 ^ law.slack
  not_sparse n pos over = elim (dec_lt n (items * 2 ^ law.slack)) [
    | yes p ↦ p
    | no p ↦ absurd (cc (over, law.sparse_fits items n pos (omega arith)))
  ]

  -- With `items * 2 ^ slack` at most 2 ^ 62 the loop ends before the count can wrap.
  grow_from-IsGrown :
      (fuel n : ℕ) (v : IsSize n)
      → 64 ≤ v.exponent + fuel
      → items * 2 ^ law.slack ≤ 2 ^ 62
      → (m : ℕ) × (grow_from fuel load items n ≡ ok m) × IsGrown law items n m
  unfolding grow_from
  grow_from-IsGrown zero n v enough bound = absurd (
      omega (
        arith,
        v.small,
        v.is_power,
        pow-le-pow_right {n = 2} (omega arith) {i = 64} {j = v.exponent} (omega arith),
      ))
  grow_from-IsGrown (suc fuel) n v enough bound = elim (Bool-cases (load.exceeds items n)) [
    | inr fits ↦
        (n, rw fits, record { size = v; covers = omega arith; tight = inl refl; fits = fits })
    | inl over ↦ elim (dec_lt (2 ^ 62) n) [
      | yes p ↦ absurd (cc (over, law.sparse_fits items n (IsSize-pos v) (omega arith)))
      | no p ↦
          let twice : mul64 n 2 ≡ n * 2 = omega arith in
          let below = not_sparse n (IsSize-pos v) over in
          let (m, run, is) =
            grow_from-IsGrown fuel (mul64 n 2)
              (record {
                exponent = suc v.exponent;
                is_power = twice ∙ ap (λ x. x * 2) v.is_power ∙ sym (pow-suc 2 v.exponent);
                small = omega arith;
              })
              (omega arith) bound in
          (
            m,
            rw over run,
            record {
              size = is.size;
              covers = omega (arith, is.covers);
              tight = inr (omega (arith, is.tight, below));
              fits = is.fits;
            },
          )
    ]
  ]

  -- From a table size, and with at most 2 ^ 62 buckets of slack for the items, the loop of
  -- `EnsureCapacityForInsert` ends, at a table size that is no smaller than before, not over the
  -- load factor, and at most twice the slack where it grew.
  pub grow_buckets-IsGrown :
      {n : ℕ}
      → IsSize n
      → items * 2 ^ law.slack ≤ 2 ^ 62
      → (m : ℕ) × (grow_buckets load items n ≡ ok m) × IsGrown law items n m
  unfolding grow_buckets
  grow_buckets-IsGrown {n} v bound = grow_from-IsGrown 66 n v (omega arith) bound

  -- A table that is not over the load factor has more buckets than items.
  pub fits-lt : {m : ℕ} → 0 < m → load.exceeds items m ≡ false → items < m
  fits-lt {m} pos fits = elim (dec_lt items m) [
    | yes p ↦ p
    | no p ↦ absurd (cc (fits, law.full_exceeds items m pos (omega arith)))
  ]
