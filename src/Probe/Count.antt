-- ===== src/Probe/Count.antt =====
-- How many buckets are full, and that a table which is not full has an empty bucket.
use lumodb.Base.{
  ℕ, zero, suc, ◌+◌, ◌≤◌, ◌<◌, ◌≡◌, inl, inr, refl, ap, Option, none, some, arith, ℕ_discrete, ◌==◌,
  ==-ne, if◌then◌else◌, Option-cases,
}

module _ {E : Type 0} where
  abbrev pub one_if : Option E → ℕ
  one_if none = 0
  one_if (some e) = 1

  -- The full ones among the first `n` buckets.
  pub filled : (ℕ → Option E) → ℕ → ℕ
  filled T zero = 0
  filled T (suc n) = filled T n + one_if (T n)

  pub filled-le : (T : ℕ → Option E) (n : ℕ) → filled T n ≤ n
  unfolding filled
  filled-le T zero = omega arith
  filled-le T (suc n) = ground (arith, filled-le T n)

  pub has_empty : (T : ℕ → Option E) (n : ℕ) → filled T n < n → (e : ℕ) × (e < n) × (T e ≡ none)
  unfolding filled
  has_empty T zero h = absurd (omega arith)
  has_empty T (suc n) h = elim (Option-cases (T n)) [
    | inl empty ↦ (n, omega arith, empty)
    | inr (x, full) ↦
        let count : filled T n < n = ground arith in
        let (e, lt, empty) = has_empty T n count in (e, omega arith, empty)
  ]

  pub filled_congr :
      (T U : ℕ → Option E) (n : ℕ) → ((i : ℕ) → i < n → T i ≡ U i) → filled T n ≡ filled U n
  unfolding filled
  filled_congr T U zero h = refl
  filled_congr T U (suc n) h =
      omega (arith, filled_congr T U n (λ i lt. h i (omega arith)), ap one_if (h n (omega arith)))

  pub filled-none : (T : ℕ → Option E) (n : ℕ) → ((i : ℕ) → T i ≡ none) → filled T n ≡ 0
  unfolding filled
  filled-none T zero h = refl
  filled-none T (suc n) h = omega (arith, filled-none T n h, ap one_if (h n))

  -- A write counts one more, unless the bucket was full.
  pub filled-write :
      (T : ℕ → Option E) (i n : ℕ) (e : E)
      → i < n
      → filled (λ j. if j == i then some e else T j) n + one_if (T i) ≡ filled T n + 1
  unfolding filled
  filled-write T i zero e h = absurd (omega arith)
  filled-write T i (suc n) e h = elim (ℕ_discrete n i) [
    | yes p ↦
        let old =
          filled_congr (λ j. if j == i then some e else T j) T n
            (λ j lt. rw (==-ne j i (omega arith))) in
        let here : one_if (if n == i then some e else T n) ≡ 1 = ground arith in
        let same : one_if (T n) ≡ one_if (T i) = ap (λ j. one_if (T j)) p in omega arith
    | no p ↦
        let old = filled-write T i n e (omega arith) in
        let here : one_if (if n == i then some e else T n) ≡ one_if (T n) = rw (==-ne n i p) in
        omega arith
  ]

  pub filled-suc : (T : ℕ → Option E) (n : ℕ) → filled T (suc n) ≡ filled T n + one_if (T n)
  unfolding filled
  filled-suc T n = refl

  pub filled-zero : (T : ℕ → Option E) → filled T 0 ≡ 0
  unfolding filled
  filled-zero T = refl
