-- ===== src/Probe/Table.antt =====
-- Open addressing with linear probing, over the contents of the buckets: where a probe for a key
-- lands, what the table means as a map, and writes at the bucket where the probe landed.
use native.Mathlib.Nat.{mod-lt}
use lumodb.Base.{
  ℕ, zero, suc, ◌%◌, ◌≤◌, ◌<◌, ◌≡◌, ◌≢◌, ◌⊎◌, inl, inr, sym, ap, subst, ◌∙◌, Bool, true, false,
  Option, none, some, arith, dec_lt, ◌==◌, if◌then◌else◌, Bool-cases, Option-cases,
}
use lumodb.Probe.Scan.{at, at_onto}

-- Entries, the keys under which they are stored, and the keys' hashes and equality.
pub record Keys (E K : Type 0) : Type 0 where
  pub key : E → K
  pub hash : K → ℕ
  pub same : K → K → Bool
  pub same_refl : (a : K) → same a a ≡ true
  pub same_eq : (a b : K) → same a b ≡ true → a ≡ b

module _ {E K : Type 0} (keys : Keys E K) (n : ℕ) where
  open keys use {key, hash, same, same_refl, same_eq}

  abbrev pub start : K → ℕ
  start k = hash k % n

  -- The bucket of the `d`-th probe for `k`.
  abbrev pub home : K → ℕ → ℕ
  home k d = at n (start k) d

  abbrev pub Other : (ℕ → Option E) → K → ℕ → Type 0
  Other T k i = (e : E) × (T i ≡ some e) × (same (key e) k ≡ false)

  abbrev pub Hit : (ℕ → Option E) → K → ℕ → Type 0
  Hit T k i = (T i ≡ none) ⊎ ((e : E) × (T i ≡ some e) × (key e ≡ k))

  -- The probe for `k` ends after `d` steps over other keys.
  pub record Landed (T : ℕ → Option E) (k : K) (d : ℕ) : Type 0 where
    pub inside : d < n
    pub passed : (q : ℕ) → q < d → Other T k (home k q)
    pub landing : Hit T k (home k d)

  -- Every entry is reached from its home over full buckets, and no key stands twice.
  pub record IsTable (T : ℕ → Option E) : Type 0 where
    pub reach :
        (j : ℕ) (e : E)
        → j < n
        → T j ≡ some e
        → (d : ℕ) × (d < n) × (home (key e) d ≡ j) × ((q : ℕ) → q < d → T (home (key e) q) ≢ none)
    pub unique :
        (i j : ℕ) (e e' : E) → i < n → j < n → T i ≡ some e → T j ≡ some e' → key e ≡ key e' → i ≡ j

  -- The table holds exactly the entries of `f`.
  pub record Contents (T : ℕ → Option E) (f : K → Option E) : Type 0 where
    pub has : (k : K) (e : E) → f k ≡ some e → (j : ℕ) × (j < n) × (T j ≡ some e) × (key e ≡ k)
    pub only : (k : K) → f k ≡ none → (j : ℕ) (e : E) → j < n → T j ≡ some e → key e ≢ k

  abbrev pub write : (ℕ → Option E) → ℕ → E → ℕ → Option E
  write T i e j = if j == i then some e else T j

  abbrev pub update : (K → Option E) → E → K → Option E
  update f e k = if same (key e) k then some e else f k

  hit : (T : ℕ → Option E) (k : K) (i : ℕ) → Hit T k i ⊎ Other T k i
  hit T k i = elim (Option-cases (T i)) [
    | inl none_here ↦ inl (inl none_here)
    | inr (e, e_here) ↦ elim (Bool-cases (same (key e) k)) [
      | inl yes_same ↦ inl (inr (e, e_here, same_eq (key e) k yes_same))
      | inr other ↦ inr (e, e_here, other)
    ]
  ]

  search_to :
      (T : ℕ → Option E) (k : K) (m : ℕ)
      → m ≤ n
      → ((d : ℕ) × Landed T k d) ⊎ ((q : ℕ) → q < m → Other T k (home k q))
  search_to T k zero h = inr (λ q lt. absurd (omega arith))
  search_to T k (suc m) h = go (search_to T k m (omega arith)) (hit T k (home k m))
    where
      go :
          ((d : ℕ) × Landed T k d) ⊎ ((q : ℕ) → q < m → Other T k (home k q))
          → Hit T k (home k m) ⊎ Other T k (home k m)
          → ((d : ℕ) × Landed T k d) ⊎ ((q : ℕ) → q < suc m → Other T k (home k q))
      go (inl found) x = inl found
      go (inr before) (inl here) =
          inl (m, record { inside = omega arith; passed = before; landing = here })
      go (inr before) (inr other) = inr (λ q lt. elim (dec_lt q m) [
        | yes p ↦ before q p
        | no p ↦ let e : m ≡ q = omega arith in subst (λ x. Other T k (home k x)) e other
      ])

  -- In a table with an empty bucket the probe for any key ends.
  pub land :
      (T : ℕ → Option E) (k : K) → 0 < n → (e : ℕ) × (e < n) × (T e ≡ none) → (d : ℕ) × Landed T k d
  land T k pos (e, lt, empty) =
      go (search_to T k n (omega arith)) (at_onto (start k) e (mod-lt (hash k) pos) lt)
    where
      go :
          ((d : ℕ) × Landed T k d) ⊎ ((q : ℕ) → q < n → Other T k (home k q))
          → (p : ℕ) × (p < n) × (home k p ≡ e)
          → (d : ℕ) × Landed T k d
      go (inl found) x = found
      go (inr all) (p, lp, there) =
          let (x, full, other) = all p lp in absurd (clash x (ap T (sym there) ∙ full))
        where
          clash : (x : E) → T e ≡ some x → ⊥
          clash x full = cc

  module _ {T : ℕ → Option E} (table : IsTable T) where
    not_same : (a b : K) → same a b ≡ false → a ≢ b
    not_same a b h e = cc (h, same_refl b, ap (λ x. same x b) e)

    -- A probe that ends at an empty bucket shows that the key is nowhere.
    pub Landed-absent :
        {k : K} {d : ℕ}
        → Landed T k d
        → T (home k d) ≡ none
        → (j : ℕ) (e : E) → j < n
        → T j ≡ some e
        → key e ≢ k
    Landed-absent {k} {d} l empty j e hj full is_k =
        let (d', lt, there, path) = table.reach j e hj full in
        meet d' (subst (λ x. home x d' ≡ j) is_k there)
          (λ q h. subst (λ x. T (home x q) ≢ none) is_k (path q h))
      where
        meet : (d' : ℕ) → home k d' ≡ j → ((q : ℕ) → q < d' → T (home k q) ≢ none) → ⊥
        meet d' there path = elim (dec_lt d d') [
          | yes p ↦ path d p empty
          | no p ↦ elim (dec_lt d' d) [
            | yes q ↦
                let (x, at_x, other) = l.passed d' q in
                not_same (key x) k other
                  (ap key (some_eq x e (sym at_x ∙ ap T there ∙ full)) ∙ is_k)
            | no q ↦
                let eq : d ≡ d' = omega arith in
                none_some e (sym empty ∙ ap (λ x. T (home k x)) eq ∙ ap T there ∙ full)
          ]
        ]
          where
            some_eq : (x y : E) → some x ≡ some y → x ≡ y
            some_eq x y h = cc

            none_some : (x : E) → none ≡ some x → ⊥
            none_some x h = cc
