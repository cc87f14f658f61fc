-- ===== src/Probe/Writes.antt =====
-- A write at the bucket where the probe for its key landed keeps the table, and updates its map.
use lumodb.Base.{
  ℕ, ◌<◌, ◌≡◌, ◌≢◌, ◌⊎◌, inl, inr, sym, ap, subst, ◌∙◌, false, Option, none, some, arith, ◌==◌,
  ==-eq, ==-ne, ==-refl, Bool-cases, Option-cases,
}
use lumodb.Probe.Scan.{at-lt}
use lumodb.Probe.Table.{Keys, start, home, Landed, IsTable, Contents, write, update, Landed-absent}

pub some_inj {ℓ} : {A : Type ℓ} {x y : A} → some x ≡ some y → x ≡ y
some_inj h = cc

pub none-ne-some {ℓ} : {A : Type ℓ} {x : A} → none ≢ some x
none-ne-some h = cc

module _ {E K : Type 0} (keys : Keys E K) (n : ℕ) where
  open keys use {key, hash, same, same_refl, same_eq}

  module _ {T : ℕ → Option E} (table : IsTable keys n T) where
    -- A key that is stored is found where the probe for it lands.
    pub Landed-stored :
        {k : K} {d : ℕ}
        → Landed keys n T k d
        → (j : ℕ) (e : E) → j < n
        → T j ≡ some e
        → key e ≡ k
        → home keys n k d ≡ j
    Landed-stored {k} {d} l j e hj full is_k = go l.landing
      where
        go :
            (T (home keys n k d) ≡ none) ⊎ ((x : E) × (T (home keys n k d) ≡ some x) × (key x ≡ k))
            → home keys n k d ≡ j
        go (inl empty) = absurd (Landed-absent keys n table l empty j e hj full is_k)
        go (inr (x, at_x, x_k)) =
            table.unique (home keys n k d) j x e (at-lt (start keys n k) d (omega arith)) hj at_x
              full (x_k ∙ sym is_k)

    -- The bucket where the probe lands holds what the map has under the key.
    pub Landed-eq :
        {f : K → Option E} {k : K} {d : ℕ}
        → Contents keys n T f
        → Landed keys n T k d
        → T (home keys n k d) ≡ f k
    Landed-eq {f} {k} {d} c l = go (Option-cases (f k))
      where
        go : (f k ≡ none) ⊎ ((e : E) × (f k ≡ some e)) → T (home keys n k d) ≡ f k
        go (inr (e, fk)) =
            let (j, hj, full, is_k) = c.has k e fk in
            ap T (Landed-stored l j e hj full is_k) ∙ full ∙ sym fk
        go (inl fk) = here l.landing
          where
            here :
                (T (home keys n k d) ≡ none)
                  ⊎ ((x : E) × (T (home keys n k d) ≡ some x) × (key x ≡ k))
                → T (home keys n k d) ≡ f k
            here (inl empty) = empty ∙ sym fk
            here (inr (x, at_x, x_k)) = absurd (
                c.only k fk (home keys n k d) x
                  (at-lt (start keys n k) d (let lt = l.inside in omega arith)) at_x x_k)

  write_self : (T : ℕ → Option E) (i : ℕ) (e : E) → write keys n T i e i ≡ some e
  write_self T i e = rw (==-refl i)

  write_ne : (T : ℕ → Option E) (i j : ℕ) (e : E) → j ≢ i → write keys n T i e j ≡ T j
  write_ne T i j e h = rw (==-ne j i h)

  eq_dec : (i j : ℕ) → (i ≡ j) ⊎ (i ≢ j)
  eq_dec i j = elim (Bool-cases (i == j)) [
    | inl e ↦ inl (==-eq i j e)
    | inr e ↦ inr (λ p. cc (e, ==-refl j, ap (λ x. x == j) p))
  ]

  write_full : (T : ℕ → Option E) (i j : ℕ) (e : E) → T j ≢ none → write keys n T i e j ≢ none
  write_full T i j e h w = elim (eq_dec j i) [
    | inl p ↦ none-ne-some (sym w ∙ ap (write keys n T i e) p ∙ write_self T i e)
    | inr p ↦ h (sym (write_ne T i j e p) ∙ w)
  ]

  -- An entry of the written table is the new one, at its bucket, or an old one elsewhere.
  write_cases :
      (T : ℕ → Option E) (i j : ℕ) (e e' : E)
      → write keys n T i e j ≡ some e'
      → ((j ≡ i) × (e' ≡ e)) ⊎ ((j ≢ i) × (T j ≡ some e'))
  write_cases T i j e e' w = elim (eq_dec j i) [
    | inl p ↦ inl (p, some_inj (sym w ∙ ap (write keys n T i e) p ∙ write_self T i e))
    | inr p ↦ inr (p, sym (write_ne T i j e p) ∙ w)
  ]

  module _ {T : ℕ → Option E} (table : IsTable keys n T) {e : E} {d : ℕ}
      (l : Landed keys n T (key e) d) where
    abbrev spot : ℕ
    spot = home keys n (key e) d

    spot-lt : spot < n
    spot-lt = at-lt (start keys n (key e)) d (let lt = l.inside in omega arith)

    -- No other bucket has the written key.
    elsewhere : (j : ℕ) (x : E) → j < n → T j ≡ some x → j ≢ spot → key x ≢ key e
    elsewhere j x hj full ne is_k = ne (sym (Landed-stored table l j x hj full is_k))

    -- What stood at the written bucket had the written key.
    spot_key : (x : E) → T spot ≡ some x → key x ≡ key e
    spot_key x full = go l.landing
      where
        go : (T spot ≡ none) ⊎ ((y : E) × (T spot ≡ some y) × (key y ≡ key e)) → key x ≡ key e
        go (inl empty) = absurd (none-ne-some (sym empty ∙ full))
        go (inr (y, at_y, y_k)) = ap key (some_inj (sym full ∙ at_y)) ∙ y_k

    pub write-IsTable : IsTable keys n (write keys n T spot e)
    write-IsTable = record { reach = reach; unique = unique }
      where
        T' : ℕ → Option E
        T' = write keys n T spot e

        reach :
            (j : ℕ) (x : E)
            → j < n
            → T' j ≡ some x
            → (c : ℕ) × (c < n)
              × (home keys n (key x) c ≡ j)
              × ((q : ℕ) → q < c → T' (home keys n (key x) q) ≢ none)
        reach j x hj full = elim (write_cases T spot j e x full) [
          | inl (p, is_e) ↦ (
            d,
            l.inside,
            ap (λ y. home keys n (key y) d) is_e ∙ sym p,
            λ q lt.
                let (y, at_y, o) = l.passed q lt in
                subst (λ z. T' (home keys n (key z) q) ≢ none) (sym is_e)
                  (write_full T spot (home keys n (key e) q) e
                    (λ empty. none-ne-some (sym empty ∙ at_y))),
          )
          | inr (ne, old) ↦
              let (c, lt, there, path) = table.reach j x hj old in
              (c, lt, there, λ q h. write_full T spot (home keys n (key x) q) e (path q h))
        ]

        unique :
            (i j : ℕ) (x y : E)
            → i < n
            → j < n
            → T' i ≡ some x
            → T' j ≡ some y
            → key x ≡ key y
            → i ≡ j
        unique i j x y hi hj fx fy k =
            go (write_cases T spot i e x fx) (write_cases T spot j e y fy)
          where
            go :
                ((i ≡ spot) × (x ≡ e)) ⊎ ((i ≢ spot) × (T i ≡ some x))
                → ((j ≡ spot) × (y ≡ e)) ⊎ ((j ≢ spot) × (T j ≡ some y))
                → i ≡ j
            go (inl (p, a)) (inl (q, b)) = p ∙ sym q
            go (inl (p, a)) (inr (q, b)) = absurd (elsewhere j y hj b q (sym k ∙ ap key a))
            go (inr (p, a)) (inl (q, b)) = absurd (elsewhere i x hi a p (k ∙ ap key b))
            go (inr (p, a)) (inr (q, b)) = table.unique i j x y hi hj a b k

    pub write-Contents :
        {f : K → Option E}
        → Contents keys n T f
        → Contents keys n (write keys n T spot e) (update keys n f e)
    write-Contents {f} c = record { has = has; only = only }
      where
        differ : (k : K) → same (key e) k ≡ false → k ≢ key e
        differ k other p = cc (other, same_refl k, ap (λ z. same z k) p)

        has :
            (k : K) (x : E)
            → update keys n f e k ≡ some x
            → (j : ℕ) × (j < n) × (write keys n T spot e j ≡ some x) × (key x ≡ k)
        has k x fk = elim (Bool-cases (same (key e) k)) [
          | inl yes_same ↦
              let is_e : e ≡ x = some_inj (sym (rw yes_same) ∙ fk) in
              (
                spot,
                spot-lt,
                write_self T spot e ∙ ap some is_e,
                ap key (sym is_e) ∙ same_eq (key e) k yes_same,
              )
          | inr other ↦
              let old : f k ≡ some x = sym (rw other) ∙ fk in
              let (j, hj, full, is_k) = c.has k x old in
              (
                j,
                hj,
                write_ne T spot j e
                      (λ p. differ k other (sym is_k ∙ spot_key x (ap T (sym p) ∙ full)))
                    ∙ full,
                is_k,
              )
        ]

        only :
            (k : K)
            → update keys n f e k ≡ none
            → (j : ℕ) (x : E) → j < n
            → write keys n T spot e j ≡ some x
            → key x ≢ k
        only k fk j x hj full is_k = elim (Bool-cases (same (key e) k)) [
          | inl yes_same ↦ none-ne-some {x = e} (sym fk ∙ rw yes_same)
          | inr other ↦
              let old : f k ≡ none = sym (rw other) ∙ fk in
              elim (write_cases T spot j e x full) [
                | inl (p, is_e) ↦ differ k other (sym is_k ∙ ap key is_e)
                | inr (ne, before) ↦ c.only k old j x hj before is_k
              ]
        ]
