-- ===== src/Rows/Update/Gathered.antt =====
-- The entries of a key table in the order of the buckets: each key once.
use lumodb.Base.{
  ℕ, zero, suc, ◌+◌, ◌≤◌, ◌<◌, ◌≡◌, ◌≢◌, inl, inr, refl, sym, ap, subst, ◌∙◌, true, false, Option,
  none, some, List, [], ◌∷◌, arith, length, bytes_eq, bytes_eq_refl, bytes_eq-ne, ℕ_discrete,
  Option-cases,
}
use lumodb.Probe.Table.{IsTable, Contents}
use lumodb.Probe.Count.{filled, one_if, filled-suc}
use lumodb.Rows.Blocks.{RowStructEntry}
use lumodb.Rows.Blocks.Keys.{by_key}
use lumodb.Rows.Blocks.Choosing.{last_of}

abbrev pub push : Option RowStructEntry → List RowStructEntry → List RowStructEntry
push none es = es
push (some e) es = e ∷ es

-- The entries of the `m` buckets from `i` on.
abbrev pub gather : (ℕ → Option RowStructEntry) → ℕ → ℕ → List RowStructEntry
gather T i zero = []
gather T i (suc m) = push (T i) (gather T (suc i) m)

length-push :
    (o : Option RowStructEntry) (es : List RowStructEntry)
    → length (push o es) ≡ one_if o + length es
length-push none es = omega arith
length-push (some e) es = omega arith

pub length-gather :
    (T : ℕ → Option RowStructEntry) (m i : ℕ)
    → length (gather T i m) + filled T i ≡ filled T (i + m)
length-gather T zero i = omega (arith, ap (filled T) (let z : i ≡ i + 0 = omega arith in z))
length-gather T (suc m) i = omega (
  arith,
  length-push (T i) (gather T (suc i) m),
  length-gather T m (suc i),
  filled-suc T i,
  ap (filled T) (let z : suc i + m ≡ i + suc m = omega arith in z),
)

-- No entry has the key.
abbrev pub Absent : List ℕ → List RowStructEntry → Type 0
Absent k [] = Unit {0}
Absent k (e ∷ es) = (bytes_eq e.key k ≡ false) × Absent k es

-- No key comes twice.
abbrev pub Distinct : List RowStructEntry → Type 0
Distinct [] = Unit {0}
Distinct (e ∷ es) = Absent e.key es × Distinct es

pub last_of-Absent :
    (k : List ℕ) (es : List RowStructEntry) (o : Option RowStructEntry)
    → Absent k es
    → last_of k es o ≡ o
last_of-Absent k [] o h = refl
last_of-Absent k (e ∷ es) o (differs, rest) =
    ap (last_of k es) (rw differs refl) ∙ last_of-Absent k es o rest

Absent-push :
    (k : List ℕ) (o : Option RowStructEntry) (es : List RowStructEntry)
    → ((e : RowStructEntry) → o ≡ some e → e.key ≢ k)
    → Absent k es
    → Absent k (push o es)
Absent-push k none es h rest = rest
Absent-push k (some e) es h rest = (bytes_eq-ne e.key k (h e refl), rest)

last_of-push :
    (k : List ℕ) (o : Option RowStructEntry) (es : List RowStructEntry) (a : Option RowStructEntry)
    → ((e : RowStructEntry) → o ≡ some e → e.key ≢ k)
    → last_of k (push o es) a ≡ last_of k es a
last_of-push k none es a h = refl
last_of-push k (some e) es a h = ap (last_of k es) (rw (bytes_eq-ne e.key k (h e refl)) refl)

module _ (row_id : ℕ) {n : ℕ} {T : ℕ → Option RowStructEntry}
    (table : IsTable (by_key row_id) n T) where
  -- A key that stands in none of the buckets is not gathered.
  gather-Absent :
      (k : List ℕ) (m i : ℕ)
      → ((j : ℕ) (e : RowStructEntry) → i ≤ j → j < i + m → T j ≡ some e → e.key ≢ k)
      → Absent k (gather T i m)
  gather-Absent k zero i h = tt
  gather-Absent k (suc m) i h =
      Absent-push k (T i) (gather T (suc i) m) (λ e. h i e (omega arith) (omega arith))
        (gather-Absent k m (suc i) (λ j e low high. h j e (omega arith) (omega arith)))

  -- Behind a bucket its key does not come again.
  behind :
      (i m : ℕ) (e : RowStructEntry)
      → suc i + m ≤ n
      → T i ≡ some e
      → Absent e.key (gather T (suc i) m)
  behind i m e room full = gather-Absent e.key m (suc i) (λ j x low high at_j same.
      let eq = table.unique i j e x (omega arith) (omega arith) full at_j (sym same) in
      absurd (omega (arith, eq, low)))

  pub gather-Distinct : (m i : ℕ) → i + m ≤ n → Distinct (gather T i m)
  gather-Distinct zero i room = tt
  gather-Distinct (suc m) i room = go (T i) refl (gather-Distinct m (suc i) (omega arith))
    where
      go :
          (o : Option RowStructEntry)
          → T i ≡ o
          → Distinct (gather T (suc i) m)
          → Distinct (push o (gather T (suc i) m))
      go none at rest = rest
      go (some e) at rest = (behind i m e (omega arith) at, rest)

  -- The entry of a bucket is the last one under its key.
  gather-last :
      (k : List ℕ) (m i j : ℕ) (e : RowStructEntry)
      → i + m ≤ n
      → i ≤ j
      → j < i + m
      → T j ≡ some e
      → e.key ≡ k
      → last_of k (gather T i m) none ≡ some e
  gather-last k zero i j e room low high full is_k = absurd (omega arith)
  gather-last k (suc m) i j e room low high full is_k = elim (ℕ_discrete i j) [
    | yes p ↦
        let here : T i ≡ some e = ap T p ∙ full in
        let k_here : bytes_eq e.key k ≡ true =
          ap (bytes_eq e.key) (sym is_k) ∙ bytes_eq_refl e.key in
        ap (λ o. last_of k (push o (gather T (suc i) m)) none) here
        ∙ ap (last_of k (gather T (suc i) m)) (rw k_here refl)
        ∙ last_of-Absent k (gather T (suc i) m) (some e)
            (subst (λ x. Absent x (gather T (suc i) m)) is_k (behind i m e (omega arith) here))
    | no p ↦
        last_of-push k (T i) (gather T (suc i) m) none (λ x at_i same.
          absurd (p (table.unique i j x e (omega arith) (omega arith) at_i full (same ∙ sym is_k))))
        ∙ gather-last k m (suc i) j e (omega arith) (omega arith) (omega arith) full is_k
  ]

  -- The gathered entries have the table's contents.
  pub gather-Contents :
      {f : List ℕ → Option RowStructEntry}
      → Contents (by_key row_id) n T f
      → (k : List ℕ) → last_of k (gather T 0 n) none ≡ f k
  gather-Contents {f} c k = elim (Option-cases (f k)) [
    | inl nothing ↦
        last_of-Absent k (gather T 0 n) none
          (gather-Absent k n 0 (λ j e low high. c.only k nothing j e (omega arith)))
        ∙ sym nothing
    | inr (e, holds) ↦
        let (j, lt, full, is_k) = c.has k e holds in
        gather-last k n 0 j e (omega arith) (omega arith) (omega arith) full is_k ∙ sym holds
  ]
