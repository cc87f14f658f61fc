-- ===== src/Rows/Protocol/Judging.antt =====
-- What `RowBlockMatches` says of a snapshot, however torn, tells whether the bucket is the row's.
use lumodb.Base.{
  ℕ, ◌≡◌, ◌≢◌, ◌⊎◌, inl, inr, refl, sym, ap, ap₂, ◌∙◌, Bool, true, false, not, ◌&&◌, arith, ◌==◌,
  ==-eq, ==-refl, bytes_eq, bytes_eq_refl, bytes_eq-eq, ltb, Bool-cases, if◌then◌else◌,
}
use lumodb.Hash.{hash_string}
use lumodb.Rows.Protocol.{
  Fields, field_count, Memory, Blocks, Row, Verdict, matches, differs, corrupt, judge,
}
use lumodb.Rows.Protocol.Owners.{same_row, same_row-eq, Owners, Seen}

-- The verdict in the order of its tests.
abbrev pub verdict : Bool → Bool → Bool → Bool → Verdict
verdict ours shard block column =
    if not ours
    then differs
    else if not shard
    then corrupt
    else if not block
    then corrupt
    else if column
    then matches
    else differs

matches-ne-differs : matches ≢ differs
matches-ne-differs h = cc

corrupt-ne : (v : Verdict) → corrupt ≡ v → (v ≡ matches) ⊎ (v ≡ differs) → ⊥
corrupt-ne v h (inl e) = cc
corrupt-ne v h (inr e) = cc

verdict-matches : (a b c d : Bool) → verdict a b c d ≡ matches → (a ≡ true) × (d ≡ true)
verdict-matches true true true true h = (refl, refl)
verdict-matches true true true false h = absurd (matches-ne-differs (sym h))
verdict-matches true true false d h = absurd (corrupt-ne matches h (inl refl))
verdict-matches true false c d h = absurd (corrupt-ne matches h (inl refl))
verdict-matches false b c d h = absurd (matches-ne-differs (sym h))

verdict-differs : (a b c d : Bool) → verdict a b c d ≡ differs → (a ≡ false) ⊎ (d ≡ false)
verdict-differs true true true true h = absurd (matches-ne-differs h)
verdict-differs true true true false h = inr refl
verdict-differs true true false d h = absurd (corrupt-ne differs h (inr refl))
verdict-differs true false c d h = absurd (corrupt-ne differs h (inr refl))
verdict-differs false b c d h = inl refl

pub and_true : (a b : Bool) → (a && b) ≡ true → (a ≡ true) × (b ≡ true)
and_true true true h = (refl, refl)
and_true true false h = absurd cc
and_true false b h = absurd cc

pub true-ne-false : (b : Bool) → b ≡ true → b ≡ false → ⊥
true-ne-false b h g = cc

module _ (files : Blocks) (r : Row) (fields : Fields) where
  abbrev pub ours : Bool
  ours = (fields 1 == hash_string r.0) && (fields 2 == r.1)

  abbrev pub shard : Bool
  shard = ltb (fields 0) files.shards

  abbrev pub block : Bool
  block =
      files.valid_at (fields 0) (fields 3)
      && (files.hash_at (fields 0) (fields 3) == fields 1)
      && (files.row_at (fields 0) (fields 3) == r.1)
      && (files.size_at (fields 0) (fields 3) == fields 4)

  abbrev pub column : Bool
  column = bytes_eq (files.column_at (fields 0) (fields 3)) r.0

  pub judge-verdict : judge files r fields ≡ verdict ours shard block column
  unfolding judge
  judge-verdict = refl

  module _ {owner : Owners} {m : Memory} {i : ℕ}
      (seen : Seen files owner m i field_count fields) where
    -- The column that the snapshot's offset leads to is that of the bucket's row.
    seen_column : files.column_at (fields 0) (fields 3) ≡ seen.row.0
    seen_column =
        ap (λ s. files.column_at s (fields 3)) (seen.read 0 (omega arith))
        ∙ seen.read 3 (omega arith)

    -- A snapshot is accepted only from a bucket of the row.
    pub judge-matches : judge files r fields ≡ matches → seen.row ≡ r
    judge-matches h =
        let (a, d) = verdict-matches ours shard block column (sym judge-verdict ∙ h) in
        let (hash, number) = and_true (fields 1 == hash_string r.0) (fields 2 == r.1) a in
        ap₂ (λ x y. (x, y))
          (sym seen_column ∙ bytes_eq-eq (files.column_at (fields 0) (fields 3)) r.0 d)
          (sym (seen.read 2 (omega arith)) ∙ ==-eq (fields 2) r.1 number)

    -- A snapshot is passed over only from a bucket of another row.
    pub judge-differs : judge files r fields ≡ differs → same_row seen.row r ≡ false
    judge-differs h = elim (Bool-cases (same_row seen.row r)) [
      | inr other ↦ other
      | inl e ↦ absurd (
          clash (same_row-eq seen.row r e)
            (verdict-differs ours shard block column (sym judge-verdict ∙ h)))
    ]
      where
        clash : seen.row ≡ r → (ours ≡ false) ⊎ (column ≡ false) → ⊥
        clash e (inl no_hit) =
            let hash = seen.read 1 (omega arith) ∙ ap (λ x. hash_string x.0) e in
            let number = seen.read 2 (omega arith) ∙ ap (λ x. x.1) e in
            true-ne-false ours
              (ap₂ (λ x y. (x == hash_string r.0) && (y == r.1)) hash number
                ∙ ap₂ (λ x y. x && y) (==-refl (hash_string r.0)) (==-refl r.1))
              no_hit
        clash e (inr no_column) =
            true-ne-false column
              (ap (λ x. bytes_eq x r.0) (seen_column ∙ ap (λ x. x.0) e) ∙ bytes_eq_refl r.0)
              no_column
