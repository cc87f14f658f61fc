-- ===== src/Tests/Sharing.antt =====
-- Two threads that put blocks of one row, and one that looks for it.
use lumodb.Base.{
  ◌<◌, ◌⊎◌, inl, inr, ap, ℕ_discrete, ==-ne, ℕ, zero, suc, ◌+◌, ◌≡◌, ◌≢◌, ◌↔◌, Bool, some, refl,
  true, false, List, [], ◌∷◌, arith, bytes_eq,
}
use lumodb.Hash.{hash_string, mix_hashes}
use lumodb.Probe.{probe_index}
use lumodb.Format.Rows.{shard_for_row}
use lumodb.Tests.Fixture.{sixteen}
use lumodb.Rows.Protocol.{
  Fields, field_count, fresh, found, Blocks, Row, FieldsOf, IsJob, put, find, slot, System, Reach,
  start, begin, see_empty_put, claim, store, publish, see_filled, load, match_put, judge,
  row_bucket_empty, row_bucket_filled, row_bucket_writing, failed, stored,
}
use lumodb.Rows.Protocol.Progress.{Solo, stay, go, Solo-Reach, Reach-publishable}
use lumodb.Rows.Protocol.Owners.{written_by, SameFields}
use lumodb.Rows.Protocol.Safety.{HoldsRow, Reach-one_bucket, Reach-one_writer, Reach-no_lost_row}
use lumodb.Rows.Protocol.Quiet.{IsQuiet, Reach-put, Reach-find}
use lumodb.Rows.Protocol.Torn.{Reach-torn}

abbrev column : List ℕ
column = 99 ∷ []

abbrev row : Row
row = (column, 7)

abbrev files : Blocks
files = record {
  shards = 1;
  valid_at = λ s o. true;
  hash_at = λ s o. hash_string column;
  row_at = λ s o. 7;
  size_at = λ s o. o + 100;
  column_at = λ s o. column;
}

-- A block at an offset.
abbrev block : ℕ → Fields
block o zero = 0
block o (suc zero) = hash_string column
block o (suc (suc zero)) = 7
block o (suc (suc (suc zero))) = o
block o (suc (suc (suc (suc zero)))) = o + 100
block o (suc (suc (suc (suc (suc k))))) = 1

block-FieldsOf : (o : ℕ) → FieldsOf files row (block o)
unfolding shard_for_row mix_hashes hash_string
block-FieldsOf o zero = refl
block-FieldsOf o (suc zero) = refl
block-FieldsOf o (suc (suc zero)) = refl
block-FieldsOf o (suc (suc (suc zero))) = refl
block-FieldsOf o (suc (suc (suc (suc k)))) = tt

block-IsJob : (o : ℕ) → IsJob files (put row (block o))
block-IsJob o = (block-FieldsOf o, (omega arith, refl, refl, refl, refl))

-- The thread 0 puts the first block.
abbrev first_put : (s : System) × Reach files 16 s
first_put = (
  _,
  Solo-Reach {t = 0} start (
      go (begin {j = put row (block 16)} (block-IsJob 16)) (
        go (see_empty_put (omega arith) refl) (
          go (claim refl) (
            go (store (omega arith)) (
              go (store (omega arith)) (
                go (store (omega arith)) (
                  go (store (omega arith))
                    (go (store (omega arith)) (go (store (omega arith)) (go publish stay)))))))))),
)

-- The thread 1 has found it, and is about to replace it.
abbrev second_put : (s : System) × Reach files 16 s
unfolding slot judge mix_hashes hash_string probe_index bytes_eq
second_put = (
  _,
  Solo-Reach {t = 1} first_put.1 (
      go (begin {j = put row (block 200)} (block-IsJob 200)) (
        go (see_filled {blank = block 0} (omega arith) refl) (
          go (load (omega arith)) (
            go (load (omega arith)) (
              go (load (omega arith)) (
                go (load (omega arith)) (
                  go (load (omega arith))
                    (go (load (omega arith)) (go (match_put refl refl) stay))))))))),
)

-- The thread 2 has loaded the offset of the first block.
abbrev first_find : (s : System) × Reach files 16 s
unfolding slot judge mix_hashes hash_string probe_index bytes_eq
first_find = (
  _,
  Solo-Reach {t = 2} second_put.1 (
      go (begin {j = find row} tt) (
        go (see_filled {blank = block 0} (omega arith) refl) (
          go (load (omega arith))
            (go (load (omega arith)) (go (load (omega arith)) (go (load (omega arith)) stay)))))),
)

Reach-torn_example :
    HoldsRow files (first_find.0.memory (slot 16 row 0)) row
    × (s1 : System) × (s2 : System) × Solo files 16 1 first_find.0 s1
    × (s1.pc 1 ≡ stored false)
    × ((s1.memory (slot 16 row 0)).state ≡ row_bucket_filled)
    × SameFields field_count (s1.memory (slot 16 row 0)).fields (block 200)
    × HoldsRow files (s1.memory (slot 16 row 0)) row
    × Solo files 16 2 s1 s2
    × (s2.memory ≡ s1.memory)
    × (s2.pc 2 ≡ failed)
unfolding slot judge mix_hashes hash_string probe_index bytes_eq
Reach-torn_example =
    Reach-torn sixteen (omega arith) first_find.1 row 0 2 1 _ (block 200) (omega arith) refl refl
      refl (omega arith)

-- The thread 0 has claimed a bucket.
abbrev first_claim : (s : System) × Reach files 16 s
first_claim = (
  _,
  Solo-Reach {t = 0} start (
      go (begin {j = put row (block 16)} (block-IsJob 16))
        (go (see_empty_put (omega arith) refl) (go (claim refl) stay))),
)

-- The thread 2 has begun to look for the row.
abbrev first_look : (s : System) × Reach files 16 s
first_look = (_, Solo-Reach {t = 2} first_put.1 (go (begin {j = find row} tt) stay))

-- The bucket of the row.
abbrev spot : ℕ
unfolding slot judge mix_hashes hash_string probe_index bytes_eq
spot = slot 16 row 0

Reach-one_bucket_example : spot ≡ spot
unfolding slot judge mix_hashes hash_string probe_index bytes_eq
Reach-one_bucket_example =
    Reach-one_bucket sixteen first_put.1 row spot spot (omega arith) (omega arith)
      (refl, refl, refl) (refl, refl, refl)

Reach-one_writer_example :
    (((first_claim.0.memory spot).state ≡ row_bucket_writing)
      ↔ ((t : ℕ) × (written_by (first_claim.0.pc t) ≡ some spot)))
    × ((t t' : ℕ)
        → written_by (first_claim.0.pc t) ≡ some spot
        → written_by (first_claim.0.pc t') ≡ some spot
        → t ≡ t')
Reach-one_writer_example = Reach-one_writer sixteen first_claim.1 spot

Reach-no_lost_row_example : (first_look.0.memory (slot 16 row 0)).state ≢ row_bucket_empty
unfolding slot judge mix_hashes hash_string probe_index bytes_eq
Reach-no_lost_row_example =
    Reach-no_lost_row sixteen first_look.1 row spot (omega arith) (refl, refl, refl) 2 0 refl
      (omega arith)

Reach-publishable_example :
    (t : ℕ) × (s' : System) × (inserted : Bool) × Solo files 16 t first_claim.0 s'
    × ((s'.memory spot).state ≡ row_bucket_filled)
    × (s'.pc t ≡ stored inserted)
unfolding slot judge mix_hashes hash_string probe_index bytes_eq
Reach-publishable_example = Reach-publishable sixteen first_claim.1 spot refl

fresh-IsQuiet : IsQuiet 16 fresh.memory
fresh-IsQuiet = record {
  nobody = λ i h. absurd (omega (arith, h));
  spare = 0;
  inside = omega arith;
  is_empty = refl;
}

Reach-put_example :
    (s' : System) × (i : ℕ) × (inserted : Bool) × Solo files 16 3 fresh s'
    × (s'.pc 3 ≡ stored inserted)
    × (i < 16)
    × ((s'.memory i).state ≡ row_bucket_filled)
    × SameFields field_count (s'.memory i).fields (block 16)
Reach-put_example = Reach-put sixteen start fresh-IsQuiet 3 refl row (block 16) (block-IsJob 16)

-- After the first put every bucket but one is empty.
first_states :
    (i : ℕ)
    → ((i ≡ spot) × ((first_put.0.memory i).state ≡ row_bucket_filled))
      ⊎ ((first_put.0.memory i).state ≡ row_bucket_empty)
unfolding slot judge mix_hashes hash_string probe_index bytes_eq
first_states i = elim (ℕ_discrete i spot) [
  | yes e ↦ inl (e, ap (λ x. (first_put.0.memory x).state) e)
  | no ne ↦ inr (rw (==-ne i spot ne) refl)
]

first_put-IsQuiet : IsQuiet 16 first_put.0.memory
unfolding slot judge mix_hashes hash_string probe_index bytes_eq
first_put-IsQuiet = record {
  nobody = λ i h. elim (first_states i) [
    | inl (e, full) ↦ absurd (omega (arith, full, h))
    | inr empty ↦ absurd (omega (arith, empty, h))
  ];
  spare = 0;
  inside = omega arith;
  is_empty = refl;
}

Reach-find_example :
    (s' : System) × (snapshot : Fields) × Solo files 16 2 first_put.0 s'
    × (s'.pc 2 ≡ found row snapshot)
    × SameFields field_count snapshot (first_put.0.memory spot).fields
unfolding slot judge mix_hashes hash_string probe_index bytes_eq
Reach-find_example =
    Reach-find sixteen first_put.1 first_put-IsQuiet 2 refl row spot (omega arith)
      (refl, refl, refl)
