-- ===== src/Rows/Shared.antt =====
-- What the threads at the row index share, src/lumodb/database.cpp: the buckets, the row value files,
-- the probes, and what `RowBlockMatches` says of a snapshot.
use Prim.Native.Nat.{bit_and}
use lumodb.Base.{
  ℕ, zero, suc, not, ◌<◌, ◌≡◌, Bool, true, ◌&&◌, List, ◌==◌, bytes_eq, ltb, if◌then◌else◌,
}
use lumodb.Hash.{hash_string, mix_hashes}
use lumodb.Format.Rows.{shard_for_row}
use lumodb.Probe.{mask_of, probe_index}

-- The six fields of `RowBucketData`, in the order of the stores: 0 shardId, 1 columnHash, 2 rowId,
-- 3 blockOffset, 4 blockSize, 5 sequence.
abbrev pub Fields : Type 0
Fields = ℕ → ℕ

abbrev pub field_count : ℕ
field_count = 6

-- kRowBucketEmpty, kRowBucketFilled, kRowBucketWriting
abbrev pub row_bucket_empty : ℕ
row_bucket_empty = 0

abbrev pub row_bucket_filled : ℕ
row_bucket_filled = 1

abbrev pub row_bucket_writing : ℕ
row_bucket_writing = 2

-- `RowIndexBucket` as the threads share it.
pub record SharedBucket : Type 0 where
  pub state : ℕ
  pub fields : Fields

abbrev pub Memory : Type 0
Memory = ℕ → SharedBucket

-- A family with one member changed.
abbrev pub change {ℓ} : {A : Type ℓ} → (ℕ → A) → ℕ → A → ℕ → A
change f i a j = if j == i then a else f j

abbrev pub set_state : Memory → ℕ → ℕ → Memory
set_state m i s = change m i (record (m i) { state = s })

abbrev pub set_field : Memory → ℕ → ℕ → ℕ → Memory
set_field m i k v = change m i (record (m i) { fields = change (m i).fields k v })

-- What the row value files hold at an offset of a shard: whether a valid block header, its hash, row
-- and size, and the column of the block.
pub record Blocks : Type 0 where
  pub shards : ℕ
  pub valid_at : ℕ → ℕ → Bool
  pub hash_at : ℕ → ℕ → ℕ
  pub row_at : ℕ → ℕ → ℕ
  pub size_at : ℕ → ℕ → ℕ
  pub column_at : ℕ → ℕ → List ℕ

-- A row: its column, and its number there.
abbrev pub Row : Type 0
Row = List ℕ × ℕ

abbrev pub row_hash : Row → ℕ
row_hash r = mix_hashes (hash_string r.0) r.1

-- The bucket of a probe for a row.
unfoldable pub slot : ℕ → Row → ℕ → ℕ
slot n r p = probe_index (mask_of n) (bit_and (row_hash r) (mask_of n)) p

-- What a field of a bucket is, if the bucket was written for the row.
abbrev pub FieldOf : Blocks → Row → ℕ → ℕ → Type 0
FieldOf files r zero v = v ≡ shard_for_row files.shards (hash_string r.0) r.1
FieldOf files r (suc zero) v = v ≡ hash_string r.0
FieldOf files r (suc (suc zero)) v = v ≡ r.1
FieldOf files r (suc (suc (suc zero))) v =
    files.column_at (shard_for_row files.shards (hash_string r.0) r.1) v ≡ r.0
FieldOf files r (suc (suc (suc (suc k)))) v = Unit {0}

abbrev pub FieldsOf : Blocks → Row → Fields → Type 0
FieldsOf files r fields = (k : ℕ) → FieldOf files r k (fields k)

-- `RowBlockMatches` on a snapshot whose column hash and row number are those of the row.
pub data Verdict : Type 0 where
  matches differs corrupt : Verdict

unfoldable pub judge : Blocks → Row → Fields → Verdict
judge files r fields =
    if not ((fields 1 == hash_string r.0) && (fields 2 == r.1))
    then differs
    else if not (ltb (fields 0) files.shards)
    then corrupt
    else if not (
        files.valid_at (fields 0) (fields 3)
        && (files.hash_at (fields 0) (fields 3) == fields 1)
        && (files.row_at (fields 0) (fields 3) == r.1)
        && (files.size_at (fields 0) (fields 3) == fields 4))
    then corrupt
    else if bytes_eq (files.column_at (fields 0) (fields 3)) r.0
    then matches
    else differs

-- What a thread is called for: to put a block that it has written, or to find a row.
pub data Job : Type 0 where
  put : Row → Fields → Job
  find : Row → Job

abbrev pub row_of : Job → Row
row_of (put r fields) = r
row_of (find r) = r

-- The fields lead to one whole block of the row.
abbrev pub Whole : Blocks → Row → Fields → Type 0
Whole files r fields =
    (fields 0 < files.shards)
    × (files.valid_at (fields 0) (fields 3) ≡ true)
    × (files.hash_at (fields 0) (fields 3) ≡ hash_string r.0)
    × (files.row_at (fields 0) (fields 3) ≡ r.1)
    × (files.size_at (fields 0) (fields 3) ≡ fields 4)

-- The block that a thread puts was written for the row.
abbrev pub IsJob : Blocks → Job → Type 0
IsJob files (put r fields) = FieldsOf files r fields × Whole files r fields
IsJob files (find r) = Unit {0}
