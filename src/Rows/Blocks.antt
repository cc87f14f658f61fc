-- ===== src/Rows/Blocks.antt =====
-- Reading row blocks, src/lumodb/database.cpp: `ReadRowValueAt` and `FindValueInRowBlockAt`.
pub mod Keys
pub mod Choosing
pub mod Values
pub mod Bytes
pub mod Finding
pub mod Built
use Prim.Native.Nat.{bit_and}
use lumodb.Base.{
  ℕ, zero, suc, ◌+◌, ◌-◌, ◌*◌, ◌%◌, ◌≡◌, Bool, true, false, not, ◌&&◌, ◌||◌, Option, none, some,
  List, [], ◌∷◌, ◌++◌, ltb, leb, ◌==◌, length, get_or, set, take, drop, replicate, bytes_eq,
  if◌then◌else◌,
}
use lumodb.Base.Words.{u32, add64, mul64}
use lumodb.Status.{
  Result, ok, err, fault, corruption, invalid_argument, not_found, ◌>>=◌, ◌>>◌, require,
}
use lumodb.Hash.{hash_string, mix_hashes}
use lumodb.Format.Headers.{storage_version}
use lumodb.Format.Rows.{
  RowBlockHeader, RowKeyBucket, row_block_magic, encode_row_block_header, encode_row_key_bucket,
  decode_row_key_bucket, is_valid_row_block_header,
}
use lumodb.Probe.{Step, next, done, mask_of, scan}
use lumodb.Capacity.{LoadFactor, round_up_power_of_two}
use lumodb.File.{Device, read_all_at}
use lumodb.File.Loops.{flatten}
unfoldable pub use lumodb.Rows.Layout.{
  choose_body, choose, choose_all, place_values, build_row_block_layout, block_slices,
}
pub use lumodb.Rows.Layout.{
  bucket_empty, bucket_filled, RowStructEntry, no_entry, empty_key_bucket, RowBlockLayout, Chosen,
  encode_key_buckets,
}

-- `rowValueFiles_`, and the sizes of `rowValueMaps_` where they are mapped.
pub record RowFiles : Type 0 where
  pub value_files : List (List ℕ)
  pub value_maps : List (Option ℕ)

-- `ReadRowValueAt`
unfoldable pub read_row_value_at : Device → RowFiles → ℕ → ℕ → ℕ → Result (List ℕ)
read_row_value_at dev rows shard_id size offset =
    if not (ltb shard_id (length rows.value_files))
    then err corruption "row index points to an invalid shard"
    else elim (get_or rows.value_maps shard_id none) [
      | none ↦ read_all_at dev (get_or rows.value_files shard_id []) size offset
      | some mapped_size ↦
          if ltb mapped_size offset || ltb (mapped_size - offset) size
          then err corruption "row value read extends beyond file size"
          else ok (take size (drop offset (get_or rows.value_files shard_id [])))
    ]

-- `continue`, or the value, or an error.
abbrev pub leave : Result (Option (List ℕ)) → Step (Result (List ℕ))
leave (ok none) = next
leave (ok (some value)) = done (ok value)
leave (err c m) = done (err c m)
leave (fault x) = done (fault x)

-- The members of the row's bucket that the search uses.
pub record BlockPlace : Type 0 where
  pub shard_id : ℕ
  pub block_offset : ℕ
  pub block_size : ℕ

abbrev pub column_offset : RowBlockHeader → ℕ
column_offset h = add64 72 (mul64 h.bucket_count 48)

abbrev pub key_bytes_offset : RowBlockHeader → ℕ
key_bytes_offset h = add64 (column_offset h) h.column_size

abbrev pub value_bytes_offset : RowBlockHeader → ℕ
value_bytes_offset h = add64 (key_bytes_offset h) h.key_bytes_size

-- The bucket points outside the block.
abbrev pub outside : RowBlockHeader → RowKeyBucket → Bool
outside h b =
    ltb h.key_bytes_size b.key_offset
    || ltb (h.key_bytes_size - b.key_offset) b.key_size
    || ltb h.value_bytes_size b.value_offset
    || ltb (h.value_bytes_size - b.value_offset) b.value_size

-- One bucket, once it is read.
unfoldable pub look_in :
    Device
    → RowFiles
    → BlockPlace
    → RowBlockHeader
    → List ℕ
    → ℕ
    → RowKeyBucket
    → Result (Option (List ℕ))
look_in dev rows at h key key_hash b = do
  require (not (b.state == bucket_empty)) not_found "key not found in row"
  require (b.state == bucket_filled) corruption "row key bucket state is invalid"
  if not (b.key_hash == key_hash) || not (b.key_size == length key) then ok none else do
    require (not (outside h b)) corruption "row key bucket points outside block"
    stored_key ←
        read_row_value_at dev rows at.shard_id (length key)
          (add64 (add64 at.block_offset (key_bytes_offset h)) b.key_offset)
    if not (bytes_eq stored_key key) then ok none else do
      value ←
          read_row_value_at dev rows at.shard_id b.value_size
            (add64 (add64 at.block_offset (value_bytes_offset h)) b.value_offset)
      ok (some value)

-- The body of the loop of `FindValueInRowBlockAt`.
unfoldable pub find_value_body :
    Device → RowFiles → BlockPlace → RowBlockHeader → List ℕ → ℕ → ℕ → Step (Result (List ℕ))
unfolding look_in
find_value_body dev rows at h key key_hash i = leave (
    read_row_value_at dev rows at.shard_id 48 (add64 (add64 at.block_offset 72) (mul64 i 48))
    >>= λ bytes. look_in dev rows at h key key_hash (decode_row_key_bucket bytes))

-- `FindValueInRowBlockAt`
unfoldable pub find_value_in_row_block_at :
    Device → RowFiles → BlockPlace → RowBlockHeader → List ℕ → Result (List ℕ)
unfolding find_value_body
find_value_in_row_block_at dev rows at h key = do
  require (ltb at.shard_id (length rows.value_files)) corruption
      "row index points to an invalid shard"
  require (is_valid_row_block_header h && (h.block_size == at.block_size)) corruption
      "row index points to an invalid row block"
  scan (find_value_body dev rows at h key (hash_string key)) (err not_found "key not found in row")
      h.bucket_count (bit_and (mix_hashes (hash_string key) h.row_id) (mask_of h.bucket_count))
