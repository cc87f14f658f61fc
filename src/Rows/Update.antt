-- ===== src/Rows/Update.antt =====
-- Changing a row, src/lumodb/database.cpp: `LoadRowBlock` and `DecodeRowBlockEntries` read a block and take it apart, and
-- `PutRowStruct` replaces or adds one entry. The vectors of keys and of values are kept together.
pub mod Gathered
pub mod Decoded
pub mod Put
pub mod Loaded
use lumodb.Base.{
  ℕ, zero, suc, ◌+◌, ◌*◌, ◌≡◌, Bool, not, ◌&&◌, ◌||◌, List, [], ◌∷◌, ltb, ◌==◌, length, take, drop,
  bytes_eq, if◌then◌else◌,
}
use lumodb.Base.Words.{add64, mul64}
use lumodb.Status.{Result, ok, err, fault, out_of_bounds, corruption, ◌>>=◌, ◌>>◌, require}
use lumodb.Hash.{hash_string}
use lumodb.Format.Rows.{
  RowBlockHeader, RowKeyBucket, decode_row_block_header, decode_row_key_bucket,
  is_valid_row_block_header,
}
use lumodb.File.{Device}
use lumodb.Rows.Blocks.{
  RowFiles, read_row_value_at, BlockPlace, RowStructEntry, bucket_empty, bucket_filled,
  column_offset, key_bytes_offset, value_bytes_offset,
}

-- Bytes of the block, read through a pointer into it.
unfoldable pub piece_of : List ℕ → ℕ → ℕ → Result (List ℕ)
piece_of block size offset =
    if ltb (length block) (offset + size)
    then fault out_of_bounds
    else ok (take size (drop offset block))

-- One full bucket of the loop.
unfoldable pub decode_bucket : List ℕ → RowBlockHeader → RowKeyBucket → Result RowStructEntry
unfolding piece_of
decode_bucket block h b = do
  require (b.state == bucket_filled) corruption "row key bucket state is invalid"
  require
      (not (
        ltb h.key_bytes_size (add64 b.key_offset b.key_size)
        || ltb h.value_bytes_size (add64 b.value_offset b.value_size)))
      corruption "row key bucket points outside block"
  key ← piece_of block b.key_size (add64 (key_bytes_offset h) b.key_offset)
  bytes ← piece_of block b.value_size (add64 (value_bytes_offset h) b.value_offset)
  ok (record { key = key; bytes = bytes })

-- The loop, from the bucket `i` on.
unfoldable pub decode_from : List ℕ → RowBlockHeader → ℕ → ℕ → Result (List RowStructEntry)
unfolding decode_bucket
decode_from block h i zero = ok []
decode_from block h i (suc rounds) =
    let rest = decode_from block h (suc i) rounds in
    piece_of block 48 (72 + i * 48) >>= λ bytes.
    let b = decode_row_key_bucket bytes in
    if b.state == bucket_empty
    then rest
    else (decode_bucket block h b >>= λ e. rest >>= λ es. ok (e ∷ es))

-- `DecodeRowBlockEntries`
unfoldable pub decode_row_block_entries : List ℕ → List ℕ → ℕ → Result (List RowStructEntry)
unfolding decode_from
decode_row_block_entries block column row_id = do
  require (not (ltb (length block) 72)) corruption "row block is truncated"
  let h = decode_row_block_header (take 72 block)
  require
      (is_valid_row_block_header h
        && (h.block_size == length block)
        && (h.row_id == row_id)
        && (h.column_hash == hash_string column))
      corruption "row block header does not match requested row"
  stored_column ← piece_of block h.column_size (column_offset h)
  require (bytes_eq stored_column column) corruption
      "row block column does not match requested column"
  entries ← decode_from block h 0 h.bucket_count
  require (length entries == h.item_count) corruption
      "row block item count does not match key buckets"
  ok entries

-- The loop of `PutRowStruct` over the decoded entries, and the entry that it adds if it found none.
unfoldable pub put_entry : List RowStructEntry → List ℕ → List ℕ → List RowStructEntry
put_entry [] key bytes = record { key = key; bytes = bytes } ∷ []
put_entry (e ∷ es) key bytes =
    let rest = put_entry es key bytes in
    if bytes_eq e.key key then record e { bytes = bytes } ∷ es else e ∷ rest

-- `LoadRowBlock`
unfoldable pub load_row_block : Device → RowFiles → BlockPlace → Result (List ℕ)
load_row_block dev rows at = do
  require (ltb at.shard_id (length rows.value_files)) corruption
      "row index points to an invalid shard"
  read_row_value_at dev rows at.shard_id at.block_size at.block_offset

-- The end of `LoadRowEntries`, once the row's bucket is found.
unfoldable pub load_row_entries :
    Device → RowFiles → BlockPlace → List ℕ → ℕ → Result (List RowStructEntry)
unfolding load_row_block decode_row_block_entries
load_row_entries dev rows at column row_id = do
  block ← load_row_block dev rows at
  decode_row_block_entries block column row_id
