-- ===== src/Format/Rows.antt =====
-- The row files' structs of src/lumodb/storage_format.h: the bucket of the row index, the header of
-- a row block and the buckets of its keys. Reserved bytes are fields too.
use lumodb.Base.{
  ℕ, ◌%◌, ◌^◌, ◌<◌, ◌≡◌, Bool, List, ◌++◌, ◌&&◌, ◌==◌, not, ◌-◌, false, if◌then◌else◌,
}
use Prim.Native.Nat.{bit_and}
use lumodb.Hash.{mix_hashes}
use lumodb.Base.Words.{u32, add64, mul64}
use lumodb.Format.Codec.{encode_le, field_at, decode_le-encode_le}
use lumodb.Format.Headers.{storage_version}

abbrev pub row_block_magic : ℕ
row_block_magic = 0x424C4F52

-- `RowIndexBucket`
pub record RowIndexBucket : Type 0 where
  pub state : ℕ
  pub shard_id : ℕ
  pub column_hash : ℕ
  pub row_id : ℕ
  pub block_offset : ℕ
  pub block_size : ℕ
  pub sequence : ℕ
  pub reserved64 : ℕ
  pub reserved65 : ℕ

unfoldable pub encode_row_index_bucket : RowIndexBucket → List ℕ
encode_row_index_bucket h =
    encode_le 4 h.state
    ++ (encode_le 4 h.shard_id
        ++ (encode_le 8 h.column_hash
            ++ (encode_le 8 h.row_id
                ++ (encode_le 8 h.block_offset
                    ++ (encode_le 8 h.block_size
                        ++ (encode_le 8 h.sequence
                            ++ (encode_le 8 h.reserved64 ++ (encode_le 8 h.reserved65))))))))

unfoldable pub decode_row_index_bucket : List ℕ → RowIndexBucket
decode_row_index_bucket bytes = record {
  state = field_at 0 4 bytes;
  shard_id = field_at 4 4 bytes;
  column_hash = field_at 8 8 bytes;
  row_id = field_at 16 8 bytes;
  block_offset = field_at 24 8 bytes;
  block_size = field_at 32 8 bytes;
  sequence = field_at 40 8 bytes;
  reserved64 = field_at 48 8 bytes;
  reserved65 = field_at 56 8 bytes;
}

-- Every field fits its width.
pub record FitsRowIndexBucket (h : RowIndexBucket) : Type 0 where
  pub state_fits : h.state < 256 ^ 4
  pub shard_id_fits : h.shard_id < 256 ^ 4
  pub column_hash_fits : h.column_hash < 256 ^ 8
  pub row_id_fits : h.row_id < 256 ^ 8
  pub block_offset_fits : h.block_offset < 256 ^ 8
  pub block_size_fits : h.block_size < 256 ^ 8
  pub sequence_fits : h.sequence < 256 ^ 8
  pub reserved64_fits : h.reserved64 < 256 ^ 8
  pub reserved65_fits : h.reserved65 < 256 ^ 8

-- A bucket of the row index whose fields fit their widths is read back from its bytes.
pub decode-encode_row_index_bucket :
    (h : RowIndexBucket)
    → FitsRowIndexBucket h
    → decode_row_index_bucket (encode_row_index_bucket h) ≡ h
unfolding encode_row_index_bucket decode_row_index_bucket encode_le
decode-encode_row_index_bucket h f = λ i. record {
  state = decode_le-encode_le 4 h.state f.state_fits i;
  shard_id = decode_le-encode_le 4 h.shard_id f.shard_id_fits i;
  column_hash = decode_le-encode_le 8 h.column_hash f.column_hash_fits i;
  row_id = decode_le-encode_le 8 h.row_id f.row_id_fits i;
  block_offset = decode_le-encode_le 8 h.block_offset f.block_offset_fits i;
  block_size = decode_le-encode_le 8 h.block_size f.block_size_fits i;
  sequence = decode_le-encode_le 8 h.sequence f.sequence_fits i;
  reserved64 = decode_le-encode_le 8 h.reserved64 f.reserved64_fits i;
  reserved65 = decode_le-encode_le 8 h.reserved65 f.reserved65_fits i;
}

-- `RowBlockHeader`
pub record RowBlockHeader : Type 0 where
  pub magic : ℕ
  pub version : ℕ
  pub header_size : ℕ
  pub sequence : ℕ
  pub column_hash : ℕ
  pub row_id : ℕ
  pub column_size : ℕ
  pub item_count : ℕ
  pub bucket_count : ℕ
  pub reserved32 : ℕ
  pub key_bytes_size : ℕ
  pub value_bytes_size : ℕ
  pub block_size : ℕ

unfoldable pub encode_row_block_header : RowBlockHeader → List ℕ
encode_row_block_header h =
    encode_le 4 h.magic
    ++ (encode_le 2 h.version
        ++ (encode_le 2 h.header_size
            ++ (encode_le 8 h.sequence
                ++ (encode_le 8 h.column_hash
                    ++ (encode_le 8 h.row_id
                        ++ (encode_le 4 h.column_size
                            ++ (encode_le 4 h.item_count
                                ++ (encode_le 4 h.bucket_count
                                    ++ (encode_le 4 h.reserved32
                                        ++ (encode_le 8 h.key_bytes_size
                                            ++ (encode_le 8 h.value_bytes_size
                                                ++ (encode_le 8 h.block_size))))))))))))

unfoldable pub decode_row_block_header : List ℕ → RowBlockHeader
decode_row_block_header bytes = record {
  magic = field_at 0 4 bytes;
  version = field_at 4 2 bytes;
  header_size = field_at 6 2 bytes;
  sequence = field_at 8 8 bytes;
  column_hash = field_at 16 8 bytes;
  row_id = field_at 24 8 bytes;
  column_size = field_at 32 4 bytes;
  item_count = field_at 36 4 bytes;
  bucket_count = field_at 40 4 bytes;
  reserved32 = field_at 44 4 bytes;
  key_bytes_size = field_at 48 8 bytes;
  value_bytes_size = field_at 56 8 bytes;
  block_size = field_at 64 8 bytes;
}

-- Every field fits its width.
pub record FitsRowBlockHeader (h : RowBlockHeader) : Type 0 where
  pub magic_fits : h.magic < 256 ^ 4
  pub version_fits : h.version < 256 ^ 2
  pub header_size_fits : h.header_size < 256 ^ 2
  pub sequence_fits : h.sequence < 256 ^ 8
  pub column_hash_fits : h.column_hash < 256 ^ 8
  pub row_id_fits : h.row_id < 256 ^ 8
  pub column_size_fits : h.column_size < 256 ^ 4
  pub item_count_fits : h.item_count < 256 ^ 4
  pub bucket_count_fits : h.bucket_count < 256 ^ 4
  pub reserved32_fits : h.reserved32 < 256 ^ 4
  pub key_bytes_size_fits : h.key_bytes_size < 256 ^ 8
  pub value_bytes_size_fits : h.value_bytes_size < 256 ^ 8
  pub block_size_fits : h.block_size < 256 ^ 8

-- A row block's header whose fields fit their widths is read back from its bytes.
pub decode-encode_row_block_header :
    (h : RowBlockHeader)
    → FitsRowBlockHeader h
    → decode_row_block_header (encode_row_block_header h) ≡ h
unfolding encode_row_block_header decode_row_block_header encode_le
decode-encode_row_block_header h f = λ i. record {
  magic = decode_le-encode_le 4 h.magic f.magic_fits i;
  version = decode_le-encode_le 2 h.version f.version_fits i;
  header_size = decode_le-encode_le 2 h.header_size f.header_size_fits i;
  sequence = decode_le-encode_le 8 h.sequence f.sequence_fits i;
  column_hash = decode_le-encode_le 8 h.column_hash f.column_hash_fits i;
  row_id = decode_le-encode_le 8 h.row_id f.row_id_fits i;
  column_size = decode_le-encode_le 4 h.column_size f.column_size_fits i;
  item_count = decode_le-encode_le 4 h.item_count f.item_count_fits i;
  bucket_count = decode_le-encode_le 4 h.bucket_count f.bucket_count_fits i;
  reserved32 = decode_le-encode_le 4 h.reserved32 f.reserved32_fits i;
  key_bytes_size = decode_le-encode_le 8 h.key_bytes_size f.key_bytes_size_fits i;
  value_bytes_size = decode_le-encode_le 8 h.value_bytes_size f.value_bytes_size_fits i;
  block_size = decode_le-encode_le 8 h.block_size f.block_size_fits i;
}

-- `RowKeyBucket`
pub record RowKeyBucket : Type 0 where
  pub state : ℕ
  pub reserved : ℕ
  pub key_hash : ℕ
  pub key_offset : ℕ
  pub key_size : ℕ
  pub value_offset : ℕ
  pub value_size : ℕ

unfoldable pub encode_row_key_bucket : RowKeyBucket → List ℕ
encode_row_key_bucket h =
    encode_le 1 h.state
    ++ (encode_le 7 h.reserved
        ++ (encode_le 8 h.key_hash
            ++ (encode_le 8 h.key_offset
                ++ (encode_le 8 h.key_size
                    ++ (encode_le 8 h.value_offset ++ (encode_le 8 h.value_size))))))

unfoldable pub decode_row_key_bucket : List ℕ → RowKeyBucket
decode_row_key_bucket bytes = record {
  state = field_at 0 1 bytes;
  reserved = field_at 1 7 bytes;
  key_hash = field_at 8 8 bytes;
  key_offset = field_at 16 8 bytes;
  key_size = field_at 24 8 bytes;
  value_offset = field_at 32 8 bytes;
  value_size = field_at 40 8 bytes;
}

-- Every field fits its width.
pub record FitsRowKeyBucket (h : RowKeyBucket) : Type 0 where
  pub state_fits : h.state < 256 ^ 1
  pub reserved_fits : h.reserved < 256 ^ 7
  pub key_hash_fits : h.key_hash < 256 ^ 8
  pub key_offset_fits : h.key_offset < 256 ^ 8
  pub key_size_fits : h.key_size < 256 ^ 8
  pub value_offset_fits : h.value_offset < 256 ^ 8
  pub value_size_fits : h.value_size < 256 ^ 8

-- A key's bucket in a row block whose fields fit their widths is read back from its bytes.
pub decode-encode_row_key_bucket :
    (h : RowKeyBucket) → FitsRowKeyBucket h → decode_row_key_bucket (encode_row_key_bucket h) ≡ h
unfolding encode_row_key_bucket decode_row_key_bucket encode_le
decode-encode_row_key_bucket h f = λ i. record {
  state = decode_le-encode_le 1 h.state f.state_fits i;
  reserved = decode_le-encode_le 7 h.reserved f.reserved_fits i;
  key_hash = decode_le-encode_le 8 h.key_hash f.key_hash_fits i;
  key_offset = decode_le-encode_le 8 h.key_offset f.key_offset_fits i;
  key_size = decode_le-encode_le 8 h.key_size f.key_size_fits i;
  value_offset = decode_le-encode_le 8 h.value_offset f.value_offset_fits i;
  value_size = decode_le-encode_le 8 h.value_size f.value_size_fits i;
}

-- `IsValidRowBlockHeader` of database.cpp.
unfoldable pub is_valid_row_block_header : RowBlockHeader → Bool
is_valid_row_block_header h =
    if not ((h.magic == row_block_magic) && (h.version == storage_version) && (h.header_size == 72))
    then false
    else if h.bucket_count == 0
    then false
    else if not (bit_and h.bucket_count (h.bucket_count - 1) == 0)
    then false
    else (h.block_size
        == add64 (add64 (add64 (add64 72 (mul64 h.bucket_count 48)) h.column_size) h.key_bytes_size)
            h.value_bytes_size)

-- `ShardForRow`, for a number of row value files above 0.
unfoldable pub shard_for_row : ℕ → ℕ → ℕ → ℕ
shard_for_row shards column_hash row_id = mix_hashes column_hash row_id % shards % u32
