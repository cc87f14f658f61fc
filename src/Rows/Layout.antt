-- ===== src/Rows/Layout.antt =====
-- How a row block is laid out, src/lumodb/database.cpp: `BuildRowBlockLayout`, and the bytes that
-- `WriteRowStructs` writes of a layout.
use Prim.Native.Nat.{bit_and}
use lumodb.Base.{
  ℕ, suc, ◌+◌, ◌-◌, ◌%◌, not, ◌||◌, List, [], ◌∷◌, ◌++◌, leb, ◌==◌, length, get_or, set, take, drop,
  replicate, bytes_eq, if◌then◌else◌,
}
use lumodb.Base.Words.{u32, add64, mul64}
use lumodb.Status.{Result, ok, err, corruption, invalid_argument, ◌>>=◌, ◌>>◌, require}
use lumodb.Hash.{hash_string, mix_hashes}
use lumodb.Format.Headers.{storage_version}
use lumodb.Format.Rows.{
  RowBlockHeader, RowKeyBucket, row_block_magic, encode_row_block_header, encode_row_key_bucket,
}
use lumodb.Probe.{Step, next, done, mask_of, scan}
use lumodb.Capacity.{LoadFactor, round_up_power_of_two}
use lumodb.File.Loops.{flatten}

-- kBucketEmpty, kBucketFilled
abbrev pub bucket_empty : ℕ
bucket_empty = 0

abbrev pub bucket_filled : ℕ
bucket_filled = 1

-- `RowStructEntry`
pub record RowStructEntry : Type 0 where
  pub key : List ℕ
  pub bytes : List ℕ

abbrev pub no_entry : RowStructEntry
no_entry = record { key = []; bytes = [] }

abbrev pub empty_key_bucket : RowKeyBucket
empty_key_bucket = record {
  state = bucket_empty;
  reserved = 0;
  key_hash = 0;
  key_offset = 0;
  key_size = 0;
  value_offset = 0;
  value_size = 0;
}

-- `RowBlockLayout`; the entries whose values are written are kept as their values.
pub record RowBlockLayout : Type 0 where
  pub header : RowBlockHeader
  pub key_buckets : List RowKeyBucket
  pub key_bytes : List ℕ
  pub value_entries : List (List ℕ)

-- The variables of the first loop.
pub record Chosen : Type 0 where
  pub key_buckets : List RowKeyBucket
  pub key_bytes : List ℕ
  pub selected : List ℕ
  pub item_count : ℕ

-- The body of the loop over the probes for one entry.
unfoldable pub choose_body : Chosen → ℕ → List ℕ → ℕ → ℕ → Step (Result Chosen)
choose_body c entry_index key key_hash i =
    let b = get_or c.key_buckets i empty_key_bucket in
    if b.state == bucket_empty
    then done (
        ok (record {
          key_buckets = set c.key_buckets i (record b {
            state = bucket_filled;
            key_hash = key_hash;
            key_offset = length c.key_bytes;
            key_size = length key;
          });
          key_bytes = c.key_bytes ++ key;
          selected = set c.selected i entry_index;
          item_count = (c.item_count + 1) % u32;
        }))
    else if not (b.key_hash == key_hash) || not (b.key_size == length key)
    then next
    else if not (bytes_eq (take b.key_size (drop b.key_offset c.key_bytes)) key)
    then next
    else done (ok (record c { selected = set c.selected i entry_index }))

unfoldable pub choose : ℕ → ℕ → Chosen → ℕ → List ℕ → Result Chosen
unfolding choose_body
choose row_id bucket_count c entry_index key =
    scan (choose_body c entry_index key (hash_string key)) (err corruption "row key table is full")
      bucket_count (bit_and (mix_hashes (hash_string key) row_id) (mask_of bucket_count))

-- The first loop, from an entry on.
unfoldable pub choose_all : ℕ → ℕ → ℕ → List RowStructEntry → Chosen → Result Chosen
unfolding choose
choose_all row_id bucket_count entry_index [] c = ok c
choose_all row_id bucket_count entry_index (e ∷ es) c =
    choose row_id bucket_count c entry_index e.key >>= λ c'.
    choose_all row_id bucket_count (suc entry_index) es c'

-- The second loop, from the bucket `i` on: the buckets with their values' places, the values, and
-- `valueBytesSize`.
unfoldable pub place_values :
    List RowStructEntry → List ℕ → ℕ → List RowKeyBucket → ℕ → List RowKeyBucket × List (List ℕ) × ℕ
place_values entries selected i [] size = ([], [], size)
place_values entries selected i (b ∷ bs) size =
    let bytes = (get_or entries (get_or selected i (length entries)) no_entry).bytes in
    let size' = if b.state == bucket_empty then size else add64 size (length bytes) in
    let (bs', values, end) = place_values entries selected (suc i) bs size' in
    if b.state == bucket_empty
    then (b ∷ bs', values, end)
    else (record b { value_offset = size; value_size = length bytes } ∷ bs', bytes ∷ values, end)

-- `BuildRowBlockLayout`
unfoldable pub build_row_block_layout :
    LoadFactor → List ℕ → ℕ → List RowStructEntry → ℕ → ℕ → Result RowBlockLayout
unfolding choose_all place_values
build_row_block_layout load column row_id entries sequence column_hash = do
  require (leb (length entries) (u32 - 1)) invalid_argument "row entry count must fit in uint32"
  bucket_count ← round_up_power_of_two (add64 (load.quotient (length entries)) 1)
  require (leb bucket_count (u32 - 1)) invalid_argument "row key bucket count must fit in uint32"
  c ← choose_all row_id bucket_count 0 entries (record {
    key_buckets = replicate bucket_count empty_key_bucket;
    key_bytes = [];
    selected = replicate bucket_count (length entries);
    item_count = 0;
  })
  let (key_buckets, values, value_bytes_size) = place_values entries c.selected 0 c.key_buckets 0
  ok (record {
    header = record {
      magic = row_block_magic;
      version = storage_version;
      header_size = 72;
      sequence = sequence;
      column_hash = column_hash;
      row_id = row_id;
      column_size = length column % u32;
      item_count = c.item_count;
      bucket_count = bucket_count % u32;
      reserved32 = 0;
      key_bytes_size = length c.key_bytes;
      value_bytes_size = value_bytes_size;
      block_size =
          add64
            (add64 (add64 (add64 72 (mul64 bucket_count 48)) (length column)) (length c.key_bytes))
            value_bytes_size;
    };
    key_buckets = key_buckets;
    key_bytes = c.key_bytes;
    value_entries = values;
  })

abbrev pub encode_key_buckets : List RowKeyBucket → List ℕ
encode_key_buckets [] = []
encode_key_buckets (b ∷ bs) = encode_row_key_bucket b ++ encode_key_buckets bs

-- The slices that `WriteRowStructs` hands to `WriteVAllAt`.
unfoldable pub block_slices : List ℕ → RowBlockLayout → List ℕ
block_slices column l =
    encode_row_block_header l.header
    ++ (encode_key_buckets l.key_buckets ++ (column ++ (l.key_bytes ++ flatten l.value_entries)))
