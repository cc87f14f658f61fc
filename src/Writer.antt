-- ===== src/Writer.antt =====
-- The writing half of the object store of src/lumodb/database.cpp: placing buckets, growing the
-- index, and `WriteStructs` with the operations that call it.
pub mod Place
pub mod Publish
pub mod Gather
pub mod Resize
pub mod Layout
pub mod Append
pub mod Client
pub mod Failure
use Prim.Native.Nat.{bit_and}
use lumodb.Base.{
  ℕ, zero, suc, ◌+◌, ◌-◌, ◌/◌, ◌%◌, Bool, true, false, not, ◌&&◌, Option, none, some, List, [], ◌∷◌,
  ◌++◌, ltb, ◌==◌, length, get_or, set, replicate, if◌then◌else◌,
}
use lumodb.Base.Words.{u32, add64, mul64}
use lumodb.Status.{
  Result, Act, ok, err, fault, null_mapping, corruption, io_error, invalid_argument, not_open,
  ◌>>=◌, ◌>>◌, require, on_ok,
}
use lumodb.Hash.{hash_string, object_index_hash}
use lumodb.Format.Headers.{
  ValueRecordHeader, record_header_size, new_record_header, encode_record_header, storage_version,
}
use lumodb.Probe.{Step, next, done, mask_of, scan}
use lumodb.Capacity.{LoadFactor, grow_buckets, round_up_power_of_two}
use lumodb.File.{Device, write_v_all_at}
use lumodb.Objects.{
  IndexBucket, empty_bucket, Index, index_file_magic, Store, fits_uint32, find_bucket,
}

-- The body of the loops of `PlaceExistingBucket` and `PlaceNewBucket`.
pub place_body : Index → IndexBucket → ℕ → Step (Result Index)
place_body ix bucket i =
    if (get_or ix.buckets i empty_bucket).hash == 0
    then done (ok (record ix { buckets = set ix.buckets i bucket }))
    else next

pub place_existing_bucket : Index → IndexBucket → Result Index
unfolding place_body
place_existing_bucket ix bucket =
    scan (place_body ix bucket) (err corruption "index table is full during resize") ix.bucket_count
      (bit_and bucket.hash (mask_of ix.bucket_count))

pub place_new_bucket : Index → IndexBucket → Result Index
unfolding place_body
place_new_bucket ix bucket =
    scan (place_body ix bucket) (err corruption "index table is full during unique insert")
      ix.bucket_count (bit_and bucket.hash (mask_of ix.bucket_count))

-- `sizeof(IndexFileHeader) + bucketCount * sizeof(IndexBucket)` on 64 bits.
abbrev pub index_file_size : ℕ → ℕ
index_file_size bucket_count = add64 64 (mul64 bucket_count 16)

-- The zeroed mapping with a fresh header: its size says how many buckets it has room for.
abbrev pub new_index : ℕ → Index
new_index bucket_count = record {
  magic = index_file_magic;
  version = storage_version;
  header_size = 64;
  bucket_count = bucket_count;
  item_count = 0;
  next_sequence = 1;
  buckets = replicate ((index_file_size bucket_count - 64) / 16) empty_bucket;
}

-- `CreateEmptyIndex`: after an error nothing is mapped.
pub create_empty_index : Device → ℕ → Result Index
create_empty_index dev wanted_count = do
  bucket_count ← round_up_power_of_two wanted_count
  let size = index_file_size bucket_count
  require (not (dev.truncate_fails size)) io_error "ftruncate"
  require (not (size == 0)) invalid_argument "cannot mmap an empty file"
  require (not (dev.map_fails size)) io_error "mmap"
  ok (new_index bucket_count)

-- `oldBuckets` of `ResizeIndex`.
pub full_buckets : List IndexBucket → List IndexBucket
full_buckets [] = []
full_buckets (b ∷ bs) = let rest = full_buckets bs in if b.hash == 0 then rest else b ∷ rest

pub place_all : Index → List IndexBucket → Act Index
place_all ix [] = (ix, ok tt)
place_all ix (b ∷ bs) = elim (place_existing_bucket ix b) [
  | ok placed ↦ place_all (record placed { item_count = add64 placed.item_count 1 }) bs
  | err c m ↦ (ix, err c m)
  | fault x ↦ (ix, fault x)
]

-- `ResizeIndex`
pub resize_index : Device → Store → Index → ℕ → Act Store
unfolding place_all full_buckets create_empty_index
resize_index dev s ix new_bucket_count = elim (create_empty_index dev new_bucket_count) [
  | ok fresh ↦
      let (placed, status) =
        place_all (record fresh { next_sequence = ix.next_sequence }) (full_buckets ix.buckets) in
      (record s { index = some placed }, status)
  | err c m ↦ (record s { index = none }, err c m)
  | fault x ↦ (record s { index = none }, fault x)
]

-- `EnsureCapacityForInsert`
pub ensure_capacity_for_insert : Device → Store → Index → ℕ → Act Store
ensure_capacity_for_insert dev s ix insert_count =
    elim (grow_buckets s.load (add64 ix.item_count insert_count) ix.bucket_count) [
      | ok bucket_count ↦
          if bucket_count == ix.bucket_count then (s, ok tt) else resize_index dev s ix bucket_count
      | err c m ↦ (s, err c m)
      | fault x ↦ (s, fault x)
    ]

-- `StructEntry`
pub record StructEntry : Type 0 where
  pub key : List ℕ
  pub value : List ℕ

-- The local struct of `WriteStructs`.
pub record PendingRecord : Type 0 where
  pub header : ValueRecordHeader
  pub key : List ℕ
  pub value : List ℕ
  pub key_hash : ℕ
  pub record_offset : ℕ
  pub record_size : ℕ

pub pending_record : List ℕ → ℕ → StructEntry → PendingRecord
pending_record column offset e = record {
  header = new_record_header (length column % u32) (length e.key % u32) (length e.value);
  key = e.key;
  value = e.value;
  key_hash = hash_string e.key;
  record_offset = offset;
  record_size =
      add64 (add64 (add64 record_header_size (length column)) (length e.key)) (length e.value);
}

-- The first loop of `WriteStructs`: the records, and `nextAppendOffset` behind them.
pub pending_records : List ℕ → ℕ → List StructEntry → List PendingRecord × ℕ
unfolding pending_record
pending_records column offset [] = ([], offset)
pending_records column offset (e ∷ es) =
    let r = pending_record column offset e in
    let (rs, last) = pending_records column (add64 offset r.record_size) es in (r ∷ rs, last)

-- `recordSlices`, one behind the other.
pub record_slices : List ℕ → List PendingRecord → List ℕ
record_slices column [] = []
record_slices column (r ∷ rs) =
    (encode_record_header r.header ++ (column ++ (r.key ++ r.value))) ++ record_slices column rs

-- The body of the second loop, which puts one record into the index.
unfoldable pub publish_record :
    Device → Store → List ℕ → ℕ → Bool → Index → PendingRecord → Result Index
unfolding place_new_bucket
publish_record dev s column column_hash true ix r = do
  placed ←
      place_new_bucket ix (record {
        hash = object_index_hash column_hash r.key_hash;
        record_offset = r.record_offset;
      })
  ok (record placed { item_count = add64 placed.item_count 1 })
publish_record dev s column column_hash false ix r = do
  lookup ← find_bucket dev s ix column r.key column_hash r.key_hash
  ok (record ix {
    buckets = set ix.buckets lookup.index (record {
      hash = object_index_hash column_hash r.key_hash;
      record_offset = r.record_offset;
    });
    item_count = if lookup.found then ix.item_count else add64 ix.item_count 1;
  })

pub publish_records : Device → Store → List ℕ → ℕ → Bool → Index → List PendingRecord → Act Index
unfolding publish_record
publish_records dev s column column_hash unique ix [] = (ix, ok tt)
publish_records dev s column column_hash unique ix (r ∷ rs) =
    elim (publish_record dev s column column_hash unique ix r) [
      | ok ix' ↦ publish_records dev s column column_hash unique ix' rs
      | err c m ↦ (ix, err c m)
      | fault x ↦ (ix, fault x)
    ]

-- The records come into the mapped index, and `appendOffset_` moves if all did.
pub publish_mapped :
    Device → List ℕ → Bool → List PendingRecord → ℕ → Store → Option Index → Act Store
publish_mapped dev column unique pending next_append_offset s none = (s, fault null_mapping)
publish_mapped dev column unique pending next_append_offset s (some ix) =
    let (ix', published) = publish_records dev s column (hash_string column) unique ix pending in
    on_ok (record s { index = some ix' }, published)
      λ s'. (record s' { append_offset = next_append_offset }, ok tt)

pub publish_structs : Device → List ℕ → Bool → List PendingRecord → ℕ → Store → Act Store
unfolding publish_mapped
publish_structs dev column unique pending next_append_offset s =
    publish_mapped dev column unique pending next_append_offset s s.index

-- The rest of `WriteStructs` once the index has room: the records, their write, and the index.
pub append_structs : Device → List ℕ → List StructEntry → Bool → Store → Act Store
unfolding pending_records record_slices publish_records publish_structs
append_structs dev column entries unique s =
    let (pending, next_append_offset) = pending_records column s.append_offset entries in
    let (file, written) =
      write_v_all_at dev s.value_file s.append_offset (record_slices column pending) in
    on_ok (record s { value_file = file }, written)
      (publish_structs dev column unique pending next_append_offset)

pub keys_fit : List StructEntry → Bool
keys_fit [] = true
keys_fit (e ∷ es) = fits_uint32 (length e.key) && keys_fit es

-- The two calls of `WriteStructs` after its checks, on the mapped index.
pub write_mapped : Device → Store → List ℕ → List StructEntry → Bool → Option Index → Act Store
write_mapped dev s column entries unique none = (s, fault null_mapping)
write_mapped dev s column entries unique (some ix) =
    on_ok (ensure_capacity_for_insert dev s ix (length entries))
      (append_structs dev column entries unique)

abbrev pub is_empty : List StructEntry → Bool
is_empty [] = true
is_empty (e ∷ es) = false

-- `WriteStructs`
pub write_structs : Device → Store → List ℕ → List StructEntry → Bool → Act Store
unfolding write_mapped append_structs ensure_capacity_for_insert resize_index keys_fit
write_structs dev s column entries unique =
    if not s.is_open
    then (s, err not_open "database is not open")
    else if s.read_only
    then (s, err invalid_argument "database is read-only")
    else if not (fits_uint32 (length column))
    then (s, err invalid_argument "column must fit in uint32 length")
    else if is_empty entries
    then (s, ok tt)
    else if not (keys_fit entries)
    then (s, err invalid_argument "key must fit in uint32 length")
    else write_mapped dev s column entries unique s.index

-- `PutStructs`, `PutUniqueStructs`, `PutStruct`
pub put_structs : Device → Store → List ℕ → List StructEntry → Act Store
unfolding write_structs
put_structs dev s column entries = write_structs dev s column entries false

pub put_unique_structs : Device → Store → List ℕ → List StructEntry → Act Store
unfolding write_structs
put_unique_structs dev s column entries = write_structs dev s column entries true

pub put_struct : Device → Store → List ℕ → List ℕ → List ℕ → Act Store
unfolding put_structs
put_struct dev s column key value =
    put_structs dev s column (record { key = key; value = value } ∷ [])
