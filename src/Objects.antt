-- ===== src/Objects.antt =====
-- The object store of src/lumodb/database.cpp (class `Database::Impl`): values.lumov, the mapped
-- index.lumoi, and the operations on them.
pub mod Records
pub mod Lookup
pub mod Many
use Prim.Native.Nat.{bit_and}
use lumodb.Base.{
  ℕ, zero, suc, ◌+◌, ◌-◌, ◌^◌, ◌≤◌, ◌≡◌, Bool, true, false, not, ◌&&◌, ◌||◌, Option, none, some,
  List, [], ◌∷◌, ◌++◌, ltb, leb, ◌==◌, length, get_or, set, take, drop, replicate, bytes_eq,
  if◌then◌else◌,
}
use lumodb.Base.Words.{u32, add64}
use lumodb.Status.{
  Result, ok, err, fault, null_mapping, out_of_bounds, corruption, io_error, invalid_argument,
  not_open, not_found, ◌>>=◌, ◌>>◌, require,
}
use lumodb.Hash.{hash_string, object_index_hash}
use lumodb.Format.Headers.{
  ValueRecordHeader, record_header_size, new_record_header, encode_record_header,
  decode_record_header, is_valid_record_header,
}
use lumodb.Probe.{Step, next, done, mask_of, scan}
use lumodb.Capacity.{LoadFactor, grow_buckets, round_up_power_of_two}
use lumodb.File.{Device, read_all_at, write_at}

-- `detail::IndexBucket`; a hash of 0 marks an empty one.
pub record IndexBucket : Type 0 where
  pub hash : ℕ
  pub record_offset : ℕ

abbrev pub empty_bucket : IndexBucket
empty_bucket = record { hash = 0; record_offset = 0 }

-- The mapped index file: the fields of `detail::IndexFileHeader`, and the buckets behind it.
pub record Index : Type 0 where
  pub magic : List ℕ
  pub version : ℕ
  pub header_size : ℕ
  pub bucket_count : ℕ
  pub item_count : ℕ
  pub next_sequence : ℕ
  pub buckets : List IndexBucket

-- "LUMI0002"
abbrev pub index_file_magic : List ℕ
index_file_magic = b'L' ∷ b'U' ∷ b'M' ∷ b'I' ∷ b'0' ∷ b'0' ∷ b'0' ∷ b'2' ∷ []

-- The four slices of one record, as `WriteStructs` hands them to `WriteVAllAt`.
unfoldable pub encode_record : List ℕ → List ℕ → List ℕ → List ℕ
encode_record column key value =
    encode_record_header (new_record_header (length column) (length key) (length value))
    ++ (column ++ (key ++ value))

-- The members of `Database::Impl` that object storage uses. `value_map` is the size of the
-- read-only mapping of the value file, and `index` the writable or read-only mapping of the index.
pub record Store : Type 0 where
  pub value_file : List ℕ
  pub value_map : Option ℕ
  pub append_offset : ℕ
  pub index : Option Index
  pub load : LoadFactor
  pub is_open : Bool
  pub read_only : Bool

-- `IndexHeader()` and `Buckets()` read through the mapping.
pub mapped : Store → Result Index
mapped s = elim s.index [ none ↦ fault null_mapping | some ix ↦ ok ix ]

-- `FitsUint32`
unfoldable pub fits_uint32 : ℕ → Bool
fits_uint32 size = leb size (u32 - 1)

-- `ReadValueAt`
pub read_value_at : Device → Store → ℕ → ℕ → Result (List ℕ)
read_value_at dev s size offset = elim s.value_map [
  | none ↦ read_all_at dev s.value_file size offset
  | some mapped_size ↦
      if ltb mapped_size offset || ltb (mapped_size - offset) size
      then err corruption "value read extends beyond file size"
      else ok (take size (drop offset s.value_file))
]

-- `ReadRecordColumnKey`
pub read_record_column_key : Device → Store → ℕ → ValueRecordHeader → Result (List ℕ × List ℕ)
unfolding read_value_at
read_record_column_key dev s record_offset h = do
  let offset = add64 record_offset record_header_size
  column ← read_value_at dev s h.column_size offset
  key ← read_value_at dev s h.key_size (add64 offset h.column_size)
  ok (column, key)

-- Reading a record's header with its check.
pub read_record_header : Device → Store → ℕ → Result ValueRecordHeader
unfolding read_value_at
read_record_header dev s record_offset = do
  bytes ← read_value_at dev s record_header_size record_offset
  let h = decode_record_header bytes
  require (is_valid_record_header h) corruption "index points to an invalid value record"
  ok h

-- `RecordMatches`
pub record_matches : Device → Store → IndexBucket → List ℕ → List ℕ → Result Bool
unfolding read_record_header read_record_column_key
record_matches dev s bucket column key = do
  h ← read_record_header dev s bucket.record_offset
  if not (h.column_size == length column) || not (h.key_size == length key) then ok false else do
    (stored_column, stored_key) ← read_record_column_key dev s bucket.record_offset h
    ok (bytes_eq stored_column column && bytes_eq stored_key key)

pub record BucketLookup : Type 0 where
  pub index : ℕ
  pub found : Bool

pub on_match : ℕ → Result Bool → Step (Result BucketLookup)
on_match i (ok true) = done (ok (record { index = i; found = true }))
on_match i (ok false) = next
on_match i (err c m) = done (err c m)
on_match i (fault x) = done (fault x)

-- The body of the loop of `FindBucket`; the mapping ends behind its last bucket.
pub find_body : Device → Store → Index → List ℕ → List ℕ → ℕ → ℕ → Step (Result BucketLookup)
unfolding on_match record_matches
find_body dev s ix column key hash i =
    let bucket = get_or ix.buckets i empty_bucket in
    if not (ltb i (length ix.buckets))
    then done (fault out_of_bounds)
    else if bucket.hash == 0
    then done (ok (record { index = i; found = false }))
    else if not (bucket.hash == hash)
    then next
    else on_match i (record_matches dev s bucket column key)

-- `FindBucket`
pub find_bucket : Device → Store → Index → List ℕ → List ℕ → ℕ → ℕ → Result BucketLookup
unfolding find_body
find_bucket dev s ix column key column_hash key_hash =
    let hash = object_index_hash column_hash key_hash in
    scan (find_body dev s ix column key hash) (err corruption "index table is full") ix.bucket_count
      (bit_and hash (mask_of ix.bucket_count))

-- The end of `GetStruct`: the record's header with its check, and the value behind the key.
pub read_value : Device → Store → IndexBucket → Result (List ℕ)
unfolding read_record_header
read_value dev s bucket = do
  h ← read_record_header dev s bucket.record_offset
  let value_offset =
      add64 (add64 (add64 bucket.record_offset record_header_size) h.column_size) h.key_size
  read_value_at dev s h.value_size value_offset

-- `GetStruct`
pub get_struct : Device → Store → List ℕ → List ℕ → Result (List ℕ)
unfolding find_bucket read_value mapped
get_struct dev s column key = do
  require s.is_open not_open "database is not open"
  ix ← mapped s
  lookup ← find_bucket dev s ix column key (hash_string column) (hash_string key)
  require lookup.found not_found "key not found"
  read_value dev s (get_or ix.buckets lookup.index empty_bucket)

-- The loop of `GetMany`.
pub get_each : Device → Store → List ℕ → List (List ℕ) → Result (List (List ℕ))
get_each dev s column [] = ok []
get_each dev s column (key ∷ rest) = do
  value ← get_struct dev s column key
  values ← get_each dev s column rest
  ok (value ∷ values)

-- `GetMany`: the first error ends it, and then no value is handed back.
pub get_many : Device → Store → List ℕ → List (List ℕ) → Result (List (List ℕ))
unfolding get_each
get_many dev s column keys = do
  require s.is_open not_open "database is not open"
  get_each dev s column keys
