-- ===== src/Recovery.antt =====
-- Making the index anew from the value file: `HasValidIndexLayout` and `RebuildIndexFromValues` of
-- src/lumodb/database.cpp.
pub mod Layout
pub mod Rebuild
use lumodb.Base.{
  ℕ, zero, suc, ◌+◌, ◌-◌, ◌≤◌, ◌≡◌, Bool, true, false, not, ◌&&◌, Option, none, some, List, [], ◌∷◌,
  ltb, leb, ◌==◌, length, get_or, set, bytes_eq, if◌then◌else◌,
}
use Prim.Native.Nat.{bit_and}
use lumodb.Base.Words.{add64, sub64}
use lumodb.Status.{
  Result, Act, ok, err, fault, null_mapping, endless_loop, corruption, io_error, ◌>>=◌, ◌>>◌,
  require, on_ok,
}
use lumodb.Hash.{hash_string, object_index_hash}
use lumodb.Format.Headers.{
  ValueRecordHeader, record_header_size, decode_record_header, is_valid_record_header,
  storage_version,
}
use lumodb.File.{Device, read_all_at}
use lumodb.Objects.{
  IndexBucket, empty_bucket, Index, index_file_magic, Store, read_record_column_key, find_bucket,
}
use lumodb.Writer.{index_file_size, ensure_capacity_for_insert}

-- `filledCount`, over the buckets from `i` on.
pub count_filled : List IndexBucket → ℕ → ℕ → ℕ
count_filled buckets zero i = 0
count_filled buckets (suc rounds) i =
    let rest = count_filled buckets rounds (i + 1) in
    if (get_or buckets i empty_bucket).hash == 0 then rest else add64 rest 1

-- `HasValidIndexLayout` of an index file of `file_size` bytes, of which `ix` is the mapping.
pub has_valid_index_layout : ℕ → Index → Bool
unfolding count_filled
has_valid_index_layout file_size ix =
    if ltb file_size 64
    then false
    else if not (
        bytes_eq ix.magic index_file_magic
        && (ix.version == storage_version)
        && (ix.header_size == 64))
    then false
    else if ix.bucket_count == 0
    then false
    else if not (bit_and ix.bucket_count (sub64 ix.bucket_count 1) == 0)
    then false
    else if not (index_file_size ix.bucket_count == file_size)
    then false
    else if ltb ix.bucket_count ix.item_count
    then false
    else count_filled ix.buckets ix.bucket_count 0 == ix.item_count

-- What a round of the loop of `RebuildIndexFromValues` reads: the record's column, key and size.
pub record LoggedRecord : Type 0 where
  pub column : List ℕ
  pub key : List ℕ
  pub size : ℕ

pub read_logged : Device → Store → ℕ → ℕ → Result LoggedRecord
read_logged dev s file_size offset = do
  bytes ← read_all_at dev s.value_file record_header_size offset
  let h = decode_record_header bytes
  require (is_valid_record_header h) corruption "value record header is invalid"
  let size = add64 (add64 (add64 record_header_size h.column_size) h.key_size) h.value_size
  require (leb size (sub64 file_size offset)) corruption "value record extends beyond file size"
  (column, key) ← read_record_column_key dev s offset h
  ok (record { column = column; key = key; size = size })

-- The end of a round: the record's bucket goes where `FindBucket` says.
pub index_record : Device → Store → LoggedRecord → ℕ → Index → Result Index
index_record dev s r offset ix = do
  lookup ← find_bucket dev s ix r.column r.key (hash_string r.column) (hash_string r.key)
  ok (record ix {
    buckets = set ix.buckets lookup.index (record {
      hash = object_index_hash (hash_string r.column) (hash_string r.key);
      record_offset = offset;
    });
    item_count = if lookup.found then ix.item_count else add64 ix.item_count 1;
  })

pub keep_index : Store → Result Index → Act Store
keep_index s (ok ix) = (record s { index = some ix }, ok tt)
keep_index s (err c m) = (s, err c m)
keep_index s (fault x) = (s, fault x)

-- The two steps of a round that use the mapped index.
pub make_room : Device → Store → Option Index → Act Store
make_room dev s none = (s, fault null_mapping)
make_room dev s (some ix) = ensure_capacity_for_insert dev s ix 1

pub index_mapped : Device → LoggedRecord → ℕ → Store → Option Index → Act Store
unfolding index_record keep_index
index_mapped dev r offset s none = (s, fault null_mapping)
index_mapped dev r offset s (some ix) = keep_index s (index_record dev s r offset ix)

pub add_logged : Device → LoggedRecord → ℕ → Store → Act Store
unfolding make_room index_mapped
add_logged dev r offset s =
    on_ok (make_room dev s s.index) λ s'. index_mapped dev r offset s' s'.index

-- One round and what follows it, by what the round has read.
pub add_read :
    Device → Store → ℕ → Result LoggedRecord → (LoggedRecord → Store → Act Store) → Act Store
unfolding add_logged
add_read dev s offset (ok r) continue = on_ok (add_logged dev r offset s) (continue r)
add_read dev s offset (err c m) continue = (s, err c m)
add_read dev s offset (fault x) continue = (s, fault x)

-- `while (offset < fileSize)` with fuel.
pub rebuild_from : ℕ → Device → ℕ → ℕ → Store → Act Store
unfolding read_logged add_read
rebuild_from zero dev file_size offset s = (s, fault endless_loop)
rebuild_from (suc fuel) dev file_size offset s =
    let round =
      add_read dev s offset (read_logged dev s file_size offset)
        λ r s'. rebuild_from fuel dev file_size (add64 offset r.size) s' in
    if ltb offset file_size then round else (s, ok tt)

-- `RebuildIndexFromValues`. A round that moves on moves on by a byte at least, so that a run that
-- needs more rounds than the file has bytes has met a record of size 0, and stays there.
pub rebuild_index_from_values : Device → Store → Act Store
unfolding rebuild_from
rebuild_index_from_values dev s =
    if dev.stat_fails
    then (s, err io_error "fstat")
    else let file_size = length s.value_file in
      on_ok (rebuild_from (suc file_size) dev file_size 24 s)
        λ s'. (record s' { append_offset = file_size }, ok tt)
